-- ===== src/Rbac/Users/Accounts.antt =====
-- rbac/mod.rs: the user map after each operation of `Users`.
use parseable.Prelude.{
  string_eq, contains, ◌≡◌, ap, inl, inr, not, ◌&&◌, ◌||◌, none, some, List, arith, ◌==◌, ==_iff,
  String, if◌then◌else◌, Bool-cases, Option-cases,
}
use parseable.Dict
use parseable.Dict.{Dict, get-insert, get-remove}
use parseable.Rbac.User
use parseable.Rbac.User.{User, UserType, native, oauth, Basic, extend, difference}
use parseable.Rbac.User.Sets.{contains-extend, contains-difference}
use parseable.Rbac.State.{State}
use parseable.Rbac.Users.{
  has_user, get_user, get_role, put_user, delete_user, add_roles, remove_roles,
}

-- What `get_user` finds after a user was put, and after one was deleted.
pub get_user-put_user :
    (st : State) (user : User) (j : String)
    → get_user (put_user st user) j ≡ (if User.userid user == j then some user else get_user st j)
unfolding get_user put_user
get_user-put_user st user j = get-insert st.users (User.userid user) j user

pub get_user-delete_user :
    (st : State) (i j : String)
    → get_user (delete_user st i) j ≡ (if i == j then none else get_user st j)
unfolding get_user delete_user
get_user-delete_user st i j = get-remove st.users i j

module _ (st : State) (i : String) (roles : List String) (j r : String) where
  get_role-add_roles :
      contains (get_role (add_roles st i roles) j) r
      ≡ contains (get_role st j) r || (has_user st i && i == j && contains roles r)
  unfolding get_role add_roles has_user
  get_role-add_roles = elim (Option-cases (Dict.get st.users i)) [
    | inl e ↦ rw (e, add_roles) (ground arith)
    | inr (user, e) ↦ ground (
      arith,
      get-insert st.users i j (record user { roles = extend user.roles roles }),
      contains-extend user.roles roles r,
      ==_iff i j,
    )
  ]

  get_role-remove_roles :
      contains (get_role (remove_roles st i roles) j) r
      ≡ contains (get_role st j) r && not (i == j && contains roles r)
  unfolding get_role remove_roles
  get_role-remove_roles = elim (Option-cases (Dict.get st.users i)) [
    | inl e ↦ elim (Bool-cases (i == j)) [
      | inl same ↦ ground (arith, ap (Dict.get st.users) ((==_iff i j).0 same))
      | inr differ ↦ ground arith
    ]
    | inr (user, e) ↦ ground (
      arith,
      get-insert st.users i j (record user { roles = difference user.roles roles }),
      contains-difference user.roles roles r,
      ==_iff i j,
    )
  ]

  -- A user has a role after `add_roles` if it had it or, being known, was given it, and after
  -- `remove_roles` if it had it and it was not taken away; nobody else's roles change.
  get_role_lem :
      (contains (get_role (add_roles st i roles) j) r
        ≡ contains (get_role st j) r || (has_user st i && i == j && contains roles r))
      × (contains (get_role (remove_roles st i roles) j) r
          ≡ contains (get_role st j) r && not (i == j && contains roles r))
  get_role_lem = (get_role-add_roles, get_role-remove_roles)
