-- ===== src/Rbac/Users/Maps.antt =====
-- rbac/mod.rs: the user map, and the untouched roles, after each change of one known user.
use parseable.Prelude.{
  string_eq, ◌≡◌, refl, inl, inr, none, some, List, ◌==◌, String, if◌then◌else◌, Option-cases,
  Option,
}
use parseable.Dict
use parseable.Dict.{get-insert}
use parseable.Rbac.User.{User, UserType, native, oauth, Basic, extend, difference}
use parseable.Rbac.State.{State}
use parseable.Rbac.Users.{add_roles, remove_roles, change_password_hash, with_hash}

module _ (st : State) (i : String) (u : User) (known : Dict.get st.users i ≡ some u) where
  pub users-add_roles :
      (roles : List String) (j : String)
      → Dict.get (add_roles st i roles).users j
        ≡ (if i == j then some (record u { roles = extend u.roles roles }) else Dict.get st.users j)
  unfolding add_roles
  users-add_roles roles j =
      rw (known, add_roles) (get-insert st.users i j (record u { roles = extend u.roles roles }))

  pub users-remove_roles :
      (roles : List String) (j : String)
      → Dict.get (remove_roles st i roles).users j ≡ (
          if i == j
          then some (record u { roles = difference u.roles roles })
          else Dict.get st.users j)
  unfolding remove_roles
  users-remove_roles roles j =
      rw (known, remove_roles)
        (get-insert st.users i j (record u { roles = difference u.roles roles }))

  pub users-change_password_hash :
      (hash : String) (basic : Basic) (j : String)
      → u.ty ≡ native basic
      → Dict.get (change_password_hash st i hash).users j ≡ (
          if i == j
          then some (record u { ty = native (record basic { password_hash = hash }) })
          else Dict.get st.users j)
  unfolding change_password_hash
  users-change_password_hash hash basic j e =
      rw (known, change_password_hash, e, with_hash)
        (get-insert st.users i j (record u { ty = native (record basic { password_hash = hash }) }))

module _ (st : State) (i : String) where
  pub roles-add_roles : (roles : List String) → (add_roles st i roles).roles ≡ st.roles
  unfolding add_roles
  roles-add_roles roles = elim (Option-cases (Dict.get st.users i)) [
    | inl e ↦ rw (e, add_roles) refl
    | inr (u, e) ↦ rw (e, add_roles) refl
  ]

  pub roles-remove_roles : (roles : List String) → (remove_roles st i roles).roles ≡ st.roles
  unfolding remove_roles
  roles-remove_roles roles = elim (Option-cases (Dict.get st.users i)) [
    | inl e ↦ rw (e, remove_roles) refl
    | inr (u, e) ↦ rw (e, remove_roles) refl
  ]

  pub roles-change_password_hash :
      (hash : String) → (change_password_hash st i hash).roles ≡ st.roles
  unfolding change_password_hash with_hash
  roles-change_password_hash hash = go (Dict.get st.users i) refl
    where
      known_type : (u : User) (t : UserType) → (with_hash st i hash u t).roles ≡ st.roles
      known_type u (native basic) = refl
      known_type u (oauth o) = refl

      go :
          (o : Option User)
          → Dict.get st.users i ≡ o
          → (change_password_hash st i hash).roles ≡ st.roles
      go none e = rw (e, change_password_hash) refl
      go (some u) e = rw (e, change_password_hash) (known_type u u.ty)
