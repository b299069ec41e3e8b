-- ===== src/Rbac/State/Administrative.antt =====
-- rbac/mod.rs, `Users::authorize`: who can be let in for an administrative action.
use parseable.Prelude.{
  string_eq, ℕ, ◌≡◌, subst, inl, inr, Bool, true, Option, none, some, List, String, ◌⊎◌, In,
}
use parseable.Dict
use parseable.Dict.{Dict}
use parseable.Rbac.Action.{Action}
use parseable.Rbac.Role.{Permission, DefaultPrivilege, admin}
use parseable.Rbac.User.{User, UserGroup}
use parseable.Rbac.Sessions.{basic_auth, key_eq}
use parseable.Rbac.State.{State, authorized, check_auth, authorize}
use parseable.Rbac.State.Decision.{Allows, FromRole, Inherits}
use parseable.Rbac.State.Privileges.{is_administrative, administrative_needs_admin}
use parseable.Rbac.State.Login.{FromOwnRoles, authorize_fresh_sound}

-- A role that a user has, itself or by a group that it belongs to.
abbrev pub HoldsRole : State → String → String → Type 0
HoldsRole st username role =
    (user : User) × (Dict.get st.users username ≡ some user)
    × (In role user.roles
        ⊎ ((name : String) × In name user.user_groups
            × (group : UserGroup) × (Dict.get st.user_groups name ≡ some group)
            × In role group.roles))

-- A role that has the admin privilege.
abbrev pub IsAdminRole : State → String → Type 0
IsAdminRole st role =
    (privileges : List DefaultPrivilege) × (Dict.get st.roles role ≡ some privileges)
    × In admin privileges

module _ (st : State) (required : Action) (context context_user : Option String) (username : String)
    (p : Permission) (administrative : is_administrative required ≡ true)
    (a : Allows st required context context_user username p) where
  admin_role : (role : String) → FromRole st.roles role p → IsAdminRole st role
  admin_role role (ps, e, d, i, m) = (
    ps,
    e,
    subst (λ x. In x ps)
        (administrative_needs_admin st required context context_user username d p m administrative
          a)
        i,
  )

  admin_source :
      (user : User)
      → Dict.get st.users username ≡ some user
      → FromOwnRoles st user p ⊎ Inherits st username p
      → (role : String) × HoldsRole st username role × IsAdminRole st role
  admin_source user e (inl (role, i, f)) = (role, (user, e, inl i), admin_role role f)
  admin_source user e (inr (u, eu, name, i, (group, eg, role, j, f))) =
      (role, (u, eu, inr (name, i, group, eg, j)), admin_role role f)

-- On a name and a password that no cached session answers for, nobody is let in for an
-- administrative action without a role, own or of a group, that has the admin privilege.
pub authorize_administrative :
    (verify : String → String → Bool) (now max_utc : ℕ) (st : State) (required : Action)
    (context context_user : Option String) (username password : String) (st' : State)
    → is_administrative required ≡ true
    → check_auth st (basic_auth username password) required context context_user ≡ none
    → authorize verify now max_utc st (basic_auth username password) required context context_user
      ≡ some (authorized, st')
    → (role : String) × HoldsRole st username role × IsAdminRole st role
authorize_administrative verify now max_utc st required context context_user username password st'
      adm fresh h =
    let (user, e, fits, p, m, a) =
      authorize_fresh_sound verify now max_utc st required context context_user username password
        st' fresh h in
    admin_source st required context context_user username p adm a user e m
