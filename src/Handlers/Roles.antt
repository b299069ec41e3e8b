-- ===== src/Handlers/Roles.antt =====
-- handlers/http/role.rs: the handlers that define and delete roles and name the default one.
pub mod Refresh
use parseable.Prelude.{
  string_eq, Bool, true, false, not, ◌||◌, Option, none, some, List, [], ◌∷◌, ◌++◌, ◌==◌, String,
  if◌then◌else◌, any, map, contains,
}
use parseable.Dict
use parseable.Dict.{Dict}
use parseable.Rbac.Role.{DefaultPrivilege}
use parseable.Rbac.User.{User, UserGroup, GroupUser, extend, userid}
use parseable.Rbac.Sessions
use parseable.Rbac.Sessions.{Sessions}
use parseable.Rbac.State.{State, or_empty}
use parseable.Rbac.Users.{StorageMetadata}
use parseable.Results.{Result, ok, err, ◌>>=◌, ◌>>◌, guard}
use parseable.Validator.{user_role_name, UsernameValidationError}
use parseable.Handlers.{
  System, Io, Write, written, remote_failed, staging_failed, RoleError, object_storage_error,
  role_in_use, validation_error, get_metadata, put_and_update, store_checked,
}

abbrev pub ids_of : List GroupUser → List String
ids_of users = map (λ u. u.userid) users

-- The loop over the groups that have the role, and the one over the users.
unfoldable pub group_users : String → Dict String UserGroup → List String → List String
group_users name [] refresh = refresh
group_users name ((key, group) ∷ groups) refresh =
    let with_users = group_users name groups (extend refresh (ids_of group.users)) in
    let without = group_users name groups refresh in
    if contains group.roles name then with_users else without

unfoldable pub role_users : String → Dict String User → List String → List String
role_users name [] refresh = refresh
role_users name ((key, user) ∷ users) refresh =
    let with_user = role_users name users (extend refresh (userid user ∷ [])) in
    let without = role_users name users refresh in
    if contains user.roles name then with_user else without

unfoldable pub session_refresh_users : State → String → List String
unfolding group_users role_users
session_refresh_users st name = role_users name st.users (group_users name st.user_groups [])

unfoldable pub put_role : String → List DefaultPrivilege → State → State
unfolding session_refresh_users
put_role name privileges st = record st {
  roles = Dict.insert st.roles name privileges;
  sessions = Sessions.remove_each st.sessions (session_refresh_users st name);
}

abbrev pub valid_name : Result UsernameValidationError (Unit {0}) → Result RoleError (Unit {0})
valid_name (ok u) = ok u
valid_name (err e) = err (validation_error e)

module _ (io : Io) (sys : System) where
  unfoldable pub checked_put :
      (String → String)
      → String
      → List DefaultPrivilege
      → Result RoleError (Unit {0} × StorageMetadata)
  checked_put to_lowercase name privileges = do
    valid_name (user_role_name to_lowercase name)
    metadata ← get_metadata object_storage_error io sys
    ok (tt, record metadata { roles = Dict.insert metadata.roles name privileges })

  unfoldable pub put :
      (String → String) → String → List DefaultPrivilege → Result RoleError (Unit {0}) × System
  unfolding checked_put store_checked
  put to_lowercase name privileges =
      store_checked object_storage_error io sys (checked_put to_lowercase name privileges)
        (put_role name privileges)

  -- The privileges of a role that is not there are empty.
  unfoldable pub get : String → Result RoleError (List DefaultPrivilege)
  get name = do
    metadata ← get_metadata object_storage_error io sys
    ok (or_empty (Dict.get metadata.roles name))

  unfoldable pub list : Result RoleError (List String)
  list = do
    metadata ← get_metadata object_storage_error io sys
    ok (map (λ role. role.0) metadata.roles)

  unfoldable pub checked_delete_role : String → Result RoleError (Unit {0} × StorageMetadata)
  checked_delete_role name = do
    metadata ← get_metadata object_storage_error io sys
    guard (not (any (λ u. contains u.roles name) metadata.users)) role_in_use
    guard (not (any (λ g. contains g.roles name) metadata.user_groups)) role_in_use
    ok (tt, record metadata { roles = Dict.remove metadata.roles name })

  unfoldable pub delete : String → Result RoleError (Unit {0}) × System
  unfolding checked_delete_role store_checked
  delete name =
      store_checked object_storage_error io sys (checked_delete_role name)
        (λ st. record st { roles = Dict.remove st.roles name })

  -- The default role in memory is set before the metadata is stored.
  unfoldable pub put_default : String → Result RoleError (Unit {0}) × System
  unfolding put_and_update
  put_default name = elim (get_metadata {E = RoleError} object_storage_error io sys) [
    | err e ↦ (err e, sys)
    | ok metadata ↦
        put_and_update object_storage_error io (record sys { default_role = some name })
          (record metadata { default_role = some name }) (λ st. st) tt
  ]

  unfoldable pub get_default : Option String
  get_default = sys.default_role
