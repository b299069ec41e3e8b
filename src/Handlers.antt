-- ===== src/Handlers.antt =====
-- handlers/http/rbac.rs and handlers/http/role.rs: the stored metadata beside the maps in memory,
-- the errors of the handlers, and what they all do at the end: store the metadata, then change the
-- maps. Requests come one after the other: `UPDATE_LOCK` is held by `delete_user` for its whole run,
-- by `post_user` and `post_gen_password` from after the reading of the metadata on, and by no other
-- handler. Handlers/Tests has a run of two `post_user` that overlap.

pub mod Users
pub mod Roles
pub mod Requests
pub mod Mirror
pub mod Stored
pub mod Consistency
pub mod Accepted
pub mod Errors
pub mod Tests
use parseable.Prelude.{
  string_eq, Bool, true, false, Option, none, some, List, [], ◌∷◌, ◌==◌, String, if◌then◌else◌, not,
  retain,
}
use parseable.Dict
use parseable.Rbac.Role.{DefaultPrivilege}
use parseable.Rbac.State.{State}
use parseable.Rbac.Users.{StorageMetadata, present}
use parseable.Results.{Result, ok, err}
use parseable.Validator.{UsernameValidationError}

-- The stored metadata, the maps of `rbac`, and `DEFAULT_ROLE`.
pub record System : Type 0 where
  pub metadata : StorageMetadata
  pub memory : State
  pub default_role : Option String

-- What the storage does in `put_metadata`, which writes the remote copy and then the one in the
-- staging directory.
pub data Write : Type 0 where
  written remote_failed staging_failed : Write

-- What the storage does in one handler.
pub record Io : Type 0 where
  pub reads : Bool
  pub write : Write

pub data RbacError : Type 0 where
  user_exists : String → RbacError
  user_does_not_exist serde_error object_storage_error : RbacError
  validation_error : UsernameValidationError → RbacError
  roles_do_not_exist roles_not_assigned : List String → RbacError
  invalid_deletion_request : String → RbacError

pub data RoleError : Type 0 where
  object_storage_error role_in_use : RoleError
  validation_error : UsernameValidationError → RoleError

module _ {ℓ} {E : Type ℓ} (storage_error : E) (io : Io) (sys : System) where
  unfoldable pub get_metadata : Result E StorageMetadata
  get_metadata = if io.reads then ok sys.metadata else err storage_error

  -- `put_metadata` and, where it succeeds, the change of the maps and the response.
  unfoldable pub put_and_update {κ} :
      {R : Type κ} → StorageMetadata → (State → State) → R → Result E R × System
  put_and_update metadata update response = elim io.write [
    | written ↦ (ok response, record sys { metadata = metadata; memory = update sys.memory })
    | remote_failed ↦ (err storage_error, sys)
    | staging_failed ↦ (err storage_error, record sys { metadata = metadata })
  ]

  -- A handler: what it stores with its response, or the error it stops with.
  unfoldable pub store_checked {κ} :
      {R : Type κ} → Result E (R × StorageMetadata) → (State → State) → Result E R × System
  unfolding put_and_update
  store_checked checked update = elim checked [
    | err e ↦ (err e, sys)
    | ok (response, metadata) ↦ put_and_update metadata update response
  ]

-- The roles of a request that are not there.
unfoldable pub non_existent_roles : State → List String → List String
non_existent_roles st roles = retain (λ role. not (present (Dict.get st.roles role))) roles
