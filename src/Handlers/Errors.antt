-- ===== src/Handlers/Errors.antt =====
-- handlers/http/rbac.rs and role.rs: which requests succeed, and what one that fails leaves behind.
use parseable.Prelude.{
  string_eq, ◌≡◌, ◌≢◌, ◌⊎◌, inl, inr, refl, Bool, true, false, ◌&&◌, String, List, arith,
}
use parseable.Dict
use parseable.Rbac.Role.{DefaultPrivilege}
use parseable.Rbac.State.{State}
use parseable.Rbac.Users
use parseable.Rbac.Users.{StorageMetadata, present, has_user, get_user_groups}
use parseable.Results.{Result, ok, err, is_ok}
use parseable.Handlers.{
  System, Io, Write, written, remote_failed, staging_failed, object_storage_error, put_and_update,
  store_checked,
}
use parseable.Handlers.Users.{
  native_named, add_roles_to_user, checked_add_roles, remove_roles_from_user, checked_remove_roles,
  delete_user, checked_delete, post_gen_password, checked_gen_password, set_hash,
}
use parseable.Handlers.Roles
use parseable.Handlers.Roles.{checked_put, checked_delete_role, put_role, valid_name}
use parseable.Handlers.Accepted.{
  accepts_add, accepts_remove, accepts_delete, accepts_password, accepts_role, accepts_delete_role,
  update_stored-is_ok, checked_add_roles-is_ok, checked_remove_roles-is_ok, checked_delete-is_ok,
  checked_put-is_ok, checked_delete_role-is_ok,
}

abbrev pub is_written : Write → Bool
is_written written = true
is_written _ = false

-- A request succeeds exactly if it is accepted and stored, or else leaves the system as it was.
abbrev pub Outcome {ℓ κ} :
    {E : Type ℓ} {R : Type κ} → Io → System → Bool → Result E R × System → Type 0
Outcome io sys accepts r =
    (is_ok r.0 ≡ accepts && is_written io.write) × ((is_ok r.0 ≡ true) ⊎ (r.1 ≡ sys))

store_checked-Outcome {ℓ κ} :
    {E : Type ℓ} {R : Type κ} (e : E) (io : Io) (sys : System)
    (checked : Result E (R × StorageMetadata)) (update : State → State) (accepts : Bool)
    → io.write ≢ staging_failed
    → is_ok checked ≡ accepts
    → Outcome io sys accepts (store_checked e io sys checked update)
unfolding store_checked put_and_update
store_checked-Outcome e io sys (err y) update accepts whole h = rw⁻¹ h (refl, inr refl)
store_checked-Outcome e io sys (ok (r, metadata)) update accepts whole h = go io.write refl
  where
    go :
        (w : Write)
        → io.write ≡ w
        → Outcome io sys accepts (store_checked e io sys (ok (r, metadata)) update)
    go written q = rw q (ground (arith, h), inl refl)
    go remote_failed q = rw q (ground arith, inr refl)
    go staging_failed q = absurd (whole q)

-- Where the copy in the staging directory does not fail alone, a request for the roles of a user, its
-- deletion or its password, or for the definition or deletion of a role succeeds exactly if the
-- storage reads and writes and the request meets what its handler asks for, and otherwise changes
-- neither the stored metadata nor the maps: the user is known and stored, the roles are defined and,
-- to be taken away, are the user's; a user who is deleted is known and in no group; a new password is
-- for a native user that is stored; a role that is defined has a valid name; and one that is deleted
-- belongs to no stored user and no stored group.
pub request-Outcome :
    (io : Io) (sys : System) (id : String) (roles : List String) (password hash : String)
    (to_lowercase : String → String) (privileges : List DefaultPrivilege)
    → io.write ≢ staging_failed
    → Outcome io sys (accepts_add io sys id roles) (add_roles_to_user io sys id roles)
      × Outcome io sys (accepts_remove io sys id roles) (remove_roles_from_user io sys id roles)
      × Outcome io sys (accepts_delete io sys id) (delete_user io sys id)
      × Outcome io sys (accepts_password io sys id) (post_gen_password io sys password hash id)
      × Outcome io sys
          (accepts_role io to_lowercase id)
          (Roles.put io sys to_lowercase id privileges)
      × Outcome io sys (accepts_delete_role io sys id) (Roles.delete io sys id)
unfolding add_roles_to_user remove_roles_from_user delete_user post_gen_password Roles.put
    Roles.delete checked_gen_password
request-Outcome io sys id roles password hash to_lowercase privileges whole = (
  store_checked-Outcome object_storage_error io sys (checked_add_roles io sys id roles)
      (λ st. Users.add_roles st id roles) _ whole (checked_add_roles-is_ok io sys id roles),
  store_checked-Outcome object_storage_error io sys (checked_remove_roles io sys id roles)
      (λ st. Users.remove_roles st id roles) _ whole (checked_remove_roles-is_ok io sys id roles),
  store_checked-Outcome object_storage_error io sys (checked_delete io sys id)
      (λ st. Users.delete_user st id) _ whole (checked_delete-is_ok io sys id),
  store_checked-Outcome object_storage_error io sys (checked_gen_password io sys password hash id)
      (λ st. Users.change_password_hash st id hash) _ whole
      (update_stored-is_ok io sys (native_named id) (set_hash hash) password),
  store_checked-Outcome object_storage_error io sys (checked_put io sys to_lowercase id privileges)
      (put_role id privileges) _ whole (checked_put-is_ok io sys to_lowercase id privileges),
  store_checked-Outcome object_storage_error io sys (checked_delete_role io sys id)
      (λ st. record st { roles = Dict.remove st.roles id }) _ whole
      (checked_delete_role-is_ok io sys id),
)
