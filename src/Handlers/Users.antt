-- ===== src/Handlers/Users.antt =====
-- handlers/http/rbac.rs: the handlers that make and delete users and change their passwords and
-- roles. `checked_*` is a handler up to the point where it stores the metadata.
use parseable.Prelude.{
  is_empty, string_eq, Bool, false, not, ◌||◌, Option, none, some, List, [], ◌∷◌, ◌++◌, ◌==◌,
  String, if◌then◌else◌, any, retain,
}
use parseable.Dict
use parseable.Rbac.User.{
  User, UserType, native, oauth, extend, difference, new_basic, userid, username_by_userid,
}
use parseable.Rbac.Users
use parseable.Rbac.Users.{StorageMetadata, has_user, get_user_groups, put_user}
use parseable.Results.{Result, ok, err, ◌>>=◌, ◌>>◌, guard, ok_or}
use parseable.Validator.{user_role_name, UsernameValidationError}
use parseable.Handlers.{
  System, Io, RbacError, user_exists, user_does_not_exist, serde_error, object_storage_error,
  validation_error, roles_do_not_exist, roles_not_assigned, invalid_deletion_request, get_metadata,
  store_checked, non_existent_roles,
}

-- `iter_mut().find(..)` and the change of what it finds
unfoldable pub update_first : (User → Bool) → (User → User) → List User → Option (List User)
update_first found change [] = none
update_first found change (u ∷ us) =
    let rest = update_first found change us in
    if found u then some (change u ∷ us) else elim rest [ none ↦ none | some us' ↦ some (u ∷ us') ]

abbrev pub has_userid : String → User → Bool
has_userid id user = userid user == id

abbrev pub native_named_type : String → UserType → Bool
native_named_type username (native basic) = basic.username == username
native_named_type username (oauth o) = false

abbrev pub native_named : String → User → Bool
native_named username user = native_named_type username user.ty

abbrev pub with_hash_type : String → UserType → UserType
with_hash_type hash (native basic) = native (record basic { password_hash = hash })
with_hash_type hash (oauth o) = oauth o

abbrev pub set_hash : String → User → User
set_hash hash user = record user { ty = with_hash_type hash user.ty }

abbrev pub with_roles : List String → User → User
with_roles roles user = record user { roles = extend user.roles roles }

abbrev pub without_roles : List String → User → User
without_roles roles user = record user { roles = difference user.roles roles }

-- The steps that the handlers for one user share. The last one gives the response too.
abbrev pub existing_user : System → String → Result RbacError User
existing_user sys id = ok_or (Dict.get sys.memory.users id) user_does_not_exist

abbrev pub roles_exist : System → List String → Result RbacError (Unit {0})
roles_exist sys roles =
    guard (is_empty (non_existent_roles sys.memory roles))
      (roles_do_not_exist (non_existent_roles sys.memory roles))

abbrev pub update_stored :
    Io
    → System
    → (User → Bool)
    → (User → User)
    → String
    → Result RbacError (String × StorageMetadata)
update_stored io sys found change response = do
  metadata ← get_metadata object_storage_error io sys
  users ← ok_or (update_first found change metadata.users) user_does_not_exist
  ok (response, record metadata { users = users })

module _ (io : Io) (sys : System) where
  unfoldable pub checked_add_roles :
      String → List String → Result RbacError (String × StorageMetadata)
  unfolding has_user
  checked_add_roles id roles = do
    guard (has_user sys.memory id) user_does_not_exist
    user ← existing_user sys id
    roles_exist sys roles
    update_stored io sys (has_userid id) (with_roles roles) (username_by_userid user)

  -- The response names the user in both of the handlers for roles.
  unfoldable pub add_roles_to_user : String → List String → Result RbacError String × System
  unfolding checked_add_roles store_checked
  add_roles_to_user id roles =
      store_checked object_storage_error io sys (checked_add_roles id roles)
        (λ st. Users.add_roles st id roles)

  unfoldable pub checked_remove_roles :
      String → List String → Result RbacError (String × StorageMetadata)
  unfolding has_user
  checked_remove_roles id roles = do
    guard (has_user sys.memory id) user_does_not_exist
    user ← existing_user sys id
    roles_exist sys roles
    guard (is_empty (difference roles (Users.get_role sys.memory id)))
        (roles_not_assigned (difference roles (Users.get_role sys.memory id)))
    update_stored io sys (has_userid id) (without_roles roles) (username_by_userid user)

  unfoldable pub remove_roles_from_user : String → List String → Result RbacError String × System
  unfolding checked_remove_roles store_checked
  remove_roles_from_user id roles =
      store_checked object_storage_error io sys (checked_remove_roles id roles)
        (λ st. Users.remove_roles st id roles)

  unfoldable pub checked_delete : String → Result RbacError (String × StorageMetadata)
  unfolding has_user get_user_groups
  checked_delete id = do
    guard (is_empty (get_user_groups sys.memory id)) (invalid_deletion_request id)
    guard (has_user sys.memory id) user_does_not_exist
    user ← existing_user sys id
    metadata ← get_metadata object_storage_error io sys
    ok (
      username_by_userid user,
      record metadata { users = retain (λ u. not (userid u == id)) metadata.users },
    )

  unfoldable pub delete_user : String → Result RbacError String × System
  unfolding checked_delete store_checked
  delete_user id =
      store_checked object_storage_error io sys (checked_delete id) (λ st. Users.delete_user st id)

  -- `gen_new_password` draws a password, and argon2 makes its hash: both are given.
  module _ (password hash : String) where
    unfoldable pub checked_gen_password : String → Result RbacError (String × StorageMetadata)
    checked_gen_password username =
        update_stored io sys (native_named username) (set_hash hash) password

    unfoldable pub post_gen_password : String → Result RbacError String × System
    unfolding checked_gen_password store_checked
    post_gen_password username =
        store_checked object_storage_error io sys (checked_gen_password username)
          (λ st. Users.change_password_hash st username hash)

-- The body of a request: none, one that is no list of names, or the roles.
pub data Body : Type 0 where
  no_body not_roles : Body
  roles_of_body : List String → Body

abbrev pub body_roles : Body → Result RbacError (List String)
body_roles no_body = ok []
body_roles not_roles = err serde_error
body_roles (roles_of_body roles) = ok roles

abbrev pub valid_name : Result UsernameValidationError (Unit {0}) → Result RbacError (Unit {0})
valid_name (ok u) = ok u
valid_name (err e) = err (validation_error e)

-- `io` is for storing the user, `io_roles` for the roles that are added after it.
module _ (to_lowercase : String → String) (io io_roles : Io) (sys : System)
    (password hash : String) where
  unfoldable pub checked_post : String → Body → Result RbacError (List String × StorageMetadata)
  unfolding has_user
  checked_post username body = do
    valid_name (user_role_name to_lowercase username)
    metadata ← get_metadata object_storage_error io sys
    roles ← body_roles body
    roles_exist sys roles
    guard (not (has_user sys.memory username || any (native_named username) metadata.users))
        (user_exists username)
    ok (roles, record metadata { users = metadata.users ++ new_basic username hash ∷ [] })

  -- The call of `add_roles_to_user` at the end, where there are roles.
  unfoldable pub give_roles :
      String → Result RbacError (List String) × System → Result RbacError String × System
  unfolding add_roles_to_user
  give_roles username (err e, stored) = (err e, stored)
  give_roles username (ok [], stored) = (ok password, stored)
  give_roles username (ok (role ∷ roles), stored) =
      let (response, after) = add_roles_to_user io_roles stored username (role ∷ roles) in
      (response >>= (λ name. ok password), after)

  unfoldable pub post_user : String → Body → Result RbacError String × System
  unfolding checked_post give_roles store_checked
  post_user username body = give_roles username (
      store_checked object_storage_error io sys (checked_post username body)
        (λ st. put_user st (new_basic username hash)))
