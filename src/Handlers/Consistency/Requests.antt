-- ===== src/Handlers/Consistency/Requests.antt =====
-- handlers/http/rbac.rs and role.rs: agreement of the stored metadata and the maps from the start of
-- the server on, over any sequence of requests.
use parseable.Prelude.{
  string_eq, ℕ, ◌≡◌, ◌≢◌, refl, sym, ap, ◌∙◌, inl, inr, true, none, List, [], ◌∷◌, ◌==◌, ==_iff,
  String, if◌then◌else◌, contains, In, arith, Bool-cases,
}
use parseable.Dict
use parseable.Dict.{Dict, get-insert, get-empty}
use parseable.Rbac.User.{User, UserGroup, userid}
use parseable.Rbac.Role
use parseable.Rbac.Role.{DefaultPrivilege}
use parseable.Rbac.State.{StreamType}
use parseable.Rbac.Users.{StorageMetadata, present, users_from, get_admin_user, init}
use parseable.Handlers.{System, staging_failed}
use parseable.Handlers.Stored.{stored_user, IsUnique}
use parseable.Handlers.Requests.{
  Request, creates_user, resets_password, deletes_user, adds_roles, removes_roles, puts_role,
  deletes_role, puts_default_role, serve, Served, start, next,
}
use parseable.Handlers.Consistency.{IsSound, admin_role}
use parseable.Handlers.Consistency.Accounts.{
  add_roles_to_user-IsSound, remove_roles_from_user-IsSound, delete_user-IsSound,
  post_gen_password-IsSound,
}
use parseable.Handlers.Consistency.Creation.{post_user-IsSound}
use parseable.Handlers.Consistency.RoleChanges.{put-IsSound, delete-IsSound, put_default-IsSound}

-- No write of a request ends between the remote copy and the staging copy.
abbrev pub IsWhole : Request → Type 0
IsWhole (creates_user io io_roles password hash username body) =
    (io.write ≢ staging_failed) × (io_roles.write ≢ staging_failed)
IsWhole (resets_password io password hash username) = io.write ≢ staging_failed
IsWhole (deletes_user io id) = io.write ≢ staging_failed
IsWhole (adds_roles io id roles) = io.write ≢ staging_failed
IsWhole (removes_roles io id roles) = io.write ≢ staging_failed
IsWhole (puts_role io name privileges) = io.write ≢ staging_failed
IsWhole (deletes_role io name) = io.write ≢ staging_failed
IsWhole (puts_default_role io name) = io.write ≢ staging_failed

module _ (to_lowercase : String → String) (admin : String) where
  serve-IsSound :
      (request : Request) (sys : System)
      → IsWhole request
      → IsSound admin sys
      → IsSound admin (serve to_lowercase request sys)
  unfolding serve
  serve-IsSound (creates_user io io_roles password hash username body) sys (w, w') s =
      post_user-IsSound admin to_lowercase io io_roles sys password hash w w' s username body
  serve-IsSound (resets_password io password hash username) sys w s =
      post_gen_password-IsSound admin io sys w s password hash username
  serve-IsSound (deletes_user io id) sys w s = delete_user-IsSound admin io sys w s id
  serve-IsSound (adds_roles io id roles) sys w s =
      add_roles_to_user-IsSound admin io sys w s id roles
  serve-IsSound (removes_roles io id roles) sys w s =
      remove_roles_from_user-IsSound admin io sys w s id roles
  serve-IsSound (puts_role io name privileges) sys w s =
      put-IsSound admin io sys w s to_lowercase name privileges
  serve-IsSound (deletes_role io name) sys w s = delete-IsSound admin io sys w s name
  serve-IsSound (puts_default_role io name) sys w s = put_default-IsSound admin io sys w s name

  -- From a state where the stored metadata and the maps agree, where stored ids differ and stored
  -- roles exist, every sequence of requests whose writes are whole leads to such a state: users
  -- and roles are then looked up with one result in both, but for the configured admin and its
  -- role.
  pub Served-IsSound :
      {sys after : System}
      → Served to_lowercase IsWhole sys after
      → IsSound admin sys
      → IsSound admin after
  Served-IsSound start s = s
  Served-IsSound (next request w steps) s = serve-IsSound request _ w (Served-IsSound steps s)

-- `Users::from` finds the first user with an id where ids differ.
get-users_from :
    (us : List User) (m : Dict String User) (j : String)
    → IsUnique us
    → Dict.get (users_from m us) j
      ≡ (if present (stored_user us j) then stored_user us j else Dict.get m j)
unfolding users_from IsUnique
get-users_from [] m j unique = refl
get-users_from (u ∷ us) m j (first, unique) = elim (Bool-cases (userid u == j)) [
  | inl same ↦
      let none_left : stored_user us j ≡ none =
        ap (stored_user us) (sym ((==_iff (userid u) j).0 same)) ∙ first in
      ground (
        arith,
        get-users_from us (Dict.insert m (userid u) u) j unique,
        get-insert m (userid u) j u,
      )
  | inr differ ↦
      ground (
        arith,
        get-users_from us (Dict.insert m (userid u) u) j unique,
        get-insert m (userid u) j u,
      )
]

module _ (now max_utc : ℕ) (username password hash : String) (streams : Dict String StreamType)
    (metadata : StorageMetadata) where
  -- `init` makes maps that agree with the metadata, if stored ids differ, the configured admin and
  -- the role `admin` are not stored, and every role that is held is stored.
  pub init-IsSound :
      IsUnique metadata.users
      → stored_user metadata.users username ≡ none
      → Dict.get metadata.roles admin_role ≡ none
      → ((u : User)
          → In u metadata.users
          → (r : String) → contains u.roles r ≡ true
          → present (Dict.get metadata.roles r) ≡ true)
      → ((g : UserGroup)
          → In g metadata.user_groups
          → (r : String) → contains g.roles r ≡ true
          → present (Dict.get metadata.roles r) ≡ true)
      → IsSound username (record {
        metadata = metadata;
        memory = init now max_utc username password hash streams metadata;
        default_role = metadata.default_role;
      })
  unfolding init get_admin_user userid
  init-IsSound unique no_admin no_admin_role held held_by_groups = record {
    unique = unique;
    users = λ j. elim (Bool-cases (username == j)) [
      | inl same ↦ inr (
        sym ((==_iff username j).0 same),
        ap (stored_user metadata.users) (sym ((==_iff username j).0 same)) ∙ no_admin,
      )
      | inr differ ↦ inl (
          ground (
            arith,
            get-insert (users_from [] metadata.users) username j (get_admin_user username hash),
            get-users_from metadata.users [] j unique,
            get-empty {V = User} j,
          ))
    ];
    roles = λ j. elim (Bool-cases (admin_role == j)) [
      | inl same ↦ inr (
        sym ((==_iff admin_role j).0 same),
        ap (Dict.get metadata.roles) (sym ((==_iff admin_role j).0 same)) ∙ no_admin_role,
      )
      | inr differ ↦ inl (ground (arith, get-insert metadata.roles admin_role j (Role.admin ∷ [])))
    ];
    held = λ u m r c. kept r (held u m r c);
    held_by_groups = λ g m r c. kept r (held_by_groups g m r c);
  }
    where
      kept :
          (r : String)
          → present (Dict.get metadata.roles r) ≡ true
          → present (Dict.get (Dict.insert metadata.roles admin_role (Role.admin ∷ [])) r) ≡ true
      kept r h = ground (arith, get-insert metadata.roles admin_role r (Role.admin ∷ []))
