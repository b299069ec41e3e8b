-- ===== src/Rbac/Users.antt =====
-- rbac/mod.rs, the operations of `Users`, and rbac/map.rs, `init`.
pub mod Revocation
pub mod Accounts
pub mod Maps
use parseable.Prelude.{
  string_eq, ℕ, ◌+◌, Bool, true, false, Option, none, some, List, [], ◌∷◌, ◌++◌, String, concat_map,
}
use parseable.Dict
use parseable.Dict.{Dict}
use parseable.Rbac.Role.{Permission, DefaultPrivilege, admin, privilege_permissions}
use parseable.Rbac.User
use parseable.Rbac.User.{User, UserGroup, UserType, Basic, native, oauth, extend, difference}
use parseable.Rbac.Sessions
use parseable.Rbac.Sessions.{Sessions, SessionKey, basic_auth, key_eq, track_new, no_sessions}
use parseable.Rbac.State.{State, StreamType, roles_to_permission, group_permissions}

abbrev pub end_sessions : State → String → State
end_sessions st userid = record st { sessions = Sessions.remove_user st.sessions userid }

unfoldable pub put_user : State → User → State
put_user st user =
    let st' = end_sessions st (User.userid user) in
    record st' { users = Dict.insert st'.users (User.userid user) user }

unfoldable pub get_user : State → String → Option User
get_user st userid = Dict.get st.users userid

abbrev pub groups_of : Option User → List String
groups_of none = []
groups_of (some user) = user.user_groups

unfoldable pub get_user_groups : State → String → List String
get_user_groups st userid = groups_of (Dict.get st.users userid)

abbrev pub roles_of : Option User → List String
roles_of none = []
roles_of (some user) = user.roles

unfoldable pub get_role : State → String → List String
get_role st userid = roles_of (Dict.get st.users userid)

abbrev pub present {ℓ} : {A : Type ℓ} → Option A → Bool
present none = false
present (some a) = true

-- `Users::contains`
unfoldable pub has_user : State → String → Bool
has_user st userid = present (Dict.get st.users userid)

unfoldable pub delete_user : State → String → State
delete_user st userid = end_sessions (record st { users = Dict.remove st.users userid }) userid

-- Only a native user has a password hash: the others are left as they are.
unfoldable pub with_hash : State → String → String → User → UserType → State
with_hash st userid hash user (native basic) =
    end_sessions
      (record st {
        users =
            Dict.insert st.users userid
              (record user { ty = native (record basic { password_hash = hash }) });
      })
      userid
with_hash st userid hash user (oauth o) = st

unfoldable pub change_password_hash : State → String → String → State
unfolding with_hash
change_password_hash st userid hash = elim (Dict.get st.users userid) [
  | none ↦ st
  | some user ↦ with_hash st userid hash user user.ty
]

unfoldable pub add_roles : State → String → List String → State
add_roles st userid roles = elim (Dict.get st.users userid) [
  | none ↦ st
  | some user ↦
      end_sessions
        (record st {
          users = Dict.insert st.users userid (record user { roles = extend user.roles roles });
        })
        userid
]

unfoldable pub remove_roles : State → String → List String → State
remove_roles st userid roles = elim (Dict.get st.users userid) [
  | none ↦ st
  | some user ↦
      end_sessions
        (record st {
          users = Dict.insert st.users userid (record user { roles = difference user.roles roles });
        })
        userid
]

abbrev or_empty {ℓ} : {A : Type ℓ} → Option (List A) → List A
or_empty none = []
or_empty (some l) = l

unfoldable pub get_permissions : State → SessionKey → List Permission
get_permissions st session =
    let permissions = or_empty (Sessions.permissions st.sessions session) in
    elim (Sessions.get_userid st.sessions session) [
      | none ↦ permissions
      | some userid ↦ permissions ++ concat_map (group_permissions st) (get_user_groups st userid)
    ]

unfoldable pub session_exists : State → SessionKey → Bool
session_exists st session = present (Sessions.permissions st.sessions session)

unfoldable pub remove_session : State → SessionKey → Option String × State
remove_session st session =
    let (user, sessions) = Sessions.remove_session st.sessions session in
    (user, record st { sessions = sessions })

unfoldable pub new_session : ℕ → State → User → SessionKey → ℕ → State
new_session now st user session expires_in = record st {
  sessions =
      track_new now st.sessions (User.userid user) session (now + expires_in)
        (roles_to_permission st user.roles);
}

-- `Users::from` and `UserGroups::from`: of two with one name the later one stays.
unfoldable pub users_from : Dict String User → List User → Dict String User
users_from m [] = m
users_from m (u ∷ us) = users_from (Dict.insert m (User.userid u) u) us

unfoldable pub groups_from : Dict String UserGroup → List UserGroup → Dict String UserGroup
groups_from m [] = m
groups_from m (g ∷ gs) = groups_from (Dict.insert m g.name g) gs

-- The parts of `StorageMetadata` that the access control reads and writes.
pub record StorageMetadata : Type 0 where
  pub users : List User
  pub user_groups : List UserGroup
  pub roles : Dict String (List DefaultPrivilege)
  pub default_role : Option String

-- `get_admin_user`, given the hash that the argon2 library makes of the configured password.
unfoldable pub get_admin_user : String → String → User
get_admin_user username hash = record {
  ty = native (record { username = username; password_hash = hash });
  roles = "admin" ∷ [];
  user_groups = [];
}

unfoldable pub init :
    (now max_utc : ℕ) (username password hash : String)
    → Dict String StreamType
    → StorageMetadata
    → State
unfolding users_from groups_from get_admin_user
init now max_utc username password hash streams metadata = record {
  users =
      Dict.insert (users_from [] metadata.users) (User.userid (get_admin_user username hash))
        (get_admin_user username hash);
  roles = Dict.insert metadata.roles "admin" (admin ∷ []);
  user_groups = groups_from [] metadata.user_groups;
  sessions =
      track_new now no_sessions (User.userid (get_admin_user username hash))
        (basic_auth username password) max_utc (privilege_permissions admin);
  streams = streams;
}
