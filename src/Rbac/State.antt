-- ===== src/Rbac/State.antt =====
-- rbac/map.rs and rbac/mod.rs: the four global maps as one state, and the facade `Users` over it.
-- The streams stand for `PARSEABLE.get_stream` and the type of the stream that it returns.
pub mod Decision
pub mod Privileges
pub mod Login
pub mod Administrative
use parseable.Prelude.{
  string_eq, ℕ, Bool, true, false, ◌&&◌, ◌||◌, Option, none, some, List, [], ◌++◌, ◌==◌, String,
  if◌then◌else◌, any, concat_map,
}
use parseable.Dict
use parseable.Dict.{Dict}
use parseable.Rbac.Action
use parseable.Rbac.Action.{action_eqb, Action, action_eq, get_user_roles}
use parseable.Rbac.Role.{
  Permission, unit, resource, self_user, stream, llm, all, DefaultPrivilege, privilege_permissions,
}
use parseable.Rbac.User
use parseable.Rbac.User.{User, UserGroup, UserType, Basic, native, oauth}
use parseable.Rbac.Sessions
use parseable.Rbac.Sessions.{Sessions, SessionKey, basic_auth, session_id, key_eq, track_new}

-- storage/mod.rs
pub data StreamType : Type 0 where
  user_defined internal : StreamType

pub record State : Type 0 where
  pub users : Dict String User
  pub roles : Dict String (List DefaultPrivilege)
  pub user_groups : Dict String UserGroup
  pub sessions : Sessions
  pub streams : Dict String StreamType

pub data Response : Type 0 where
  authorized unauthorized reload_required : Response

abbrev pub or_empty {ℓ} : {A : Type ℓ} → Option (List A) → List A
or_empty none = []
or_empty (some l) = l

-- The privileges of one role, each built to permissions; a role that is not there gives none.
unfoldable pub role_permissions : Dict String (List DefaultPrivilege) → String → List Permission
role_permissions roles name = concat_map privilege_permissions (or_empty (Dict.get roles name))

unfoldable pub roles_to_permission : State → List String → List Permission
unfolding role_permissions
roles_to_permission st names = concat_map (role_permissions st.roles) names

-- One round of the loop over the groups of a user; a group that is not there gives none.
abbrev pub permissions_of_group :
    Dict String (List DefaultPrivilege) → Option UserGroup → List Permission
permissions_of_group roles none = []
permissions_of_group roles (some group) = concat_map (role_permissions roles) group.roles

unfoldable pub group_permissions : State → String → List Permission
unfolding role_permissions
group_permissions st name = permissions_of_group st.roles (Dict.get st.user_groups name)

abbrev pub permissions_of_user : State → Option User → List Permission
permissions_of_user st none = []
permissions_of_user st (some user) = concat_map (group_permissions st) user.user_groups

unfoldable pub aggregate_group_permissions : State → String → List Permission
unfolding group_permissions
aggregate_group_permissions st username = permissions_of_user st (Dict.get st.users username)

abbrev pub type_is_internal : Option StreamType → Bool
type_is_internal (some internal) = true
type_is_internal _ = false

unfoldable pub is_internal : State → String → Bool
is_internal st name = type_is_internal (Dict.get st.streams name)

-- The resource test of a permission that names one resource.
unfoldable pub ok_resource : State → Option String → String → Bool
unfolding is_internal
ok_resource st none id = true
ok_resource st (some context) id = id == context || id == "*" || is_internal st context

abbrev pub is_context_user : Option String → String → Bool
is_context_user none username = false
is_context_user (some x) username = x == username

-- The closure of `any` in `check_auth`.
unfoldable pub allows : State → Action → Option String → Option String → String → Permission → Bool
unfolding ok_resource action_eqb
allows st required context context_user username (unit a) = a == required || a == Action.all
allows st required context context_user username (resource a (stream id)) =
    (a == required || a == Action.all) && ok_resource st context id
allows st required context context_user username (resource a (llm id)) =
    (a == required || a == Action.all) && ok_resource st context id
allows st required context context_user username (resource a all) = a == required || a == Action.all
allows st required context context_user username self_user =
    required == get_user_roles && is_context_user context_user username

unfoldable pub check_auth :
    State → SessionKey → Action → Option String → Option String → Option Response
check_auth st key required context context_user = elim (Dict.get st.sessions.active_sessions key) [
  | none ↦ none
  | some (username, perms) ↦ some (
      if any (allows st required context context_user username)
        (perms ++ aggregate_group_permissions st username)
      then authorized
      else unauthorized)
]

-- `verify hash password` is the check of the argon2 library; `max_utc` is chrono's latest time.
module _ (verify : String → String → Bool) (now max_utc : ℕ) where
  -- The branch of `authorize` for a native user whose name is that of the key; `none` is the panic
  -- of `expect`.
  unfoldable pub reload :
      State
      → String
      → String
      → Action
      → Option String
      → Option String
      → User
      → Basic
      → Option (Response × State)
  reload st username password required context context_user user basic =
      if verify basic.password_hash password
      then (let st' : State = record st {
        sessions =
            track_new now st.sessions username (basic_auth username password) max_utc
              (roles_to_permission st user.roles);
      } in
          elim (check_auth st' (basic_auth username password) required context context_user) [
            | none ↦ none
            | some res ↦ some (res, st')
          ])
      else some (unauthorized, st)

  unfoldable pub authorize_user :
      State
      → String
      → String
      → Action
      → Option String
      → Option String
      → User
      → UserType
      → Option (Response × State)
  unfolding reload
  authorize_user st username password required context context_user user (native basic) =
      reload st username password required context context_user user basic
  authorize_user st username password required context context_user user (oauth o) =
      some (unauthorized, st)

  unfoldable pub authorize_key :
      State → SessionKey → Action → Option String → Option String → Option (Response × State)
  unfolding authorize_user
  authorize_key st (session_id n) required context context_user = some (reload_required, st)
  authorize_key st (basic_auth username password) required context context_user =
      elim (Dict.get st.users username) [
        | none ↦ some (unauthorized, st)
        | some user ↦ authorize_user st username password required context context_user user user.ty
      ]

  unfoldable pub authorize :
      State → SessionKey → Action → Option String → Option String → Option (Response × State)
  unfolding authorize_key
  authorize st key required context context_user =
      elim (check_auth st key required context context_user) [
        | some res ↦ some (res, st)
        | none ↦ authorize_key st key required context context_user
      ]
