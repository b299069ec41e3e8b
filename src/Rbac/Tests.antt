-- ===== src/Rbac/Tests.antt =====
-- Runs of the access control on a small state, and the theorems at inputs that meet their
-- hypotheses.
use parseable.Prelude.{
  string_eq, ◌≡◌, refl, inl, Bool, true, false, ◌==◌, Option, none, some, List, [], ◌∷◌, arith,
  String, ◌↔◌, ◌⊎◌, In, here, there, ◌&&◌, ◌||◌, if◌then◌else◌,
}
use parseable.Dict
use parseable.Rbac.Action
use parseable.Rbac.Action.{action_eq}
use parseable.Rbac.Role.{
  Permission, resource, self_user, stream, all, admin, reader, privilege_permissions, build,
  names_resource,
}
use parseable.Rbac.User.{User, UserGroup, native}
use parseable.Rbac.User
use parseable.Rbac.Sessions.{
  remove_expired_session, SessionKey, basic_auth, session_id, key_eq, no_sessions, track_new,
  remove_user, permissions,
}
use parseable.Rbac.Sessions.Removal.{tracked}
use parseable.Rbac.Sessions.Tracking.{expired_tracked, remove_user-track_new}
use parseable.Rbac.Sessions.Consistency.{
  IsConsistent, start, next, tracks, ends, Reach-IsConsistent,
}
use parseable.Rbac.State.{
  roles_to_permission, allows, aggregate_group_permissions, State, Response, authorized,
  unauthorized, reload_required, check_auth, authorize,
}
use parseable.Rbac.State.Decision.{Allows, Inherits, Reaches, check_auth_iff}
use parseable.Rbac.State.Privileges.{scoped_needs_reach}
use parseable.Rbac.State.Login.{FromOwnRoles, Fits, authorize_fresh_sound}
use parseable.Rbac.State.Administrative.{HoldsRole, IsAdminRole, authorize_administrative}
use parseable.Rbac.Users.{
  put_user, delete_user, add_roles, remove_roles, change_password_hash, new_session, get_role,
  has_user,
}
use parseable.Rbac.Users.Revocation.{HasNoSession, update_ends_sessions, remove_roles-new_session}

rbac : Unit {0}
unfolding authorize check_auth Dict.get Dict.insert Dict.remove privilege_permissions permissions
    track_new remove_user new_session remove_roles add_roles get_role has_user build
    roles_to_permission allows aggregate_group_permissions remove_expired_session
rbac = tt

-- Ann is an admin; Bob reads the stream `web`.
abbrev ann : User
ann = record {
  ty = native (record { username = "ann"; password_hash = "h1" });
  roles = "admin" ∷ [];
  user_groups = [];
}

abbrev bob : User
bob = record {
  ty = native (record { username = "bob"; password_hash = "h2" });
  roles = "readers" ∷ [];
  user_groups = [];
}

abbrev server : State
server = record {
  users = ("ann", ann) ∷ ("bob", bob) ∷ [];
  roles = ("admin", admin ∷ []) ∷ ("readers", reader (stream "web") ∷ []) ∷ [];
  user_groups = [];
  sessions = no_sessions;
  streams = [];
}

-- The stand-in for argon2: the password `p` fits the hash `h1`, and `q` fits `h2`.
abbrev verify : String → String → Bool
verify hash password = (hash == "h1" && password == "p") || (hash == "h2" && password == "q")

abbrev answer : Option (Response × State) → Option Response
answer none = none
answer (some (r, st)) = some r

authorize_tests :
    (answer (authorize verify 5 100 server (basic_auth "ann" "p") Action.put_user none none)
      ≡ some authorized)
    × (answer (authorize verify 5 100 server (basic_auth "ann" "x") Action.put_user none none)
        ≡ some unauthorized)
    × (answer (authorize verify 5 100 server (basic_auth "bob" "q") Action.query (some "web") none)
        ≡ some authorized)
    × (answer (authorize verify 5 100 server (basic_auth "bob" "q") Action.query (some "db") none)
        ≡ some unauthorized)
    × (answer (authorize verify 5 100 server (session_id 7) Action.query none none)
        ≡ some reload_required)
unfolding rbac
authorize_tests = (refl, refl, refl, refl, refl)

abbrev ann_key : SessionKey
ann_key = basic_auth "ann" "p"

abbrev ann_in : State
ann_in = record server {
  sessions = track_new 5 no_sessions "ann" ann_key 100 (resource Action.all all ∷ self_user ∷ []);
}

ann_let_in :
    authorize verify 5 100 server ann_key Action.put_user none none ≡ some (authorized, ann_in)
unfolding rbac
ann_let_in = refl

ann_fresh : check_auth server ann_key Action.put_user none none ≡ none
unfolding rbac
ann_fresh = refl

authorize_administrative_example :
    (role : String) × HoldsRole server "ann" role × IsAdminRole server role
authorize_administrative_example =
    authorize_administrative verify 5 100 server Action.put_user none none "ann" "p" ann_in refl
      ann_fresh ann_let_in

authorize_fresh_sound_example :
    (user : User) × (Dict.get server.users "ann" ≡ some user)
    × Fits verify 5 100 server Action.put_user none none "ann" "p" user
    × (p : Permission) × (FromOwnRoles server user p ⊎ Inherits server "ann" p)
    × Allows server Action.put_user none none "ann" p
authorize_fresh_sound_example =
    authorize_fresh_sound verify 5 100 server Action.put_user none none "ann" "p" ann_in ann_fresh
      ann_let_in

ann_cached :
    Dict.get ann_in.sessions.active_sessions ann_key
    ≡ some ("ann", resource Action.all all ∷ self_user ∷ [])
unfolding rbac
ann_cached = refl

check_auth_iff_example : (check_auth ann_in ann_key Action.put_user none none ≡ some authorized) ↔ (
    (p : Permission) × (In p (resource Action.all all ∷ self_user ∷ []) ⊎ Inherits ann_in "ann" p)
    × Allows ann_in Action.put_user none none "ann" p)
check_auth_iff_example =
    check_auth_iff ann_in ann_key Action.put_user none none "ann"
      (resource Action.all all ∷ self_user ∷ []) ann_cached

reads_web :
    In (resource Action.query (stream "web")) (privilege_permissions (reader (stream "web")))
unfolding rbac
reads_web = there (there (here refl))

scoped_needs_reach_example : Reaches server (some "web") "web"
unfolding names_resource
scoped_needs_reach_example =
    scoped_needs_reach server Action.query (some "web") none "bob" (reader (stream "web"))
      (stream "web") "web" (resource Action.query (stream "web")) refl refl reads_web refl
      (inl refl, inl refl)

remove_user-track_new_example :
    permissions (remove_user (track_new 5 ann_in.sessions "ann" (session_id 1) 50 []) "ann") ann_key
    ≡ (if session_id 1 == ann_key || expired_tracked 5 ann_in.sessions "ann" ann_key
        then none
        else permissions ann_in.sessions ann_key)
remove_user-track_new_example =
    remove_user-track_new 5 ann_in.sessions "ann" (session_id 1) 50 [] ann_key

-- The first session of Ann is still there after a second one was opened and her sessions were ended.
ann_survives :
    permissions (remove_user (track_new 5 ann_in.sessions "ann" (session_id 1) 50 []) "ann") ann_key
    ≡ some (resource Action.all all ∷ self_user ∷ [])
unfolding rbac
ann_survives = refl

abbrev owner : SessionKey → String
owner (basic_auth username password) = username
owner (session_id n) = "bob"

Reach-IsConsistent_example :
    IsConsistent owner (remove_user (track_new 5 no_sessions "ann" ann_key 9 []) "bob")
Reach-IsConsistent_example =
    Reach-IsConsistent owner (next (next start (tracks no_sessions 5 ann_key 9 [])) (ends _ "bob"))

ann_tracked :
    (k : SessionKey) (perms : List Permission)
    → Dict.get ann_in.sessions.active_sessions k ≡ some ("ann", perms)
    → tracked ann_in.sessions "ann" k ≡ true
unfolding rbac
ann_tracked k perms h = ground arith

ann_known : Dict.get ann_in.users (User.userid ann) ≡ some ann
unfolding rbac User.userid
ann_known = refl

update_ends_sessions_example :
    HasNoSession (add_roles ann_in "ann" ("x" ∷ [])).sessions "ann"
    × HasNoSession (remove_roles ann_in "ann" ("x" ∷ [])).sessions "ann"
    × HasNoSession (change_password_hash ann_in "ann" "h3").sessions "ann"
    × HasNoSession (put_user ann_in ann).sessions "ann"
    × HasNoSession (delete_user ann_in "ann").sessions "ann"
unfolding User.userid
update_ends_sessions_example = update_ends_sessions ann_in ann ("x" ∷ []) "h3" ann_tracked ann_known

ann_live : expired_tracked 5 ann_in.sessions "ann" ann_key ≡ false
unfolding rbac
ann_live = refl

remove_roles-new_session_example :
    permissions
      (remove_roles (new_session 5 ann_in ann (session_id 1) 50) "ann" ("admin" ∷ [])).sessions
      ann_key
    ≡ permissions ann_in.sessions ann_key
unfolding User.userid
remove_roles-new_session_example =
    remove_roles-new_session 5 ann_in ann (session_id 1) ann_key 50 refl ann_live ("admin" ∷ [])
      ann_known

abbrev bob_name : String
bob_name = "bob"

abbrev writers : List String
writers = "w" ∷ []
