-- ===== src/Handlers/Tests.antt =====
-- Runs of the handlers for users and roles, and the theorems at inputs that meet their hypotheses.
use parseable.Prelude.{
  string_eq, ◌≡◌, ◌≢◌, ◌↔◌, ◌≤◌, refl, true, false, none, some, [], ◌∷◌, ==_iff, ap, String,
  contains, all, here, there, arith,
}
use parseable.Dict
use parseable.Rbac.Role
use parseable.Rbac.Role.{DefaultPrivilege, reader}
use parseable.Rbac.User.{User, native, new_basic, userid}
use parseable.Rbac.Sessions.{SessionKey, basic_auth, key_eq}
use parseable.Rbac.Sessions.Removal.{tracked}
use parseable.Rbac.State.{State, user_defined}
use parseable.Rbac.Users.{StorageMetadata, init, has_user, put_user}
use parseable.Results.{ok, err}
use parseable.Validator.{
  user_role_name, stream_name, chars, byte_length, reserved_names, last, ends_in_alphanumeric,
  is_ascii_alphanumeric,
}
use parseable.Validator.Names.{user_role_name_iff, is_name_char, HasDouble}
use parseable.Handlers.{
  System, Io, written, remote_failed, staging_failed, object_storage_error, get_metadata,
  non_existent_roles, Write, store_checked,
}
use parseable.Handlers.Users.{
  update_first, roles_of_body, no_body, post_user, checked_post, give_roles, add_roles_to_user,
  remove_roles_from_user, delete_user, post_gen_password,
}
use parseable.Handlers.Roles
use parseable.Handlers.Roles.{put_role}
use parseable.Handlers.Roles.Refresh.{holds_role, put_role_ends}
use parseable.Handlers.Requests.{Request, creates_user, serve, start, next}
use parseable.Handlers.Stored.{stored_user, IsUnique}
use parseable.Handlers.Consistency.{IsSound}
use parseable.Handlers.Consistency.Requests.{Served-IsSound, init-IsSound}
use parseable.Handlers.Accepted.{
  accepts_add, accepts_remove, accepts_delete, accepts_password, accepts_role, accepts_delete_role,
}
use parseable.Handlers.Errors.{Outcome, request-Outcome}

handlers : Unit {0}
unfolding post_user checked_post give_roles serve Dict.get Dict.insert Dict.remove init has_user
    user_role_name stream_name store_checked get_metadata non_existent_roles userid put_user
    new_basic update_first
handlers = tt

abbrev fine : Io
fine = record { reads = true; write = written }

abbrev broken : Io
broken = record { reads = true; write = remote_failed }

abbrev same : String → String
same s = s

abbrev ann : User
ann = record {
  ty = native (record { username = "ann"; password_hash = "h1" });
  roles = "readers" ∷ [];
  user_groups = [];
}

abbrev first_metadata : StorageMetadata
first_metadata = record {
  users = ann ∷ [];
  user_groups = [];
  roles = ("readers", reader Role.all ∷ []) ∷ [];
  default_role = none;
}

abbrev first_system : System
first_system = record {
  metadata = first_metadata;
  memory = init 0 9 "root" "pw" "h0" [] first_metadata;
  default_role = none;
}

-- A user who is made with a role.
abbrev creation : Request
creation = creates_user fine fine "secret" "h2" "bob" (roles_of_body ("readers" ∷ []))

-- Bob is stored and in memory with the role, and his password is the response.
creates_bob :
    (post_user same fine fine first_system "secret" "h2" "bob" (roles_of_body ("readers" ∷ []))).0
    ≡ ok "secret"
unfolding handlers
creates_bob = refl

abbrev after_bob : System
after_bob = (post_user same fine fine first_system "secret" "h2" "bob" no_body).1

-- Where the second `put_metadata` fails, the error hides the password of a user who is there.
hides_password :
    ((post_user same fine broken first_system "secret" "h2" "bob"
        (roles_of_body ("readers" ∷ []))).0
      ≡ err object_storage_error)
    × (has_user
          (post_user same fine broken first_system "secret" "h2" "bob"
            (roles_of_body ("readers" ∷ []))).1.memory
          "bob"
        ≡ true)
unfolding handlers
hides_password = (refl, refl)

-- A `post_user` that read the metadata before another one stored its user: that user is in memory,
-- and no longer stored.
abbrev overlapped : System
overlapped =
    (store_checked object_storage_error fine after_bob
      (checked_post same fine fine first_system "secret" "h3" "cat" no_body)
      (λ st. put_user st (new_basic "cat" "h3"))).1

loses_user :
    (stored_user overlapped.metadata.users "bob" ≡ none) × (has_user overlapped.memory "bob" ≡ true)
unfolding handlers
loses_user = (refl, refl)

-- A failed second write leaves the remote copy ahead of the maps.
torn_write :
    (Dict.get
        (Roles.put
          (record { reads = true; write = staging_failed })
          first_system
          same
          "ops"
          []).1.metadata.roles
        "ops"
      ≡ some [])
    × (Dict.get
          (Roles.put
            (record { reads = true; write = staging_failed })
            first_system
            same
            "ops"
            []).1.memory.roles
          "ops"
        ≡ none)
unfolding handlers Roles.put
torn_write = (refl, refl)

not_torn : ◌≢◌ {A = Write} written staging_failed
not_torn = λ h. cc h

init-IsSound_example : IsSound "root" first_system
unfolding handlers IsUnique
init-IsSound_example =
    init-IsSound 0 9 "root" "pw" "h0" [] first_metadata (refl, tt) refl refl
      (λ u m r c. elim m [
        | here e ↦
            ground (arith, ap (λ v. contains v.roles r) e, ==_iff r "readers", ==_iff "readers" r)
        | there x ↦ elim x [ ]
      ])
      (λ g m. elim m [ ])

Served-IsSound_example : IsSound "root" (serve same creation first_system)
Served-IsSound_example =
    Served-IsSound same "root" (next creation (not_torn, not_torn) start) init-IsSound_example

request-Outcome_example :
    Outcome broken first_system
      (accepts_add broken first_system "ann" ("readers" ∷ []))
      (add_roles_to_user broken first_system "ann" ("readers" ∷ []))
    × Outcome broken first_system
        (accepts_remove broken first_system "ann" ("readers" ∷ []))
        (remove_roles_from_user broken first_system "ann" ("readers" ∷ []))
    × Outcome broken first_system
        (accepts_delete broken first_system "ann")
        (delete_user broken first_system "ann")
    × Outcome broken first_system
        (accepts_password broken first_system "ann")
        (post_gen_password broken first_system "new" "h9" "ann")
    × Outcome broken first_system
        (accepts_role broken same "ann")
        (Roles.put broken first_system same "ann" [])
    × Outcome broken first_system
        (accepts_delete_role broken first_system "ann")
        (Roles.delete broken first_system "ann")
request-Outcome_example =
    request-Outcome broken first_system "ann" ("readers" ∷ []) "new" "h9" same [] (λ h. cc h)

-- Ann has a session; the role `readers` is defined anew.
abbrev ann_key : SessionKey
ann_key = basic_auth "ann" "pw"

abbrev with_session : State
with_session = record first_system.memory {
  sessions = record {
    active_sessions = (ann_key, ("ann", [])) ∷ [];
    user_sessions = ("ann", (ann_key, 5) ∷ []) ∷ [];
  };
}

put_role_ends_example :
    ((i : String)
      → holds_role with_session "readers" i ≡ true
      → tracked with_session.sessions i ann_key ≡ true
      → Dict.get (put_role "readers" [] with_session).sessions.active_sessions ann_key ≡ none)
    × (((i : String)
          → holds_role with_session "readers" i ≡ true
          → tracked with_session.sessions i ann_key ≡ false)
        → Dict.get (put_role "readers" [] with_session).sessions.active_sessions ann_key
          ≡ Dict.get with_session.sessions.active_sessions ann_key)
put_role_ends_example = put_role_ends ann_key with_session "readers" []

user_role_name_iff_example : (user_role_name same "_ops@x" ≡ ok tt) ↔ (
    (3 ≤ byte_length (chars "_ops@x"))
    × (byte_length (chars "_ops@x") ≤ 64)
    × (contains reserved_names "_ops@x" ≡ false)
    × (all is_name_char (chars "_ops@x") ≡ true)
    × (ends_in_alphanumeric (last (chars "_ops@x")) ≡ true)
    × (HasDouble (chars "_ops@x") → ⊥))
user_role_name_iff_example = user_role_name_iff same "_ops@x"

-- A name may start with a special character, and have an `@`.
leading_special : user_role_name same "_ops@x" ≡ ok tt
unfolding handlers
leading_special = refl

-- The words that are denied are denied in lower case alone.
keyword_in_capitals : stream_name is_ascii_alphanumeric "SELECT" user_defined ≡ ok tt
unfolding handlers is_ascii_alphanumeric
keyword_in_capitals = refl
