-- ===== src/Rbac/Sessions.antt =====
-- rbac/map.rs, `Sessions`: the active sessions with their permissions, and the sessions that are
-- tracked for each user. A time is a number on one scale; `now` is what `Utc::now()` returns.
pub mod Removal
pub mod Each
pub mod Tracking
pub mod Consistency
use text.Mathlib.TextEquality.{eq_iff}
use parseable.Prelude.{
  string_eq, ℕ, ◌≡◌, ◌↔◌, Bool, true, false, not, ◌&&◌, Option, none, some, List, [], ◌∷◌, ◌++◌,
  arith, Eq, ◌==◌, String, any, retain, ltb, eqb,
}
use parseable.Dict
use parseable.Dict.{Dict}
use parseable.Rbac.Role.{Permission}

-- A ulid is the number of its 128 bits.
pub data SessionKey : Type 0 where
  basic_auth : (username password : String) → SessionKey
  session_id : ℕ → SessionKey

abbrev pub key_eqb : SessionKey → SessionKey → Bool
key_eqb (basic_auth u p) (basic_auth v q) = u == v && p == q
key_eqb (session_id m) (session_id n) = eqb m n
key_eqb _ _ = false

pub key_eqb_iff : (j k : SessionKey) → (key_eqb j k ≡ true) ↔ (j ≡ k)
key_eqb_iff (basic_auth u p) (basic_auth v q) = ground (arith, eq_iff u v, eq_iff p q)
key_eqb_iff (basic_auth u p) (session_id n) = (λ h. cc, λ h. cc)
key_eqb_iff (session_id m) (basic_auth v q) = (λ h. cc, λ h. cc)
key_eqb_iff (session_id m) (session_id n) = ground arith

instance abbrev pub key_eq : Eq SessionKey
key_eq = record { test = key_eqb; test_iff = key_eqb_iff }

pub record Sessions : Type 0 where
  pub active_sessions : Dict SessionKey (String × List Permission)
  pub user_sessions : Dict String (List (SessionKey × ℕ))

abbrev pub no_sessions : Sessions
no_sessions = record { active_sessions = []; user_sessions = [] }

unfoldable pub is_session_expired : ℕ → Sessions → SessionKey → Bool
is_session_expired now s key = elim (Dict.get s.active_sessions key) [
  | none ↦ false
  | some (user, perms) ↦ elim (Dict.get s.user_sessions user) [
    | none ↦ false
    | some session ↦ any (λ t. t.0 == key && ltb t.1 now) session
  ]
]

-- What `retain` keeps is what has expired, as the source writes it.
unfoldable pub remove_expired_session : ℕ → Sessions → String → Sessions
remove_expired_session now s user = elim (Dict.get s.user_sessions user) [
  | none ↦ s
  | some sessions ↦ record s {
    user_sessions = Dict.insert s.user_sessions user (retain (λ t. ltb t.1 now) sessions);
  }
]

-- `entry(user).or_default()`
abbrev pub or_default : Option (List (SessionKey × ℕ)) → List (SessionKey × ℕ)
or_default none = []
or_default (some l) = l

abbrev push_session : Sessions → String → SessionKey → ℕ → List Permission → Sessions
push_session s user key expiry permissions = record s {
  active_sessions = Dict.insert s.active_sessions key (user, permissions);
  user_sessions =
      Dict.insert s.user_sessions user
        (or_default (Dict.get s.user_sessions user) ++ (key, expiry) ∷ []);
}

unfoldable pub track_new : ℕ → Sessions → String → SessionKey → ℕ → List Permission → Sessions
track_new now s user key expiry permissions =
    push_session (remove_expired_session now s user) user key expiry permissions

unfoldable pub remove_session : Sessions → SessionKey → Option String × Sessions
remove_session s key = elim (Dict.get s.active_sessions key) [
  | none ↦ (none, s)
  | some (user, perms) ↦
      let active = Dict.remove s.active_sessions key in
      elim (Dict.get s.user_sessions user) [
        | none ↦ (none, record s { active_sessions = active })
        | some items ↦ (
          some user,
          record s {
            active_sessions = active;
            user_sessions = Dict.insert s.user_sessions user (retain (λ t. not (t.0 == key)) items);
          },
        )
      ]
]

-- The closure of `for_each` in `remove_user`.
unfoldable pub remove_all :
    Dict SessionKey (String × List Permission)
    → List (SessionKey × ℕ)
    → Dict SessionKey (String × List Permission)
remove_all active [] = active
remove_all active ((key, _) ∷ more) = remove_all (Dict.remove active key) more

unfoldable pub remove_user : Sessions → String → Sessions
unfolding remove_all
remove_user s username = elim (Dict.get s.user_sessions username) [
  | none ↦ s
  | some sessions ↦ record {
    active_sessions = remove_all s.active_sessions sessions;
    user_sessions = Dict.remove s.user_sessions username;
  }
]

-- `remove_user` for each user of a list.
unfoldable pub remove_each : Sessions → List String → Sessions
unfolding remove_user
remove_each s [] = s
remove_each s (user ∷ users) = remove_each (remove_user s user) users

abbrev second : Option (String × List Permission) → Option (List Permission)
second none = none
second (some (user, perms)) = some perms

abbrev first : Option (String × List Permission) → Option String
first none = none
first (some (user, perms)) = some user

-- `Sessions::get`
unfoldable pub permissions : Sessions → SessionKey → Option (List Permission)
permissions s key = second (Dict.get s.active_sessions key)

unfoldable pub get_userid : Sessions → SessionKey → Option String
get_userid s key = first (Dict.get s.active_sessions key)
