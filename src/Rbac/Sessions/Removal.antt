-- ===== src/Rbac/Sessions/Removal.antt =====
-- rbac/map.rs: which sessions `remove_user` and `remove_session` end.
use parseable.Prelude.{
  string_eq, ℕ, ◌≡◌, refl, inl, inr, Bool, false, not, ◌&&◌, Option, none, some, List, [], ◌∷◌,
  arith, ◌==◌, ==_iff, String, if◌then◌else◌, any, retain, Option-cases,
}
use parseable.Dict
use parseable.Dict.{Dict, get-remove, get-insert}
use parseable.Rbac.Role.{Permission}
use parseable.Rbac.Sessions.{
  Sessions, SessionKey, key_eq, or_default, remove_all, remove_user, remove_session,
}

abbrev pub sessions_of : Sessions → String → List (SessionKey × ℕ)
sessions_of s user = or_default (Dict.get s.user_sessions user)

-- Whether a session is among those tracked for a user.
abbrev pub tracked : Sessions → String → SessionKey → Bool
tracked s user key = any (λ t. t.0 == key) (sessions_of s user)

abbrev owned_by : Option (String × List Permission) → String → Bool
owned_by none user = false
owned_by (some (owner, perms)) user = owner == user

any-retain_ne :
    (key k : SessionKey) (l : List (SessionKey × ℕ))
    → any (λ t. t.0 == k) (retain (λ t. not (t.0 == key)) l)
      ≡ (any (λ t. t.0 == k) l && not (key == k))
any-retain_ne key k [] = refl
any-retain_ne key k ((j, e) ∷ l) =
    ground (arith, any-retain_ne key k l, ==_iff j key, ==_iff j k, ==_iff key k)

get-remove_all :
    (active : Dict SessionKey (String × List Permission)) (l : List (SessionKey × ℕ))
    (k : SessionKey)
    → Dict.get (remove_all active l) k ≡ (if any (λ t. t.0 == k) l then none else Dict.get active k)
unfolding remove_all
get-remove_all active [] k = refl
get-remove_all active ((j, e) ∷ l) k =
    ground (arith, get-remove_all (Dict.remove active j) l k, get-remove active j k)

module _ (s : Sessions) (user : String) where
  -- Removing a user ends exactly the sessions that are tracked for the user.
  pub get-remove_user :
      (k : SessionKey)
      → Dict.get (remove_user s user).active_sessions k
        ≡ (if tracked s user k then none else Dict.get s.active_sessions k)
  unfolding remove_user
  get-remove_user k =
      ground
        (arith, get-remove_all s.active_sessions (or_default (Dict.get s.user_sessions user)) k)

  pub user_sessions-remove_user :
      (other : String)
      → Dict.get (remove_user s user).user_sessions other
        ≡ (if user == other then none else Dict.get s.user_sessions other)
  unfolding remove_user
  user_sessions-remove_user other =
      ground (arith, ==_iff user other, get-remove s.user_sessions user other)

module _ (s : Sessions) (key : SessionKey) where
  pub get-remove_session :
      (k : SessionKey)
      → Dict.get (remove_session s key).1.active_sessions k
        ≡ (if key == k then none else Dict.get s.active_sessions k)
  unfolding remove_session
  get-remove_session k = ground (arith, ==_iff key k, get-remove s.active_sessions key k)

  -- Of the sessions tracked for the owner of the removed one, only that one goes.
  pub tracked-remove_session :
      (other : String) (k : SessionKey)
      → tracked (remove_session s key).1 other k
        ≡ (tracked s other k && not (owned_by (Dict.get s.active_sessions key) other && key == k))
  unfolding remove_session
  tracked-remove_session other k = elim (Option-cases (Dict.get s.active_sessions key)) [
    | inl e ↦ ground arith
    | inr ((user, perms), e) ↦ ground (
      arith,
      ==_iff user other,
      get-insert s.user_sessions user other (retain (λ t. not (t.0 == key)) (sessions_of s user)),
      any-retain_ne key k (sessions_of s user),
    )
  ]
