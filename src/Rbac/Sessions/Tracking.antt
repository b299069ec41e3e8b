-- ===== src/Rbac/Sessions/Tracking.antt =====
-- rbac/map.rs: what `track_new` keeps of the sessions that a user has, and the agreement of the two
-- maps of `Sessions`.
use parseable.Prelude.{
  string_eq, ℕ, ◌≡◌, refl, inl, inr, Bool, true, ◌&&◌, ◌||◌, none, some, List, [], ◌∷◌, ◌++◌, arith,
  ◌==◌, ==_iff, String, if◌then◌else◌, any, any-append, retain, ltb, Bool-cases, ◌⊎◌,
}
use parseable.Dict
use parseable.Dict.{Dict, get-remove, get-insert}
use parseable.Rbac.Role.{Permission}
use parseable.Rbac.Sessions.{
  Sessions, SessionKey, key_eq, remove_expired_session, track_new, remove_user, permissions,
}
use parseable.Rbac.Sessions.Removal.{sessions_of, tracked, get-remove_user}

-- Whether a session is tracked for a user with an expiry that has passed.
abbrev pub expired_tracked : ℕ → Sessions → String → SessionKey → Bool
expired_tracked now s user k = any (λ t. t.0 == k && ltb t.1 now) (sessions_of s user)

any-retain_expired :
    (now : ℕ) (k : SessionKey) (l : List (SessionKey × ℕ))
    → any (λ t. t.0 == k) (retain (λ t. ltb t.1 now) l) ≡ any (λ t. t.0 == k && ltb t.1 now) l
any-retain_expired now k [] = refl
any-retain_expired now k ((j, e) ∷ l) = ground (arith, any-retain_expired now k l)

module _ (now : ℕ) (s : Sessions) (user : String) where
  active-remove_expired_session :
      (remove_expired_session now s user).active_sessions ≡ s.active_sessions
  unfolding remove_expired_session
  active-remove_expired_session = ground arith

  sessions_of-remove_expired_session :
      (other : String)
      → sessions_of (remove_expired_session now s user) other ≡ (
          if user == other
          then retain (λ t. ltb t.1 now) (sessions_of s other)
          else sessions_of s other)
  unfolding remove_expired_session
  sessions_of-remove_expired_session other = ground (
    arith,
    ==_iff user other,
    get-insert s.user_sessions user other (retain (λ t. ltb t.1 now) (sessions_of s user)),
  )

module _ (now : ℕ) (s : Sessions) (user : String) (key : SessionKey) (expiry : ℕ)
    (perms : List Permission) where
  pub get-track_new :
      (k : SessionKey)
      → Dict.get (track_new now s user key expiry perms).active_sessions k
        ≡ (if key == k then some (user, perms) else Dict.get s.active_sessions k)
  unfolding track_new
  get-track_new k = rw get-insert (rw active-remove_expired_session refl)

  sessions_of-track_new :
      (other : String)
      → sessions_of (track_new now s user key expiry perms) other ≡ (
          if user == other
          then retain (λ t. ltb t.1 now) (sessions_of s other) ++ (key, expiry) ∷ []
          else sessions_of s other)
  unfolding track_new
  sessions_of-track_new other = ground (
    arith,
    ==_iff user other,
    ==_iff user user,
    get-insert (remove_expired_session now s user).user_sessions user other
        (sessions_of (remove_expired_session now s user) user ++ (key, expiry) ∷ []),
    sessions_of-remove_expired_session now s user other,
    sessions_of-remove_expired_session now s user user,
  )

  -- Tracking a session keeps, of those tracked for its user, the ones that have expired.
  pub tracked-track_new :
      (other : String) (k : SessionKey)
      → tracked (track_new now s user key expiry perms) other k
        ≡ (if user == other then expired_tracked now s user k || key == k else tracked s other k)
  tracked-track_new other k = rw sessions_of-track_new (elim (Bool-cases (user == other)) [
    | inl same ↦ ground (
      arith,
      any-append (λ t. t.0 == k) (retain (λ t. ltb t.1 now) (sessions_of s user))
          ((key, expiry) ∷ []),
      any-retain_expired now k (sessions_of s user),
      (==_iff user other).0 same,
    )
    | inr differ ↦ rw differ refl
  ])

  -- After a session was tracked for a user, removing the user ends that session and those whose
  -- expiry had passed, and no other: a session that is still live stays active.
  pub remove_user-track_new :
      (k : SessionKey)
      → permissions (remove_user (track_new now s user key expiry perms) user) k
        ≡ (if key == k || expired_tracked now s user k then none else permissions s k)
  unfolding permissions
  remove_user-track_new k =
      rw get-remove_user (rw tracked-track_new (ground (arith, ==_iff user user, get-track_new k)))

any_of_expired :
    (now : ℕ) (k : SessionKey) (l : List (SessionKey × ℕ))
    → any (λ t. t.0 == k && ltb t.1 now) l ≡ true
    → any (λ t. t.0 == k) l ≡ true
any_of_expired now k [] h = cc
any_of_expired now k ((j, e) ∷ l) h = ground (arith, any_of_expired now k l)

-- A tracked session was tracked before, or is the new one.
pub tracked_before :
    (now : ℕ) (s : Sessions) (user : String) (key : SessionKey) (expiry : ℕ)
    (perms : List Permission) (u : String) (k : SessionKey)
    → tracked (track_new now s user key expiry perms) u k ≡ true
    → (tracked s u k ≡ true) ⊎ ((user ≡ u) × (key ≡ k))
tracked_before now s user key expiry perms u k h = ground (
  arith,
  tracked-track_new now s user key expiry perms u k,
  ==_iff user u,
  ==_iff key k,
  any_of_expired now k (sessions_of s user),
)
