-- ===== src/Rbac/Sessions/Consistency.antt =====
-- rbac/map.rs: the agreement of the two maps of `Sessions`.
use mathlib.Core.Bool.{false≢true}
use parseable.Prelude.{
  refl, string_eq, ==_self, ℕ, ◌≡◌, refl, sym, ap, ◌∙◌, inl, inr, true, false, some, List, arith,
  ◌==◌, ==_iff, String, Bool-cases,
}
use parseable.Dict
use parseable.Dict.{Dict, get-remove, get-insert, get-empty}
use parseable.Rbac.Role.{Permission}
use parseable.Rbac.Sessions.{
  Sessions, SessionKey, key_eq, no_sessions, track_new, remove_user, remove_session,
}
use parseable.Rbac.Sessions.Removal.{
  tracked, get-remove_user, user_sessions-remove_user, get-remove_session, tracked-remove_session,
}
use parseable.Rbac.Sessions.Tracking.{get-track_new, tracked_before}

-- A tracked session belongs to the user that it is tracked for, and is active under that user.
-- `owner` says whose each key is.
pub record IsConsistent (owner : SessionKey → String) (s : Sessions) : Type 0 where
  pub owned : (u : String) (k : SessionKey) → tracked s u k ≡ true → owner k ≡ u
  pub active :
      (u : String) (k : SessionKey)
      → tracked s u k ≡ true
      → (perms : List Permission) × (Dict.get s.active_sessions k ≡ some (u, perms))

nothing_tracked : (u : String) (k : SessionKey) → tracked no_sessions u k ≡ false
nothing_tracked u k = rw get-empty refl

pub no_sessions-IsConsistent : (owner : SessionKey → String) → IsConsistent owner no_sessions
no_sessions-IsConsistent owner = record {
  owned = λ u k h. absurd (false≢true (sym (nothing_tracked u k) ∙ h));
  active = λ u k h. absurd (false≢true (sym (nothing_tracked u k) ∙ h));
}

module _ (owner : SessionKey → String) (s : Sessions) (inv : IsConsistent owner s) where
  module _ (now : ℕ) (user : String) (key : SessionKey) (expiry : ℕ) (perms : List Permission)
      (own : owner key ≡ user) where
    tracked-owned :
        (u : String) (k : SessionKey)
        → tracked (track_new now s user key expiry perms) u k ≡ true
        → owner k ≡ u
    tracked-owned u k h = elim (tracked_before now s user key expiry perms u k h) [
      | inl old ↦ inv.owned u k old
      | inr (e, f) ↦ cc
    ]

    tracked-active :
        (u : String) (k : SessionKey)
        → tracked (track_new now s user key expiry perms) u k ≡ true
        → (ps : List Permission) × (Dict.get
              (track_new now s user key expiry perms).active_sessions
              k
            ≡ some (u, ps))
    tracked-active u k h = elim (Bool-cases (key == k)) [
      | inl same ↦ (
        perms,
        ground
            (arith, get-track_new now s user key expiry perms k, tracked-owned u k h, ==_iff key k),
      )
      | inr differ ↦ elim (tracked_before now s user key expiry perms u k h) [
        | inl old ↦
            let (ps, e) = inv.active u k old in
            (ps, ground (arith, get-track_new now s user key expiry perms k))
        | inr (e, f) ↦ absurd (ground (arith, ==_iff key k))
      ]
    ]

  -- Every operation of `Sessions` keeps the agreement, `track_new` for a key of its user.
  pub track_new-IsConsistent :
      (now : ℕ) (user : String) (key : SessionKey) (expiry : ℕ) (perms : List Permission)
      → owner key ≡ user
      → IsConsistent owner (track_new now s user key expiry perms)
  track_new-IsConsistent now user key expiry perms own = record {
    owned = tracked-owned now user key expiry perms own;
    active = tracked-active now user key expiry perms own;
  }

  tracked_of-remove_user :
      (user u : String) (k : SessionKey)
      → tracked (remove_user s user) u k ≡ true
      → (tracked s u k ≡ true) × ((user == u) ≡ false)
  tracked_of-remove_user user u k h = ground (arith, user_sessions-remove_user s user u)

  pub remove_user-IsConsistent : (user : String) → IsConsistent owner (remove_user s user)
  remove_user-IsConsistent user = record {
    owned = λ u k h. inv.owned u k (tracked_of-remove_user user u k h).0;
    active = λ u k h.
        let (old, other) = tracked_of-remove_user user u k h in
        let (ps, e) = inv.active u k old in
        (
          ps,
          ground
              (arith, get-remove_user s user k, inv.owned u k old, inv.owned user k, ==_iff user u),
        );
  }

  active-remove_session :
      (key : SessionKey) (u : String) (k : SessionKey) (ps : List Permission)
      → tracked (remove_session s key).1 u k ≡ true
      → Dict.get s.active_sessions k ≡ some (u, ps)
      → Dict.get (remove_session s key).1.active_sessions k ≡ some (u, ps)
  active-remove_session key u k ps h e = elim (Bool-cases (key == k)) [
    | inl same ↦ absurd (
        ground (
          arith,
          tracked-remove_session s key u k,
          ap (Dict.get s.active_sessions) ((==_iff key k).0 same),
          ==_self u,
        ))
    | inr differ ↦ ground (arith, get-remove_session s key k)
  ]

  pub remove_session-IsConsistent : (key : SessionKey) → IsConsistent owner (remove_session s key).1
  remove_session-IsConsistent key = record {
    owned = λ u k h. inv.owned u k (ground (arith, tracked-remove_session s key u k));
    active = λ u k h.
        let (ps, e) = inv.active u k (ground (arith, tracked-remove_session s key u k)) in
        (ps, active-remove_session key u k ps h e);
  }

-- The operations that `Users` makes on the sessions; a session is tracked for the owner of its key.
pub data Step (owner : SessionKey → String) : Sessions → Sessions → Type 0 where
  tracks :
      (s : Sessions) (now : ℕ) (key : SessionKey) (expiry : ℕ) (perms : List Permission)
      → Step owner s (track_new now s (owner key) key expiry perms)
  ends : (s : Sessions) (user : String) → Step owner s (remove_user s user)
  drops : (s : Sessions) (key : SessionKey) → Step owner s (remove_session s key).1

pub data Reach (owner : SessionKey → String) : Sessions → Type 0 where
  start : Reach owner no_sessions
  next : {s t : Sessions} → Reach owner s → Step owner s t → Reach owner t

Step-IsConsistent :
    (owner : SessionKey → String) {s t : Sessions}
    → Step owner s t
    → IsConsistent owner s
    → IsConsistent owner t
Step-IsConsistent owner (tracks s now key expiry perms) inv =
    track_new-IsConsistent owner s inv now (owner key) key expiry perms refl
Step-IsConsistent owner (ends s user) inv = remove_user-IsConsistent owner s inv user
Step-IsConsistent owner (drops s key) inv = remove_session-IsConsistent owner s inv key

-- After any operations on the sessions from none, each tracked session belongs to the user that it
-- is tracked for and is active under that user.
pub Reach-IsConsistent :
    (owner : SessionKey → String) {s : Sessions} → Reach owner s → IsConsistent owner s
Reach-IsConsistent owner start = no_sessions-IsConsistent owner
Reach-IsConsistent owner (next r st) = Step-IsConsistent owner st (Reach-IsConsistent owner r)
