-- ===== src/Rbac/Sessions/Each.antt =====
-- rbac/map.rs: which sessions end when several users are removed one after the other.
use parseable.Prelude.{
  string_eq, ◌≡◌, refl, ap, ◌∙◌, inl, inr, true, false, none, List, [], ◌∷◌, ◌==◌, ==_iff, String,
  if◌then◌else◌, arith, Bool-cases, any, contains, contains-In, In-any,
}
use parseable.Dict
use parseable.Rbac.Sessions.{Sessions, SessionKey, key_eq, remove_user, remove_each}
use parseable.Rbac.Sessions.Removal.{tracked, get-remove_user, user_sessions-remove_user}

module _ (k : SessionKey) where
  tracked-remove_user :
      (s : Sessions) (id user : String)
      → tracked s id k ≡ false
      → tracked (remove_user s id) user k ≡ tracked s user k
  tracked-remove_user s id user h = elim (Bool-cases (id == user)) [
    | inl same ↦ ground (
      arith,
      user_sessions-remove_user s id user,
      ap (λ n. tracked s n k) ((==_iff id user).0 same),
    )
    | inr differ ↦ ground (arith, user_sessions-remove_user s id user)
  ]

  tracked_after :
      (s : Sessions) (id : String) (ids : List String)
      → tracked s id k ≡ false
      → any (λ n. tracked (remove_user s id) n k) ids ≡ any (λ n. tracked s n k) ids
  tracked_after s id [] h = refl
  tracked_after s id (n ∷ ids) h =
      ground (arith, tracked_after s id ids h, tracked-remove_user s id n h)

  -- A session that is over stays over.
  stays_over :
      (ids : List String) (s : Sessions)
      → Dict.get s.active_sessions k ≡ none
      → Dict.get (remove_each s ids).active_sessions k ≡ none
  unfolding remove_each
  stays_over [] s h = h
  stays_over (id ∷ ids) s h =
      stays_over ids (remove_user s id) (ground (arith, get-remove_user s id k))

  -- The sessions tracked for a user of the list end, and no others.
  pub get-remove_each :
      (ids : List String) (s : Sessions)
      → Dict.get (remove_each s ids).active_sessions k
        ≡ (if any (λ n. tracked s n k) ids then none else Dict.get s.active_sessions k)
  unfolding remove_each
  get-remove_each [] s = refl
  get-remove_each (id ∷ ids) s = elim (Bool-cases (tracked s id k)) [
    | inl t ↦
        stays_over ids (remove_user s id) (ground (arith, get-remove_user s id k)) ∙ ground arith
    | inr t ↦ ground (
      arith,
      get-remove_each ids (remove_user s id),
      tracked_after s id ids t,
      get-remove_user s id k,
    )
  ]

  pub ended :
      (s : Sessions) (ids : List String) (i : String)
      → contains ids i ≡ true
      → tracked s i k ≡ true
      → Dict.get (remove_each s ids).active_sessions k ≡ none
  ended s ids i h t =
      let hit = In-any (λ n. tracked s n k) ids i (contains-In ids i h) t in
      get-remove_each ids s ∙ rw hit refl
