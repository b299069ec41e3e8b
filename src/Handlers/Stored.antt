-- ===== src/Handlers/Stored.antt =====
-- handlers/http/rbac.rs: the stored list of users, read by id, after each change that a handler makes.
use parseable.Prelude.{
  string_eq, ◌≡◌, refl, sym, ap, subst, ◌∙◌, ◌⊎◌, inl, inr, Bool, true, false, not, Option, none,
  some, List, [], ◌∷◌, ◌++◌, ◌==◌, ==_iff, String, if◌then◌else◌, Bool-cases, Option-cases, arith,
  find, retain, In, here, there,
}
use parseable.Rbac.User.{User, userid}
use parseable.Handlers.Users.{update_first, has_userid}

-- The first user that has the id.
abbrev pub stored_user : List User → String → Option User
stored_user users id = find (has_userid id) users

-- No two users of the list have one id.
unfoldable pub IsUnique : List User → Type 0
IsUnique [] = Unit {0}
IsUnique (u ∷ us) = (stored_user us (userid u) ≡ none) × IsUnique us

pub stored_user-push :
    (us : List User) (u : User) (j : String)
    → stored_user us (userid u) ≡ none
    → stored_user (us ++ u ∷ []) j ≡ (if userid u == j then some u else stored_user us j)
stored_user-push [] u j h = refl
stored_user-push (v ∷ us) u j h = ground (
  arith,
  stored_user-push us u j,
  ==_iff (userid v) j,
  ==_iff (userid u) j,
  ==_iff (userid v) (userid u),
)

pub push-IsUnique :
    (us : List User) (u : User)
    → stored_user us (userid u) ≡ none
    → IsUnique us
    → IsUnique (us ++ u ∷ [])
unfolding IsUnique
push-IsUnique [] u h unique = (refl, tt)
push-IsUnique (v ∷ us) u h (first, unique) = (
  ground (
    arith,
    stored_user-push us u (userid v),
    ==_iff (userid v) (userid u),
    ==_iff (userid u) (userid v),
    first,
  ),
  push-IsUnique us u (ground arith) unique,
)

pub stored_user-retain :
    (us : List User) (i j : String)
    → stored_user (retain (λ u. not (userid u == i)) us) j
      ≡ (if i == j then none else stored_user us j)
stored_user-retain [] i j = ground arith
stored_user-retain (u ∷ us) i j =
    ground (arith, stored_user-retain us i j, ==_iff (userid u) i, ==_iff (userid u) j, ==_iff i j)

pub retain-IsUnique :
    (us : List User) (i : String) → IsUnique us → IsUnique (retain (λ u. not (userid u == i)) us)
unfolding IsUnique
retain-IsUnique [] i unique = tt
retain-IsUnique (u ∷ us) i (first, unique) = elim (Bool-cases (userid u == i)) [
  | inl same ↦ rw same (retain-IsUnique us i unique)
  | inr differ ↦
      rw differ (ground (arith, stored_user-retain us i (userid u)), retain-IsUnique us i unique)
]

-- An id that the rest has is not that of a user whom the rest has not.
stored_apart :
    (us : List User) (v u : User) (i : String)
    → stored_user us (userid v) ≡ none
    → stored_user us i ≡ some u
    → (userid v == i) ≡ false
stored_apart us v u i absent at = elim (Bool-cases (userid v == i)) [
  | inl same ↦ cc (absent, at, ap (stored_user us) ((==_iff (userid v) i).0 same))
  | inr differ ↦ differ
]

-- A change of the first user that a test finds, where the test finds users of one id alone, and the
-- change keeps the id.
module _ (i : String) (found : User → Bool) (change : User → User)
    (of_id : (u : User) → found u ≡ true → userid u ≡ i)
    (keeps : (u : User) → userid (change u) ≡ userid u) where
  hit_lem :
      (v : User) (us us' : List User)
      → found v ≡ true
      → us' ≡ change v ∷ us
      → (j : String)
      → stored_user us' j ≡ (if i == j then some (change v) else stored_user (v ∷ us) j)
  hit_lem v us us' hit e j =
      ap (λ l. stored_user l j) e
      ∙ ground (
        arith,
        of_id v hit,
        keeps v,
        ==_iff (userid (change v)) j,
        ==_iff i j,
        ==_iff (userid v) j,
      )

  miss_lem :
      (v : User) (us us' rest : List User) (u : User)
      → stored_user us (userid v) ≡ none
      → stored_user us i ≡ some u
      → us' ≡ v ∷ rest
      → ((j : String) → stored_user rest j ≡ (if i == j then some (change u) else stored_user us j))
      → (j : String)
      → stored_user us' j ≡ (if i == j then some (change u) else stored_user (v ∷ us) j)
  miss_lem v us us' rest u first at e after j =
      ap (λ l. stored_user l j) e
      ∙ ground (
        arith,
        after j,
        stored_apart us v u i first at,
        ==_iff (userid v) j,
        ==_iff i j,
        ==_iff (userid v) i,
      )

  pub update_first_lem :
      (us us' : List User)
      → IsUnique us
      → update_first found change us ≡ some us'
      → (u : User) × (stored_user us i ≡ some u)
        × (found u ≡ true)
        × ((j : String)
            → stored_user us' j ≡ (if i == j then some (change u) else stored_user us j))
  unfolding update_first IsUnique
  update_first_lem [] us' unique h = cc
  update_first_lem (v ∷ us) us' (first, unique) h = elim (Bool-cases (found v)) [
    | inl hit ↦ (
      v,
      ground (arith, of_id v hit, ==_iff (userid v) i),
      hit,
      hit_lem v us us' hit (ground arith),
    )
    | inr miss ↦ elim (Option-cases (update_first found change us)) [
      | inl e ↦ cc (h, miss, e)
      | inr (rest, e) ↦
          let (u, at, hit, after) = update_first_lem us rest unique e in
          (
            u,
            ground (arith, stored_apart us v u i first at),
            hit,
            miss_lem v us us' rest u first at (ground arith) after,
          )
    ]
  ]

  pub update_first-IsUnique :
      (us us' : List User) → IsUnique us → update_first found change us ≡ some us' → IsUnique us'
  unfolding update_first IsUnique
  update_first-IsUnique [] us' unique h = cc
  update_first-IsUnique (v ∷ us) us' (first, unique) h = elim (Bool-cases (found v)) [
    | inl hit ↦
        let e : us' ≡ change v ∷ us = ground arith in
        subst IsUnique (sym e) (ap (stored_user us) (keeps v) ∙ first, unique)
    | inr miss ↦ elim (Option-cases (update_first found change us)) [
      | inl e ↦ cc (h, miss, e)
      | inr (rest, e) ↦
          let (u, at, hit, after) = update_first_lem us rest unique e in
          let e' : us' ≡ v ∷ rest = ground arith in
          subst IsUnique (sym e') (
            ground (
              arith,
              after (userid v),
              stored_apart us v u i first at,
              ==_iff (userid v) i,
              ==_iff i (userid v),
            ),
            update_first-IsUnique us rest unique e,
          )
    ]
  ]

-- The users after such a change are the old ones, but for one that has changed.
pub In-update_first :
    (found : User → Bool) (change : User → User) (us us' : List User) (w : User)
    → update_first found change us ≡ some us'
    → In w us'
    → In w us ⊎ ((u : User) × In u us × (w ≡ change u))
unfolding update_first
In-update_first found change [] us' w h m = cc
In-update_first found change (v ∷ us) us' w h m = elim (Bool-cases (found v)) [
  | inl hit ↦
      let e : us' ≡ change v ∷ us = ground arith in
      elim (subst (In w) e m) [ here q ↦ inr (v, here refl, q) | there n ↦ inl (there n) ]
  | inr miss ↦ elim (Option-cases (update_first found change us)) [
    | inl e ↦ cc (h, miss, e)
    | inr (rest, e) ↦
        let e' : us' ≡ v ∷ rest = ground arith in
        elim (subst (In w) e' m) [
          | here q ↦ inl (here q)
          | there n ↦ elim (In-update_first found change us rest w e n) [
            | inl old ↦ inl (there old)
            | inr (u, k, q) ↦ inr (u, there k, q)
          ]
        ]
  ]
]
