-- ===== src/Rbac/User/Sets.antt =====
-- rbac/user.rs: the elements of a set after `extend` and `difference`.
use parseable.Prelude.{
  ◌≡◌, refl, ap, Bool, not, ◌&&◌, ◌||◌, List, [], ◌∷◌, arith, Eq, ◌==◌, ==_iff, any-append,
  contains, retain, Bool-cases, inl, inr,
}
use parseable.Rbac.User.{set_insert, extend, difference}

module _ {ℓ} {A : Type ℓ} ⦃e : Eq A⦄ where
  contains-set_insert :
      (xs : List A) (a b : A) → contains (set_insert xs a) b ≡ contains xs b || (b == a)
  unfolding set_insert
  contains-set_insert xs a b = elim (Bool-cases (b == a)) [
    | inl same ↦
        ground (arith, any-append (λ x. b == x) xs (a ∷ []), ap (contains xs) ((==_iff b a).0 same))
    | inr differ ↦ ground (arith, any-append (λ x. b == x) xs (a ∷ []))
  ]

  pub contains-extend :
      (xs ys : List A) (b : A) → contains (extend xs ys) b ≡ contains xs b || contains ys b
  unfolding extend
  contains-extend xs [] b = ground arith
  contains-extend xs (y ∷ ys) b =
      ground (arith, contains-extend (set_insert xs y) ys b, contains-set_insert xs y b)

  pub contains-retain :
      (p : A → Bool) (xs : List A) (b : A) → contains (retain p xs) b ≡ contains xs b && p b
  contains-retain p [] b = refl
  contains-retain p (x ∷ xs) b = elim (Bool-cases (b == x)) [
    | inl same ↦ ground (arith, contains-retain p xs b, ap p ((==_iff b x).0 same))
    | inr differ ↦ ground (arith, contains-retain p xs b)
  ]

  pub contains-difference :
      (xs ys : List A) (b : A)
      → contains (difference xs ys) b ≡ contains xs b && not (contains ys b)
  unfolding difference
  contains-difference xs ys b = contains-retain (λ x. not (contains ys x)) xs b
