-- ===== src/Prelude/Lists.antt =====
-- Lists under Boolean tests, measured by native numbers, and predicates over their elements.
use Prim.Native.Nat.{ℕ, zero, suc, ◌+◌}
use mathlib.Core.Path.{◌≡◌, refl, ap, subst, sym, ◌∙◌}
use mathlib.Core.Logic.{◌⊎◌, inl, inr}
use mathlib.Core.Bool.{Bool, true, false, ◌&&◌, ◌||◌}
use mathlib.Core.Option.{Option, none, some}
use mathlib.Core.List.{List, [], ◌∷◌, ◌++◌}
use native.Mathlib.Omega.{arith}
use parseable.Prelude.Tests.{if◌then◌else◌, Bool-cases, Eq, ◌==◌, ==_iff, ==_self}

-- Where an element stands in a list.
pub data In {ℓ} {A : Type ℓ} (a : A) : List A → Type ℓ where
  here : {x : A} {xs : List A} → a ≡ x → In a (x ∷ xs)
  there : {x : A} {xs : List A} → In a xs → In a (x ∷ xs)

module _ {ℓ} {A : Type ℓ} where
  abbrev pub length : List A → ℕ
  length [] = 0
  length (x ∷ xs) = suc (length xs)

  abbrev pub get_elem? : List A → ℕ → Option A
  get_elem? [] i = none
  get_elem? (x ∷ xs) zero = some x
  get_elem? (x ∷ xs) (suc i) = get_elem? xs i

  abbrev pub is_empty : List A → Bool
  is_empty [] = true
  is_empty (x ∷ xs) = false

  -- `Iterator::any`
  abbrev pub any : (A → Bool) → List A → Bool
  any p [] = false
  any p (x ∷ xs) = p x || any p xs

  -- `Iterator::all`
  abbrev pub all : (A → Bool) → List A → Bool
  all p [] = true
  all p (x ∷ xs) = p x && all p xs

  -- `Vec::retain`
  abbrev pub retain : (A → Bool) → List A → List A
  retain p [] = []
  retain p (x ∷ xs) = let rest = retain p xs in if p x then x ∷ rest else rest

  -- `Iterator::find`
  abbrev pub find : (A → Bool) → List A → Option A
  find p [] = none
  find p (x ∷ xs) = if p x then some x else find p xs

  pub length-append : (xs ys : List A) → length (xs ++ ys) ≡ length xs + length ys
  length-append [] ys = omega arith
  length-append (x ∷ xs) ys = omega (arith, length-append xs ys)

  pub any-append : (p : A → Bool) (xs ys : List A) → any p (xs ++ ys) ≡ any p xs || any p ys
  any-append p [] ys = refl
  any-append p (x ∷ xs) ys = ground (arith, any-append p xs ys)

  -- A test passes on the list exactly when it passes on one of its elements.
  pub any-In : (p : A → Bool) (xs : List A) → any p xs ≡ true → (a : A) × In a xs × (p a ≡ true)
  any-In p [] h = cc
  any-In p (x ∷ xs) h = elim (Bool-cases (p x)) [
    | inl e ↦ (x, here refl, e)
    | inr e ↦ let (a, m, q) = any-In p xs (ground arith) in (a, there m, q)
  ]

  pub In-any : (p : A → Bool) (xs : List A) (a : A) → In a xs → p a ≡ true → any p xs ≡ true
  In-any p [] a m h = elim m [ ]
  In-any p (x ∷ xs) a (here e) h = let q : p x ≡ true = ap p (sym e) ∙ h in ground arith
  In-any p (x ∷ xs) a (there m) h = ground (arith, In-any p xs a m h)

  pub In-append_left : (a : A) (xs ys : List A) → In a xs → In a (xs ++ ys)
  In-append_left a [] ys m = elim m [ ]
  In-append_left a (x ∷ xs) ys (here e) = here e
  In-append_left a (x ∷ xs) ys (there m) = there (In-append_left a xs ys m)

  pub In-append_right : (a : A) (xs ys : List A) → In a ys → In a (xs ++ ys)
  In-append_right a [] ys m = m
  In-append_right a (x ∷ xs) ys m = there (In-append_right a xs ys m)

  pub In-append : (a : A) (xs ys : List A) → In a (xs ++ ys) → In a xs ⊎ In a ys
  In-append a [] ys m = inr m
  In-append a (x ∷ xs) ys (here e) = inl (here e)
  In-append a (x ∷ xs) ys (there m) = elim (In-append a xs ys m) [
    | inl l ↦ inl (there l)
    | inr r ↦ inr r
  ]

  pub In-retain : (p : A → Bool) (xs : List A) (a : A) → In a (retain p xs) → In a xs × (p a ≡ true)
  In-retain p [] a m = elim m [ ]
  In-retain p (x ∷ xs) a m = split (p x) refl m (In-retain p xs a)
    where
      split :
          (b : Bool)
          → p x ≡ b
          → In a (if b then x ∷ retain p xs else retain p xs)
          → (In a (retain p xs) → In a xs × (p a ≡ true))
          → In a (x ∷ xs) × (p a ≡ true)
      split true e (here q) ih = (here q, ap p q ∙ e)
      split true e (there r) ih = (there (ih r).0, (ih r).1)
      split false e r ih = (there (ih r).0, (ih r).1)

  pub retain-In : (p : A → Bool) (xs : List A) (a : A) → In a xs → p a ≡ true → In a (retain p xs)
  retain-In p [] a m h = elim m [ ]
  retain-In p (x ∷ xs) a (here e) h = rw (ap p (sym e) ∙ h) (here e)
  retain-In p (x ∷ xs) a (there m) h = elim (Bool-cases (p x)) [
    | inl e ↦ rw e (there (retain-In p xs a m h))
    | inr e ↦ rw e (retain-In p xs a m h)
  ]

-- `flat_map` over a list, and its elements.
module _ {ℓ κ} {A : Type ℓ} {B : Type κ} where
  abbrev pub concat_map : (A → List B) → List A → List B
  concat_map f [] = []
  concat_map f (x ∷ xs) = f x ++ concat_map f xs

  pub In-concat_map :
      (f : A → List B) (xs : List A) (b : B)
      → In b (concat_map f xs)
      → (a : A) × In a xs × In b (f a)
  In-concat_map f [] b m = elim m [ ]
  In-concat_map f (x ∷ xs) b m = elim (In-append b (f x) (concat_map f xs) m) [
    | inl l ↦ (x, here refl, l)
    | inr r ↦ let (a, i, j) = In-concat_map f xs b r in (a, there i, j)
  ]

  pub concat_map-In :
      (f : A → List B) (xs : List A) (a : A) (b : B) → In a xs → In b (f a) → In b (concat_map f xs)
  concat_map-In f [] a b m n = elim m [ ]
  concat_map-In f (x ∷ xs) a b (here e) m =
      In-append_left b (f x) (concat_map f xs) (subst (λ y. In b (f y)) e m)
  concat_map-In f (x ∷ xs) a b (there i) m =
      In-append_right b (f x) (concat_map f xs) (concat_map-In f xs a b i m)

-- `contains` on a vector or a set, by the equality of its elements.
module _ {ℓ} {A : Type ℓ} ⦃e : Eq A⦄ where
  abbrev pub contains : List A → A → Bool
  contains xs a = any (λ x. a == x) xs

  pub contains-In : (xs : List A) (a : A) → contains xs a ≡ true → In a xs
  contains-In [] a h = cc
  contains-In (x ∷ xs) a h = elim (Bool-cases (a == x)) [
    | inl same ↦ here ((==_iff a x).0 same)
    | inr differ ↦ there (contains-In xs a (ground arith))
  ]

  pub In-contains : (xs : List A) (a : A) → In a xs → contains xs a ≡ true
  In-contains xs a m = In-any (λ x. a == x) xs a m (==_self a)
