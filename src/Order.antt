-- ===== src/Order.antt =====
-- The comparisons and `min`, `max` of Rust's `PartialOrd` and `Ord` that the statistics use, for
-- `bool`, `i64` and `String`. An `i64` is a signed number.
use Prim.Native.Char.{code}
use Prim.Native.String.{[] as nil, ◌∷◌ as ◌∷ˢ◌}
use parseable.Prelude.{
  ℕ, ◌≡◌, refl, Bool, true, false, not, ◌||◌, String, leb, ltb, eqb, if◌then◌else◌, arith,
  Bool-cases, inl, inr, sym, ap, ◌∙◌, false≢true,
}

-- A partial order: the laws do not ask that two values compare, so a NaN may be among them. Of a
-- NaN and a value, `smaller` and `larger` may return the value.
pub record Ordered {ℓ} (T : Type ℓ) : Type ℓ where
  pub le : T → T → Bool
  pub lt : T → T → Bool
  pub smaller : T → T → T
  pub larger : T → T → T
  pub le_trans : (x y z : T) → le x y ≡ true → le y z ≡ true → le x z ≡ true
  pub le-lt_trans : (x y z : T) → le x y ≡ true → lt y z ≡ true → lt x z ≡ true
  pub lt-le_trans : (x y z : T) → lt x y ≡ true → le y z ≡ true → lt x z ≡ true
  pub smaller_left : (x y z : T) → le x z ≡ true → le (smaller x y) z ≡ true
  pub smaller_right : (x y z : T) → le y z ≡ true → le (smaller x y) z ≡ true
  pub larger_left : (x y z : T) → le z x ≡ true → le z (larger x y) ≡ true
  pub larger_right : (x y z : T) → le z y ≡ true → le z (larger x y) ≡ true

-- What makes a total order an `Ordered` one.
pub record TotalOrder {ℓ} (T : Type ℓ) : Type ℓ where
  pub below : T → T → Bool
  pub total : (x y : T) → below x y ≡ false → below y x ≡ true
  pub trans : (x y z : T) → below x y ≡ true → below y z ≡ true → below x z ≡ true

module _ {ℓ} {T : Type ℓ} (o : TotalOrder T) where
  abbrev least : T → T → T
  least x y = if o.below x y then x else y

  abbrev most : T → T → T
  most x y = if o.below x y then y else x

  pub below-least_left : (x y z : T) → o.below x z ≡ true → o.below (least x y) z ≡ true
  below-least_left x y z h = elim (Bool-cases (o.below x y)) [
    | inl e ↦ rw e h
    | inr e ↦ rw e (o.trans y x z (o.total x y e) h)
  ]

  pub below-least_right : (x y z : T) → o.below y z ≡ true → o.below (least x y) z ≡ true
  below-least_right x y z h = elim (Bool-cases (o.below x y)) [
    | inl e ↦ rw e (o.trans x y z e h)
    | inr e ↦ rw e h
  ]

  pub below-most_left : (x y z : T) → o.below z x ≡ true → o.below z (most x y) ≡ true
  below-most_left x y z h = elim (Bool-cases (o.below x y)) [
    | inl e ↦ rw e (o.trans z x y h e)
    | inr e ↦ rw e h
  ]

  pub below-most_right : (x y z : T) → o.below z y ≡ true → o.below z (most x y) ≡ true
  below-most_right x y z h = elim (Bool-cases (o.below x y)) [
    | inl e ↦ rw e h
    | inr e ↦ rw e (o.trans z y x h (o.total x y e))
  ]

  pub above_trans :
      (x y z : T) → o.below x y ≡ true → not (o.below z y) ≡ true → not (o.below z x) ≡ true
  above_trans x y z h k = elim (Bool-cases (o.below z x)) [
    | inl e ↦ absurd (false≢true (ap not (sym (o.trans z x y e h)) ∙ k))
    | inr e ↦ rw e refl
  ]

  pub trans_above :
      (x y z : T) → not (o.below y x) ≡ true → o.below y z ≡ true → not (o.below z x) ≡ true
  trans_above x y z k h = elim (Bool-cases (o.below z x)) [
    | inl e ↦ absurd (false≢true (ap not (sym (o.trans y z x h e)) ∙ k))
    | inr e ↦ rw e refl
  ]

  abbrev pub ordered_of : Ordered T
  ordered_of = record {
    le = o.below;
    lt = λ x y. not (o.below y x);
    smaller = least;
    larger = most;
    le_trans = o.trans;
    le-lt_trans = above_trans;
    lt-le_trans = trans_above;
    smaller_left = below-least_left;
    smaller_right = below-least_right;
    larger_left = below-most_left;
    larger_right = below-most_right;
  }

abbrev bool_below : Bool → Bool → Bool
bool_below x y = not x || y

pub bool_total : (x y : Bool) → bool_below x y ≡ false → bool_below y x ≡ true
bool_total x y h = ground arith

pub bool_trans :
    (x y z : Bool) → bool_below x y ≡ true → bool_below y z ≡ true → bool_below x z ≡ true
bool_trans x y z h k = ground arith

abbrev bool_order : TotalOrder Bool
bool_order = record { below = bool_below; total = bool_total; trans = bool_trans }

instance abbrev pub ordered_bool : Ordered Bool
ordered_bool = ordered_of bool_order

-- The signed numbers of `i64`: `negsuc n` is - (n + 1).
pub data ℤ : Type 0 where
  pos negsuc : ℕ → ℤ

abbrev int_below : ℤ → ℤ → Bool
int_below (pos a) (pos b) = leb a b
int_below (pos a) (negsuc b) = false
int_below (negsuc a) (pos b) = true
int_below (negsuc a) (negsuc b) = leb b a

pub int_total : (x y : ℤ) → int_below x y ≡ false → int_below y x ≡ true
int_total (pos a) (pos b) h = ground arith
int_total (pos a) (negsuc b) h = refl
int_total (negsuc a) (pos b) h = absurd (false≢true (sym h))
int_total (negsuc a) (negsuc b) h = ground arith

pub int_trans : (x y z : ℤ) → int_below x y ≡ true → int_below y z ≡ true → int_below x z ≡ true
int_trans (pos a) (pos b) (pos c) h k = ground arith
int_trans (pos a) (pos b) (negsuc c) h k = k
int_trans (pos a) (negsuc b) z h k = absurd (false≢true h)
int_trans (negsuc a) y (pos c) h k = refl
int_trans (negsuc a) (pos b) (negsuc c) h k = absurd (false≢true k)
int_trans (negsuc a) (negsuc b) (negsuc c) h k = ground arith

abbrev int_order : TotalOrder ℤ
int_order = record { below = int_below; total = int_total; trans = int_trans }

instance abbrev pub ordered_int : Ordered ℤ
ordered_int = ordered_of int_order

-- The lexicographic order of the characters, which is that of the bytes of UTF-8.
unfoldable pub text_below : String → String → Bool
text_below nil t = true
text_below (c ∷ˢ s) nil = false
text_below (c ∷ˢ s) (d ∷ˢ t) =
    let rest = text_below s t in
    if ltb (code c) (code d) then true else if eqb (code c) (code d) then rest else false

pub text_total : (s t : String) → text_below s t ≡ false → text_below t s ≡ true
unfolding text_below
text_total nil t h = absurd (false≢true (sym h))
text_total (c ∷ˢ s) nil h = refl
text_total (c ∷ˢ s) (d ∷ˢ t) h = ground (arith, text_total s t)

pub text_trans :
    (s t u : String) → text_below s t ≡ true → text_below t u ≡ true → text_below s u ≡ true
unfolding text_below
text_trans nil t u h k = refl
text_trans (c ∷ˢ s) nil u h k = absurd (false≢true h)
text_trans (c ∷ˢ s) (d ∷ˢ t) nil h k = absurd (false≢true k)
text_trans (c ∷ˢ s) (d ∷ˢ t) (e ∷ˢ u) h k = ground (arith, text_trans s t u)

abbrev text_order : TotalOrder String
text_order = record { below = text_below; total = text_total; trans = text_trans }

instance abbrev pub ordered_text : Ordered String
ordered_text = ordered_of text_order
