-- ===== src/Decimal.antt =====
-- Rust's `FromStr` and `Display` for unsigned numbers, on the characters of a text.
use parseable.Prelude.{
  ℕ, zero, suc, ◌+◌, ◌-◌, ◌*◌, ◌/◌, ◌%◌, ◌≤◌, ◌<◌, ◌≡◌, refl, ap, ◌∙◌, inl, inr, Bool, true, false,
  ◌&&◌, Option, none, some, List, [], ◌∷◌, if◌then◌else◌, eqb, leb, ltb, arith, Bool-cases,
}

abbrev pub is_digit : ℕ → Bool
is_digit c = leb 48 c && leb c 57

-- The digits after those that make `acc`; none where there is another character, or where the
-- number is above the limit.
unfoldable pub parse_from : ℕ → ℕ → List ℕ → Option ℕ
parse_from limit acc [] = some acc
parse_from limit acc (c ∷ cs) =
    let rest = parse_from limit (acc * 10 + (c - 48)) cs in
    if is_digit c && leb (acc * 10 + (c - 48)) limit then rest else none

abbrev strip_plus : List ℕ → List ℕ
strip_plus [] = []
strip_plus (c ∷ cs) = if eqb c 43 then cs else c ∷ cs

abbrev pub nonempty_from : ℕ → List ℕ → Option ℕ
nonempty_from limit [] = none
nonempty_from limit (c ∷ cs) = parse_from limit 0 (c ∷ cs)

-- `parse` to an unsigned type whose greatest number is the limit.
unfoldable pub parse_unsigned : ℕ → List ℕ → Option ℕ
unfolding parse_from
parse_unsigned limit cs = nonempty_from limit (strip_plus cs)

-- The digits of a number in front of a text. The fuel is enough if the number is below it.
unfoldable pub digits : ℕ → ℕ → List ℕ → List ℕ
digits zero n rest = rest
digits (suc fuel) n rest = elim (ltb n 10) [
  | true ↦ (n % 10 + 48) ∷ rest
  | false ↦ digits fuel (n / 10) ((n % 10 + 48) ∷ rest)
]

-- `to_string`
unfoldable pub print : ℕ → List ℕ
unfolding digits
print n = digits (suc n) n []

-- Reading a digit of a number after those above it.
parse_from_last :
    (limit n : ℕ) (rest : List ℕ)
    → n ≤ limit
    → parse_from limit (n / 10) ((n % 10 + 48) ∷ rest) ≡ parse_from limit n rest
unfolding parse_from
parse_from_last limit n rest fits =
    let value : n / 10 * 10 + (n % 10 + 48 - 48) ≡ n = omega arith in
    let good : is_digit (n % 10 + 48) && leb (n / 10 * 10 + (n % 10 + 48 - 48)) limit ≡ true =
      ground arith in
    ap (λ b. if b then parse_from limit (n / 10 * 10 + (n % 10 + 48 - 48)) rest else none) good
    ∙ ap (λ m. parse_from limit m rest) value

digits_small :
    (fuel n : ℕ) (rest : List ℕ) → ltb n 10 ≡ true → digits (suc fuel) n rest ≡ (n % 10 + 48) ∷ rest
unfolding digits
digits_small fuel n rest h = rw (h, digits) refl

digits_big :
    (fuel n : ℕ) (rest : List ℕ)
    → ltb n 10 ≡ false
    → digits (suc fuel) n rest ≡ digits fuel (n / 10) ((n % 10 + 48) ∷ rest)
unfolding digits
digits_big fuel n rest h = rw (h, digits) refl

parse_from-digits :
    (limit fuel n : ℕ) (rest : List ℕ)
    → n < fuel
    → n ≤ limit
    → parse_from limit 0 (digits fuel n rest) ≡ parse_from limit n rest
parse_from-digits limit zero n rest enough fits = absurd (omega (arith, enough))
parse_from-digits limit (suc fuel) n rest enough fits = elim (Bool-cases (ltb n 10)) [
  | inl small ↦
      let top : 0 ≡ n / 10 = ground arith in
      ap (parse_from limit 0) (digits_small fuel n rest small)
      ∙ ap (λ a. parse_from limit a ((n % 10 + 48) ∷ rest)) top
      ∙ parse_from_last limit n rest fits
  | inr big ↦
      ap (parse_from limit 0) (digits_big fuel n rest big)
      ∙ parse_from-digits limit fuel (n / 10) ((n % 10 + 48) ∷ rest) (ground arith) (ground arith)
      ∙ parse_from_last limit n rest fits
]

-- A printed number begins with a digit.
abbrev begins_with_digit : List ℕ → Bool
begins_with_digit [] = false
begins_with_digit (c ∷ cs) = is_digit c

begins-digits :
    (fuel n : ℕ) (rest : List ℕ) → n < fuel → begins_with_digit (digits fuel n rest) ≡ true
begins-digits zero n rest enough = absurd (omega (arith, enough))
begins-digits (suc fuel) n rest enough = elim (Bool-cases (ltb n 10)) [
  | inl small ↦ ap begins_with_digit (digits_small fuel n rest small) ∙ ground arith
  | inr big ↦
      ap begins_with_digit (digits_big fuel n rest big)
      ∙ begins-digits fuel (n / 10) ((n % 10 + 48) ∷ rest) (ground arith)
]

parse_unsigned_begins :
    (limit : ℕ) (cs : List ℕ)
    → begins_with_digit cs ≡ true
    → parse_unsigned limit cs ≡ parse_from limit 0 cs
unfolding parse_unsigned
parse_unsigned_begins limit [] h = cc h
parse_unsigned_begins limit (c ∷ cs) h =
    let other : eqb c 43 ≡ false = ground arith in rw other refl

-- A number within the limit is read back from what is printed of it.
pub parse_unsigned-print : (limit n : ℕ) → n ≤ limit → parse_unsigned limit (print n) ≡ some n
unfolding print parse_from
parse_unsigned-print limit n fits =
    parse_unsigned_begins limit (digits (suc n) n []) (begins-digits (suc n) n [] (omega arith))
    ∙ parse_from-digits limit (suc n) n [] (omega arith) fits

-- What is read is within the limit.
parse_from-le-limit :
    (limit acc : ℕ) (cs : List ℕ) (n : ℕ)
    → acc ≤ limit
    → parse_from limit acc cs ≡ some n
    → n ≤ limit
unfolding parse_from
parse_from-le-limit limit acc [] n fits h = ground arith
parse_from-le-limit limit acc (c ∷ cs) n fits h =
    elim (Bool-cases (is_digit c && leb (acc * 10 + (c - 48)) limit)) [
      | inl good ↦
          parse_from-le-limit limit (acc * 10 + (c - 48)) cs n (ground arith) (ground (arith, h))
      | inr bad ↦ cc (h, bad)
    ]

nonempty_from-le-limit :
    (limit : ℕ) (cs : List ℕ) (n : ℕ) → nonempty_from limit cs ≡ some n → n ≤ limit
nonempty_from-le-limit limit [] n h = cc h
nonempty_from-le-limit limit (c ∷ cs) n h = parse_from-le-limit limit 0 (c ∷ cs) n (omega arith) h

pub parse_unsigned-le-limit :
    (limit : ℕ) (cs : List ℕ) (n : ℕ) → parse_unsigned limit cs ≡ some n → n ≤ limit
unfolding parse_unsigned
parse_unsigned-le-limit limit cs n h = nonempty_from-le-limit limit (strip_plus cs) n h
