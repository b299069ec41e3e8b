-- ===== src/Query/Counts/Bins.antt =====
-- query/mod.rs, `get_bounds` and `get_bin_density`: what the bins cover, and that every file is
-- counted.
use parseable.Prelude.{
  string_eq, ℕ, zero, suc, ◌+◌, ◌*◌, ◌/◌, ◌%◌, ◌≤◌, ◌<◌, ◌≡◌, refl, ap, subst, ◌∙◌, inl, inr, true,
  Option, some, List, [], ◌∷◌, if◌then◌else◌, any, leb, ltb, arith, length, Bool-cases,
}
use native.Mathlib.Nat.{div-add-mod}
use parseable.Time.{TimeRange, minute_ns}
use parseable.Query.Counts.{
  TimeBounds, total_minutes, bins, bounds_of, get_bounds, or_default_bins, in_bin,
}

-- Bins side by side, from one time to another.
pub data Chain : ℕ → List TimeBounds → ℕ → Type 0 where
  empty : (t : ℕ) → Chain t [] t
  next :
      (t u v : ℕ) (rest : List TimeBounds)
      → t ≤ u
      → Chain u rest v
      → Chain t (record { start = t; end = u } ∷ rest) v

bins-Chain :
    (rounds start quotient last : ℕ)
    → Chain start
        (bins rounds start quotient last)
        (start + rounds * (quotient * minute_ns) + last * minute_ns)
unfolding bins
bins-Chain zero start quotient last =
    subst (Chain start (record { start = start; end = start + last * minute_ns } ∷ []))
      (omega arith) (next start (start + last * minute_ns) _ [] (omega arith) (empty _))
bins-Chain (suc rounds) start quotient last =
    subst
      (Chain start (
        record { start = start; end = start + quotient * minute_ns }
        ∷ bins rounds (start + quotient * minute_ns) quotient last))
      (omega arith)
      (next start (start + quotient * minute_ns) _ _ (omega arith)
        (bins-Chain rounds (start + quotient * minute_ns) quotient last))

length-bins :
    (rounds start quotient last : ℕ) → length (bins rounds start quotient last) ≡ rounds + 1
unfolding bins
length-bins zero start quotient last = refl
length-bins (suc rounds) start quotient last =
    omega (arith, length-bins rounds (start + quotient * minute_ns) quotient last)

-- Quotient bins and a bin for the rest make up all minutes.
parts_lem :
    (minutes n : ℕ)
    → suc n * (minutes / suc n * minute_ns) + minutes % suc n * minute_ns ≡ minutes * minute_ns
parts_lem minutes n = grind (arith, div-add-mod minutes (suc n))

-- For a number of bins that is not zero, the bins go on from one another from the start to the last
-- whole minute.
bounds_of-Chain :
    (start minutes n : ℕ)
    → (l : List TimeBounds) × (bounds_of start minutes (suc n) ≡ some l)
      × Chain start l (start + minutes * minute_ns)
      × (length l ≡ (if ltb 0 (minutes % suc n) then suc n + 1 else suc n))
unfolding bounds_of
bounds_of-Chain start minutes n = elim (Bool-cases (ltb 0 (minutes % suc n))) [
  | inl rest ↦ (
    bins (suc n) start (minutes / suc n) (minutes % suc n),
    rw rest refl,
    subst (Chain start (bins (suc n) start (minutes / suc n) (minutes % suc n)))
        (ground (arith, parts_lem minutes n))
        (bins-Chain (suc n) start (minutes / suc n) (minutes % suc n)),
    rw rest (length-bins (suc n) start (minutes / suc n) (minutes % suc n)),
  )
  | inr even ↦ (
    bins n start (minutes / suc n) (minutes / suc n),
    rw even refl,
    subst (Chain start (bins n start (minutes / suc n) (minutes / suc n)))
        (ground (arith, parts_lem minutes n))
        (bins-Chain n start (minutes / suc n) (minutes / suc n)),
    rw even (ground (arith, length-bins n start (minutes / suc n) (minutes / suc n))),
  )
]

total_minutes_lem :
    (r : TimeRange)
    → r.start ≤ r.end
    → (r.start + total_minutes r * minute_ns ≤ r.end)
      × (r.end < r.start + total_minutes r * minute_ns + minute_ns)
unfolding total_minutes
total_minutes_lem r in_order = ground arith

-- Unless the number of bins is zero, `get_bounds` makes bins that go on from one another, from the
-- start of the range to its last whole minute. There is one bin more than asked for where the
-- minutes do not divide.
pub get_bounds-Chain :
    (num_bins : Option ℕ) (r : TimeRange)
    → 0 < or_default_bins num_bins (total_minutes r)
    → r.start ≤ r.end
    → (l : List TimeBounds) × (e : ℕ) × (get_bounds num_bins r ≡ some l)
      × Chain r.start l e
      × (e ≤ r.end)
      × (r.end < e + minute_ns)
      × (length l ≡ (
          if ltb 0 (total_minutes r % or_default_bins num_bins (total_minutes r))
          then or_default_bins num_bins (total_minutes r) + 1
          else or_default_bins num_bins (total_minutes r)))
unfolding get_bounds
get_bounds-Chain num_bins r positive in_order =
    go (or_default_bins num_bins (total_minutes r)) refl positive
  where
    ends :
        (r.start + total_minutes r * minute_ns ≤ r.end)
        × (r.end < r.start + total_minutes r * minute_ns + minute_ns)
    ends = total_minutes_lem r in_order

    go :
        (n : ℕ)
        → or_default_bins num_bins (total_minutes r) ≡ n
        → 0 < n
        → (l : List TimeBounds) × (e : ℕ) × (get_bounds num_bins r ≡ some l)
          × Chain r.start l e
          × (e ≤ r.end)
          × (r.end < e + minute_ns)
          × (length l ≡ (
              if ltb 0 (total_minutes r % or_default_bins num_bins (total_minutes r))
              then or_default_bins num_bins (total_minutes r) + 1
              else or_default_bins num_bins (total_minutes r)))
    go zero q p = absurd (omega (arith, p))
    go (suc n) q p =
        let (l, e, chain, size) = bounds_of-Chain r.start (total_minutes r) n in
        (
          l,
          r.start + total_minutes r * minute_ns,
          ap (bounds_of r.start (total_minutes r)) q ∙ e,
          chain,
          ends.0,
          ends.1,
          rw q size,
        )

-- A time is in a bin exactly if it is between the ends.
pub Chain-in_bin :
    (s e : ℕ) (b : TimeBounds) (l : List TimeBounds) (m : ℕ)
    → Chain s (b ∷ l) e
    → s ≤ m
    → m ≤ e
    → any (λ bin. in_bin bin m) (b ∷ l) ≡ true
Chain-in_bin s e b [] m (next t u v rest le (empty w)) from to = ground arith
Chain-in_bin s e b (c ∷ l) m (next t u v rest le more) from to = elim (Bool-cases (leb m u)) [
  | inl inside ↦ ground arith
  | inr after ↦ ground (arith, Chain-in_bin u e c l m more (ground arith) to)
]
