-- ===== src/Query/Counts/Complete.antt =====
-- query/mod.rs, `get_bin_density`: no file of the range is left out of the counts.
use parseable.Prelude.{
  ◌^◌, string_eq, ℕ, ◌+◌, ◌≤◌, ◌<◌, ◌≡◌, refl, inl, inr, Bool, true, false, ◌&&◌, Option, none,
  some, List, [], ◌∷◌, ◌==◌, String, if◌then◌else◌, any, leb, arith, Bool-cases, concat_map, length,
  In-any, any-In,
}
use parseable.Order.{ℤ, pos, negsuc}
use parseable.Time.{TimeRange, minute_ns}
use parseable.Catalog.Column.{TypedStatistics, bool, int, float, string}
use parseable.Catalog.Manifest.{File, Manifest}
use parseable.Query.Counts.{
  TimeBounds, total_minutes, or_default_bins, min_in, millis, starts_in, counted, count_rows,
  bin_counts, get_bin_density,
}
use parseable.Query.Counts.Bins.{Chain, Chain-in_bin, get_bounds-Chain}

unfoldable pub sum_counts : List (TimeBounds × ℕ) → ℕ
sum_counts [] = 0
sum_counts ((bin, count) ∷ rest) = count + sum_counts rest

abbrev min_between : ℕ → ℕ → ℤ → Bool
min_between s e (pos n) = leb s (millis n) && leb (millis n) e
min_between s e (negsuc n) = false

-- A time in the range of the bins is in one of them.
min_in_some :
    (s e : ℕ) (b : TimeBounds) (l : List TimeBounds) (min : ℤ)
    → Chain s (b ∷ l) e
    → min_between s e min ≡ true
    → any (λ bin. min_in bin min) (b ∷ l) ≡ true
min_in_some s e b l (pos n) chain h =
    Chain-in_bin s e b l (millis n) chain (ground arith) (ground arith)
min_in_some s e b l (negsuc n) chain h = cc h

module _ {F : Type 0} where
  -- The first time of a column lies between two times.
  abbrev starts_between : ℕ → ℕ → Option (TypedStatistics F) → Bool
  starts_between s e (some (int b)) = min_between s e b.min
  starts_between s e _ = false

  -- The rows of the files whose first time in the column lies between two times.
  unfoldable pub rows_between : String → ℕ → ℕ → List (File F) → ℕ
  rows_between p s e [] = 0
  rows_between p s e (file ∷ files) =
      let rest = rows_between p s e files in
      if any (λ c. c.name == p && starts_between s e c.stats) file.columns
      then file.num_rows + rest
      else rest

  -- The rows of all files.
  unfoldable pub all_rows : List (File F) → ℕ
  all_rows [] = 0
  all_rows (file ∷ files) = file.num_rows + all_rows files

  count_rows-le-all_rows :
      (p : String) (bin : TimeBounds) (files : List (File F))
      → count_rows p bin files ≤ all_rows files
  unfolding all_rows count_rows
  count_rows-le-all_rows p bin [] = omega arith
  count_rows-le-all_rows p bin (file ∷ files) = ground (arith, count_rows-le-all_rows p bin files)

  -- The rows of the files that some bin counts.
  unfoldable rows_counted : String → List TimeBounds → List (File F) → ℕ
  unfolding counted
  rows_counted p l [] = 0
  rows_counted p l (file ∷ files) =
      let rest = rows_counted p l files in
      if any (λ bin. counted p bin file) l then file.num_rows + rest else rest

  rows_counted_none : (p : String) (files : List (File F)) → rows_counted p [] files ≡ 0
  unfolding rows_counted
  rows_counted_none p [] = refl
  rows_counted_none p (file ∷ files) = rows_counted_none p files

  rows_counted-le_split :
      (p : String) (bin : TimeBounds) (l : List TimeBounds) (files : List (File F))
      → all_rows files < 2 ^ 64
      → rows_counted p (bin ∷ l) files ≤ count_rows p bin files + rows_counted p l files
  unfolding rows_counted count_rows all_rows
  rows_counted-le_split p bin l [] fits = omega arith
  rows_counted-le_split p bin l (file ∷ files) fits = ground (
    arith,
    fits,
    count_rows-le-all_rows p bin files,
    rows_counted-le_split p bin l files (omega (arith, fits)),
  )

  rows_counted-le-sum_counts :
      (p : String) (files : List (File F)) (l : List TimeBounds)
      → all_rows files < 2 ^ 64
      → rows_counted p l files ≤ sum_counts (bin_counts p files l)
  unfolding sum_counts bin_counts
  rows_counted-le-sum_counts p files [] fits = omega (arith, rows_counted_none p files)
  rows_counted-le-sum_counts p files (bin ∷ l) fits =
      omega
        (arith, rows_counted-le_split p bin l files fits, rows_counted-le-sum_counts p files l fits)

  -- A column that starts in the range of the bins starts in one of them.
  starts_in_some :
      (s e : ℕ) (b : TimeBounds) (l : List TimeBounds) (stats : Option (TypedStatistics F))
      → Chain s (b ∷ l) e
      → starts_between s e stats ≡ true
      → any (λ bin. starts_in bin stats) (b ∷ l) ≡ true
  starts_in_some s e b l none chain h = cc h
  starts_in_some s e b l (some (bool x)) chain h = cc h
  starts_in_some s e b l (some (float x)) chain h = cc h
  starts_in_some s e b l (some (string x)) chain h = cc h
  starts_in_some s e b l (some (int x)) chain h = min_in_some s e b l x.min chain h

  counted_some :
      (p : String) (s e : ℕ) (b : TimeBounds) (l : List TimeBounds) (file : File F)
      → Chain s (b ∷ l) e
      → any (λ c. c.name == p && starts_between s e c.stats) file.columns ≡ true
      → any (λ bin. counted p bin file) (b ∷ l) ≡ true
  unfolding counted
  counted_some p s e b l file chain h =
      let (c, at, q) = any-In (λ c. c.name == p && starts_between s e c.stats) file.columns h in
      let (bin, in_l, r) =
        any-In (λ bin. starts_in bin c.stats) (b ∷ l)
          (starts_in_some s e b l c.stats chain (ground arith)) in
      In-any (λ bin. counted p bin file) (b ∷ l) bin in_l
        (In-any (λ c. c.name == p && starts_in bin c.stats) file.columns c at (ground arith))

  rows_between-le-rows_counted :
      (p : String) (s e : ℕ) (b : TimeBounds) (l : List TimeBounds) (files : List (File F))
      → Chain s (b ∷ l) e
      → rows_between p s e files ≤ rows_counted p (b ∷ l) files
  unfolding rows_between rows_counted
  rows_between-le-rows_counted p s e b l [] chain = omega arith
  rows_between-le-rows_counted p s e b l (file ∷ files) chain =
      elim (Bool-cases (any (λ c. c.name == p && starts_between s e c.stats) file.columns)) [
        | inl here_ ↦ ground (
          arith,
          rows_between-le-rows_counted p s e b l files chain,
          counted_some p s e b l file chain here_,
        )
        | inr not_here ↦ ground (arith, rows_between-le-rows_counted p s e b l files chain)
      ]

  all_counted :
      (p : String) (s e : ℕ) (l : List TimeBounds) (files : List (File F))
      → all_rows files < 2 ^ 64
      → 0 < length l
      → Chain s l e
      → rows_between p s e files ≤ sum_counts (bin_counts p files l)
  all_counted p s e [] files fits some_bin chain = absurd (omega (arith, some_bin))
  all_counted p s e (b ∷ l) files fits some_bin chain = omega (
    arith,
    rows_between-le-rows_counted p s e b l files chain,
    rows_counted-le-sum_counts p files (b ∷ l) fits,
  )

  -- For a range in order, and unless the number of bins is zero or the files have 2 ^ 64 rows or
  -- more together, where a count wraps around, the counts of the bins together are at least the
  -- rows of all files of the manifests whose first time lies between the start of the range and its
  -- last whole minute.
  pub get_bin_density_complete :
      (p : String) (num_bins : Option ℕ) (r : TimeRange) (manifests : List (Manifest F))
      → 0 < or_default_bins num_bins (total_minutes r)
      → r.start ≤ r.end
      → all_rows (concat_map (λ m. m.files) manifests) < 2 ^ 64
      → (counts : List (TimeBounds × ℕ)) × (e : ℕ) × (get_bin_density p num_bins r manifests
          ≡ some counts)
        × (r.end < e + minute_ns)
        × (rows_between p r.start e (concat_map (λ m. m.files) manifests) ≤ sum_counts counts)
  unfolding get_bin_density
  get_bin_density_complete p num_bins r manifests positive in_order fits =
      let (l, e, made, chain, before, after, size) =
        get_bounds-Chain num_bins r positive in_order in
      (
        bin_counts p (concat_map (λ m. m.files) manifests) l,
        e,
        rw (made, get_bin_density) refl,
        after,
        all_counted p r.start e l (concat_map (λ m. m.files) manifests) fits (ground arith) chain,
      )
