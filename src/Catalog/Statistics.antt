-- ===== src/Catalog/Statistics.antt =====
-- catalog/manifest.rs, `column_statistics`: the statistics of the columns of a file, from those of
-- its row groups. A chunk of a row group is its path, its statistics where parquet has them and
-- they convert, and its sizes.
pub mod Enclosure
use parseable.Prelude.{
  ℕ, ◌+◌, ◌%◌, ◌^◌, ◌≡◌, refl, sym, ap, ◌∙◌, subst, false, Option, none, some, List, [], ◌∷◌,
  String, ◌==◌, string_eq, ==_iff, Bool-cases, Option-cases, ◌⊎◌, inl, inr, In, here, there,
  if◌then◌else◌, concat_map, ◌>>=◌,
}
use parseable.Dict.{Dict, get, insert, get-insert, get-empty}
use parseable.Order.{Ordered}
use parseable.Catalog.Column.{TypedStatistics, Column, Value, update, Encloses, kind, update_lem}

module _ (F : Type 0) where
  pub record Chunk : Type 0 where
    pub path : String
    pub statistics : Option (TypedStatistics F)
    pub compressed : ℕ
    pub uncompressed : ℕ

module _ {F : Type 0} ⦃f64 : Ordered F⦄ where
  -- `entry.stats.clone().map(|this| this.update(other))` where there is another; the outer none is
  -- the panic.
  unfoldable pub update_stats :
      Option (TypedStatistics F) → Option (TypedStatistics F) → Option (Option (TypedStatistics F))
  unfolding update
  update_stats this none = some this
  update_stats none (some other) = some none
  update_stats (some this) (some other) = do merged ← update this other; some (some merged)

  abbrev pub column_of : Chunk F → Column F
  column_of c = record {
    name = c.path;
    stats = c.statistics;
    uncompressed_size = c.uncompressed;
    compressed_size = c.compressed;
  }

  abbrev pub merged_column : Column F → Chunk F → Option (TypedStatistics F) → Column F
  merged_column entry c stats = record {
    name = entry.name;
    stats = stats;
    uncompressed_size = (entry.uncompressed_size + c.uncompressed) % 2 ^ 64;
    compressed_size = (entry.compressed_size + c.compressed) % 2 ^ 64;
  }

  abbrev pub enter :
      Dict String (Column F) → Chunk F → Option (Column F) → Option (Dict String (Column F))
  enter columns c none = some (insert columns c.path (column_of c))
  enter columns c (some entry) = do
    stats ← update_stats entry.stats c.statistics
    some (insert columns c.path (merged_column entry c stats))

  -- One round of the inner loop.
  unfoldable pub add_chunk : Dict String (Column F) → Chunk F → Option (Dict String (Column F))
  unfolding update_stats
  add_chunk columns c = enter columns c (get columns c.path)

  unfoldable pub add_chunks :
      Dict String (Column F) → List (Chunk F) → Option (Dict String (Column F))
  unfolding add_chunk
  add_chunks columns [] = some columns
  add_chunks columns (c ∷ cs) = do next ← add_chunk columns c; add_chunks next cs

  unfoldable pub column_statistics : List (List (Chunk F)) → Option (Dict String (Column F))
  unfolding add_chunks
  column_statistics row_groups = add_chunks [] (concat_map (λ g. g) row_groups)

  -- The statistics of each path have one type, that of its column in the file's schema.
  abbrev pub IsTyped : (String → ℕ) → Chunk F → Type 0
  IsTyped schema c = (t : TypedStatistics F) → c.statistics ≡ some t → kind t ≡ schema c.path
