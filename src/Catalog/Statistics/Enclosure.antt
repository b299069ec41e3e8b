-- ===== src/Catalog/Statistics/Enclosure.antt =====
-- catalog/manifest.rs, `column_statistics`: what the statistics of a file enclose.
use parseable.Prelude.{
  ℕ, ◌≡◌, refl, sym, ap, ◌∙◌, subst, false, Option, none, some, List, [], ◌∷◌, String, ◌==◌,
  string_eq, ==_iff, Bool-cases, Option-cases, ◌⊎◌, inl, inr, In, here, there, if◌then◌else◌,
  concat_map,
}
use parseable.Dict.{Dict, get, insert, get-insert, get-empty}
use parseable.Order.{Ordered}
use parseable.Catalog.Column.{TypedStatistics, Column, Value, Encloses, kind, update_lem}
use parseable.Catalog.Statistics.{
  Chunk, update_stats, column_of, merged_column, add_chunk, add_chunks, column_statistics, IsTyped,
}

module _ {F : Type 0} ⦃f64 : Ordered F⦄ where
  -- The columns hold the chunks seen: each has an entry, whose statistics, if it has any, are of the
  -- column's type and enclose what those of the chunk enclose.
  record Holds (schema : String → ℕ) (seen : Chunk F → Type 0) (columns : Dict String (Column F))
      : Type 0 where
    typed :
        (path : String) (entry : Column F) (t : TypedStatistics F)
        → get columns path ≡ some entry
        → entry.stats ≡ some t
        → kind t ≡ schema path
    encloses :
        (c : Chunk F)
        → seen c
        → (entry : Column F) × (get columns c.path ≡ some entry)
          × ((s t : TypedStatistics F) (x : Value F)
              → entry.stats ≡ some s
              → c.statistics ≡ some t
              → Encloses t x
              → Encloses s x)

  -- Statistics of a type that enclose what either operand of `update_stats` encloses, if any.
  abbrev Merges :
      Option (TypedStatistics F)
      → Option (TypedStatistics F)
      → Option (TypedStatistics F)
      → ℕ
      → Type 0
  Merges this other r k =
      (s : TypedStatistics F)
      → r ≡ some s
      → (kind s ≡ k)
        × ((u : TypedStatistics F) × (this ≡ some u)
            × ((x : Value F) → Encloses u x → Encloses s x))
        × ((t : TypedStatistics F) (x : Value F) → other ≡ some t → Encloses t x → Encloses s x)

  update_stats_lem :
      (this other : Option (TypedStatistics F)) (k : ℕ)
      → ((t : TypedStatistics F) → this ≡ some t → kind t ≡ k)
      → ((t : TypedStatistics F) → other ≡ some t → kind t ≡ k)
      → (r : Option (TypedStatistics F)) × (update_stats this other ≡ some r)
        × Merges this other r k
  unfolding update_stats
  update_stats_lem none none k h g = (none, refl, λ s e. absurd cc)
  update_stats_lem (some this) none k h g =
      (some this, refl, λ s e. (h s e, (s, e, λ x enc. enc), λ t x f enc. absurd cc))
  update_stats_lem none (some other) k h g = (none, refl, λ s e. absurd cc)
  update_stats_lem (some this) (some other) k h g =
      let (m, e, same, enc) = (update_lem this other).1 (h this refl ∙ sym (g other refl)) in
      (
        some m,
        rw e refl,
        λ s is_m.
            let eq : m ≡ s = cc in
            (
              subst (λ u. kind u ≡ k) eq (same ∙ h this refl),
              (this, refl, λ x in_this. subst (λ u. Encloses u x) eq (enc x (inl in_this))),
              λ t x f in_t.
                  let eq_t : t ≡ other = cc in
                  subst (λ u. Encloses u x) eq (enc x (inr (subst (λ u. Encloses u x) eq_t in_t))),
            ),
      )

  -- What the statistics of one column enclose, if it has any, the chunk's do not exceed.
  abbrev Covers : Option (TypedStatistics F) → Chunk F → Type 0
  Covers stats c =
      (s t : TypedStatistics F) (x : Value F)
      → stats ≡ some s
      → c.statistics ≡ some t
      → Encloses t x
      → Encloses s x

  module _ (schema : String → ℕ) (seen : Chunk F → Type 0) (columns : Dict String (Column F))
      (c : Chunk F) (holds : Holds schema seen columns) where
    abbrev SeenNext : Chunk F → Type 0
    SeenNext d = seen d ⊎ (d ≡ c)

    get-insert_same :
        (col : Column F) (path : String)
        → c.path ≡ path
        → get (insert columns c.path col) path ≡ some col
    get-insert_same col path eq =
        get-insert columns c.path path col
        ∙ ap (λ b. if b then some col else get columns path) ((==_iff c.path path).1 eq)

    get-insert_other :
        (col : Column F) (path : String)
        → (c.path == path) ≡ false
        → get (insert columns c.path col) path ≡ get columns path
    get-insert_other col path ne =
        get-insert columns c.path path col ∙ ap (λ b. if b then some col else get columns path) ne

    Holds-insert :
        (col : Column F)
        → ((t : TypedStatistics F) → col.stats ≡ some t → kind t ≡ schema c.path)
        → ((d : Chunk F) → seen d → c.path ≡ d.path → Covers col.stats d)
        → Covers col.stats c
        → Holds schema SeenNext (insert columns c.path col)
    Holds-insert col typed old new = record {
      typed = λ path entry t e has. elim (Bool-cases (c.path == path)) [
        | inl same ↦
            let eq : c.path ≡ path = (==_iff c.path path).0 same in
            let found = get-insert_same col path eq in
            let eq_col : entry ≡ col = cc in
            typed t (subst (λ y. y.stats ≡ some t) eq_col has) ∙ ap schema eq
        | inr differ ↦ holds.typed path entry t (sym (get-insert_other col path differ) ∙ e) has
      ];
      encloses = λ d m. elim m [
        | inl before ↦ elim (Bool-cases (c.path == d.path)) [
          | inl same ↦
              let eq : c.path ≡ d.path = (==_iff c.path d.path).0 same in
              (col, get-insert_same col d.path eq, old d before eq)
          | inr differ ↦
              let (entry, e, enc) = holds.encloses d before in
              (entry, get-insert_other col d.path differ ∙ e, enc)
        ]
        | inr now ↦ (
          col,
          get-insert_same col d.path (ap (λ y. y.path) (sym now)),
          subst (Covers col.stats) (sym now) new,
        )
      ];
    }

    add_chunk_lem :
        IsTyped schema c
        → (next : Dict String (Column F)) × (add_chunk columns c ≡ some next)
          × Holds schema SeenNext next
    unfolding add_chunk
    add_chunk_lem typed = elim (Option-cases (get columns c.path)) [
      | inl absent ↦ (
        insert columns c.path (column_of c),
        rw absent refl,
        Holds-insert (column_of c) typed
            (λ d before eq.
              let (entry, e, _) = holds.encloses d before in
              let e_c : get columns c.path ≡ some entry = ap (get columns) eq ∙ e in absurd cc)
            (λ s t x f g enc. let eq : t ≡ s = cc in subst (λ u. Encloses u x) eq enc),
      )
      | inr (entry, present) ↦
          let (stats, e, merges) =
            update_stats_lem entry.stats c.statistics (schema c.path)
              (λ t has. holds.typed c.path entry t present has) typed in
          (
            insert columns c.path (merged_column entry c stats),
            rw (present, e) refl,
            Holds-insert (merged_column entry c stats) (λ t has. (merges t has).0)
                (λ d before eq.
                  let (seen_entry, seen_e, enc) = holds.encloses d before in
                  let e_d : get columns c.path ≡ some seen_entry = ap (get columns) eq ∙ seen_e in
                  let same : seen_entry ≡ entry = cc in
                  λ s t x f g in_t.
                    let (u, has, up) = (merges s f).1 in
                    up x (enc u t x (subst (λ y. y.stats ≡ some u) (sym same) has) g in_t))
                (λ s t x f g in_t. (merges s f).2 t x g in_t),
          )
    ]

  Holds-map :
      (schema : String → ℕ) (seen known : Chunk F → Type 0) (columns : Dict String (Column F))
      → ((c : Chunk F) → known c → seen c)
      → Holds schema seen columns
      → Holds schema known columns
  Holds-map schema seen known columns f h = record {
    typed = h.typed;
    encloses = λ c k. h.encloses c (f c k);
  }

  add_chunks_lem :
      (schema : String → ℕ) (cs : List (Chunk F)) (seen : Chunk F → Type 0)
      (columns : Dict String (Column F))
      → Holds schema seen columns
      → ((c : Chunk F) → In c cs → IsTyped schema c)
      → (all : Dict String (Column F)) × (add_chunks columns cs ≡ some all)
        × Holds schema (λ c. seen c ⊎ In c cs) all
  unfolding add_chunks
  add_chunks_lem schema [] seen columns h typed = (
    columns,
    refl,
    Holds-map schema seen _ columns (λ c m. elim m [ inl s ↦ s | inr i ↦ elim i [ ] ]) h,
  )
  add_chunks_lem schema (c ∷ cs) seen columns h typed =
      let (next, e, h1) = add_chunk_lem schema seen columns c h (typed c (here refl)) in
      let (all, f, h2) =
        add_chunks_lem schema cs (SeenNext schema seen columns c h) next h1
          (λ d i. typed d (there i)) in
      (
        all,
        rw e f,
        Holds-map schema _ _ all
            (λ d m. elim m [
              | inl s ↦ inl (inl s)
              | inr (here eq) ↦ inl (inr eq)
              | inr (there i) ↦ inr i
            ])
            h2,
      )

  -- Where the statistics of each column have one type, `column_statistics` does not panic; every
  -- chunk has its column in the result, and if that has statistics, they enclose every value that
  -- the chunk's statistics enclose.
  pub column_statistics-Encloses :
      (schema : String → ℕ) (row_groups : List (List (Chunk F)))
      → ((c : Chunk F) → In c (concat_map (λ g. g) row_groups) → IsTyped schema c)
      → (columns : Dict String (Column F)) × (column_statistics row_groups ≡ some columns)
        × ((c : Chunk F)
            → In c (concat_map (λ g. g) row_groups)
            → (column : Column F) × (get columns c.path ≡ some column)
              × ((s t : TypedStatistics F) (x : Value F)
                  → column.stats ≡ some s
                  → c.statistics ≡ some t
                  → Encloses t x
                  → Encloses s x))
  unfolding column_statistics
  column_statistics-Encloses schema row_groups typed =
      let nothing : Holds schema (λ c. ⊥) [] = record {
        typed = λ path entry t e. absurd (no_entry path entry e);
        encloses = λ c n. absurd n;
      } in
      let (columns, e, h) =
        add_chunks_lem schema (concat_map (λ g. g) row_groups) (λ c. ⊥) [] nothing typed in
      (columns, e, λ c i. h.encloses c (inr i))
    where
      no_entry : (path : String) (entry : Column F) → get [] path ≡ some entry → ⊥
      no_entry path entry e = let n : get {V = Column F} [] path ≡ none = get-empty path in cc
