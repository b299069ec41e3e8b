-- ===== src/Catalog/Manifest.antt =====
-- catalog/manifest.rs: a manifest and its files, one for each path.
use parseable.Prelude.{
  ℕ, ◌≡◌, refl, sym, ap, ◌∙◌, Option, none, some, List, [], ◌∷◌, String, if◌then◌else◌, ◌==◌,
  ==_iff, string_eq, Bool-cases, inl, inr, arith,
}
use parseable.Catalog.Column.{Column}

pub data SortOrder : Type 0 where
  asc_nulls_first asc_nulls_last desc_nulls_last desc_nulls_first : SortOrder

module _ (F : Type 0) where
  pub record File : Type 0 where
    pub file_path : String
    pub num_rows : ℕ
    pub file_size : ℕ
    pub ingestion_size : ℕ
    pub columns : List (Column F)
    pub sort_order_id : List (String × SortOrder)

  pub record Manifest : Type 0 where
    pub version : String
    pub files : List File

module _ {F : Type 0} where
  -- `self.files[pos] = change` at the first position of the path, or `push`.
  unfoldable pub put_file : File F → List (File F) → List (File F)
  put_file change [] = change ∷ []
  put_file change (file ∷ files) =
      let rest = put_file change files in
      if file.file_path == change.file_path then change ∷ files else file ∷ rest

  unfoldable pub apply_change : Manifest F → File F → Manifest F
  unfolding put_file
  apply_change m change = record m { files = put_file change m.files }

  -- The first file with a path.
  abbrev pub lookup : String → List (File F) → Option (File F)
  lookup path [] = none
  lookup path (file ∷ files) = if file.file_path == path then some file else lookup path files

  -- No path stands twice.
  pub data IsUnique : List (File F) → Type 0 where
    empty : IsUnique []
    cons :
        (file : File F) (files : List (File F))
        → lookup file.file_path files ≡ none
        → IsUnique files
        → IsUnique (file ∷ files)

  lookup-put_file :
      (change : File F) (files : List (File F)) (path : String)
      → lookup path (put_file change files)
        ≡ (if change.file_path == path then some change else lookup path files)
  unfolding put_file
  lookup-put_file change [] path = refl
  lookup-put_file change (file ∷ files) path = ground (
    arith,
    lookup-put_file change files path,
    ==_iff file.file_path change.file_path,
    ==_iff file.file_path path,
    ==_iff change.file_path path,
  )

  put_file-IsUnique :
      (change : File F) (files : List (File F)) → IsUnique files → IsUnique (put_file change files)
  unfolding put_file
  put_file-IsUnique change [] u = cons change [] refl empty
  put_file-IsUnique change (file ∷ files) (cons _ _ absent u) =
      elim (Bool-cases (file.file_path == change.file_path)) [
        | inl e ↦ rw e (
            cons change files
              (ap (λ p. lookup p files) (sym ((==_iff file.file_path change.file_path).0 e))
                ∙ absent)
              u)
        | inr e ↦ rw e (
            cons file (put_file change files)
              (ground (
                arith,
                lookup-put_file change files file.file_path,
                ==_iff file.file_path change.file_path,
                ==_iff change.file_path file.file_path,
              ))
              (put_file-IsUnique change files u))
      ]

  -- After `apply_change` a path of the manifest has the changed file, if it is that file's path, and
  -- the file it had before otherwise; no path stands twice if none did before.
  pub apply_change_lem :
      (m : Manifest F) (change : File F)
      → ((path : String)
          → lookup path (apply_change m change).files
            ≡ (if change.file_path == path then some change else lookup path m.files))
        × (IsUnique m.files → IsUnique (apply_change m change).files)
  unfolding apply_change
  apply_change_lem m change = (lookup-put_file change m.files, put_file-IsUnique change m.files)
