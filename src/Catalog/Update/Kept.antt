-- ===== src/Catalog/Update/Kept.antt =====
-- catalog/mod.rs, `process_single_partition`: the changes of a partition end in a manifest of it.
use parseable.Prelude.{
  ℕ, ◌+◌, ◌-◌, ◌*◌, ◌≤◌, ◌<◌, ◌≡◌, refl, sym, ap, subst, ◌∙◌, true, Option, none, some, List, [],
  ◌∷◌, ◌++◌, String, if◌then◌else◌, ◌==◌, ==_iff, string_eq, In, here, there, In-append_left,
  In-append_right, Bool-cases, Option-cases, inl, inr, arith,
}
use parseable.Dict.{Dict, get, insert, get-insert}
use parseable.Time.{day_ns, date_of}
use parseable.Catalog.Snapshot.{ManifestItem}
use parseable.Catalog.Manifest.{File, Manifest, apply_change, lookup, apply_change_lem}
use parseable.Catalog.Update.{
  Env, Catalog, contains, position, replace_at, with_metrics, manifest_path_of, new_item,
  create_manifest, apply_changes, update_manifest, handle_existing_partition,
  process_single_partition,
}
use parseable.Catalog.Update.Named.{
  IsNamed, AreNamed, plain, position_lem, new_item-AreNamed, with_metrics-AreNamed,
}

module _ {F : Type 0} where
  -- A path that is in a manifest.
  abbrev pub IsListed : String → List (File F) → Type 0
  IsListed path files = (file : File F) × (lookup path files ≡ some file)

  apply_change-IsListed :
      (m : Manifest F) (change : File F) (path : String)
      → IsListed path m.files
      → IsListed path (apply_change m change).files
  apply_change-IsListed m change path (file, e) = elim (Bool-cases (change.file_path == path)) [
    | inl same ↦ (
      change,
      (apply_change_lem m change).0 path
          ∙ ap (λ b. if b then some change else lookup path m.files) same,
    )
    | inr differ ↦ (
      file,
      (apply_change_lem m change).0 path
          ∙ ap (λ b. if b then some change else lookup path m.files) differ
          ∙ e,
    )
  ]

  changed-IsListed :
      (m : Manifest F) (change : File F) → IsListed change.file_path (apply_change m change).files
  changed-IsListed m change = (
    change,
    (apply_change_lem m change).0 change.file_path
        ∙ ap (λ b. if b then some change else lookup change.file_path m.files)
            ((==_iff change.file_path change.file_path).1 refl),
  )

  apply_changes-IsListed :
      (changes : List (File F)) (m : Manifest F) (path : String)
      → IsListed path m.files
      → IsListed path (apply_changes m changes).files
  apply_changes-IsListed [] m path l = l
  apply_changes-IsListed (change ∷ changes) m path l =
      apply_changes-IsListed changes (apply_change m change) path
        (apply_change-IsListed m change path l)

  In-apply_changes :
      (changes : List (File F)) (m : Manifest F) (file : File F)
      → In file changes
      → IsListed file.file_path (apply_changes m changes).files
  In-apply_changes [] m file i = elim i [ ]
  In-apply_changes (change ∷ changes) m file (here e) =
      apply_changes-IsListed changes (apply_change m change) file.file_path (
        subst (λ f. IsListed f.file_path (apply_change m change).files) (sym e)
          (changed-IsListed m change))
  In-apply_changes (change ∷ changes) m file (there i) =
      In-apply_changes changes (apply_change m change) file i

  In-IsListed :
      (files : List (File F)) (file : File F) → In file files → IsListed file.file_path files
  In-IsListed [] file i = elim i [ ]
  In-IsListed (f ∷ files) file (here e) =
      (f, rw ((==_iff f.file_path file.file_path).1 (ap (λ g. g.file_path) (sym e))) refl)
  In-IsListed (f ∷ files) file (there i) = elim (Bool-cases (f.file_path == file.file_path)) [
    | inl same ↦ (f, rw same refl)
    | inr differ ↦ let (g, e) = In-IsListed files file i in (g, rw differ e)
  ]

  -- An item of the snapshot to be, whose bounds hold the lower bound of the partition, and whose path
  -- is that of a manifest in the store that lists every change; the items of this node have the path
  -- of their bounds.
  abbrev pub Kept : Env → ℕ → List (File F) → Catalog F × List ManifestItem → Type 0
  Kept env lower changes (c, new) =
      ((item : ManifestItem) × In item (c.manifest_list ++ new)
        × (item.time_lower_bound ≤ lower)
        × (lower ≤ item.time_upper_bound)
        × (manifest : Manifest F) × (get c.store item.manifest_path ≡ some manifest)
        × ((file : File F) → In file changes → IsListed file.file_path manifest.files))
      × AreNamed env (c.manifest_list ++ new)

  get-insert_same :
      (store : Dict String (Manifest F)) (path : String) (m : Manifest F)
      → get (insert store path m) path ≡ some m
  get-insert_same store path m =
      get-insert store path path m
      ∙ ap (λ b. if b then some m else get store path) ((==_iff path path).1 refl)

  create_manifest-Kept :
      (env : Env) (time_partition : Option String) (c : Catalog F) (lower first : ℕ)
      (changes : List (File F))
      → c.first_event_at ≡ some first
      → AreNamed env c.manifest_list
      → (r : Catalog F × List ManifestItem) × (create_manifest env time_partition c lower changes
          ≡ some r)
        × Kept env lower changes r
  unfolding create_manifest
  create_manifest-Kept env time_partition c lower first changes known named = (
    (
      record c {
        store =
            insert c.store
              (manifest_path_of env (date_of lower * day_ns)
                (date_of lower * day_ns + (day_ns - 1)))
              (record { version = "v1"; files = changes });
        first_event_at = some first;
      },
      new_item env (date_of lower * day_ns) ∷ [],
    ),
    rw known refl,
    (
      (
        new_item env (date_of lower * day_ns),
        In-append_right _ c.manifest_list (new_item env (date_of lower * day_ns) ∷ []) (here refl),
        omega arith,
        omega arith,
        record { version = "v1"; files = changes },
        get-insert_same c.store _ _,
        In-IsListed changes,
      ),
      new_item-AreNamed env (date_of lower * day_ns) c.manifest_list named,
    ),
  )

  update_manifest-Kept :
      (env : Env) (c : Catalog F) (pos : ℕ) (item : ManifestItem) (lower first : ℕ)
      (changes : List (File F)) (o : Option (Manifest F))
      → c.first_event_at ≡ some first
      → item.time_lower_bound ≤ lower
      → lower < item.time_upper_bound
      → ((new : ManifestItem) → In new (replace_at pos new c.manifest_list))
      → AreNamed env c.manifest_list
      → IsNamed env item
      → (r : Catalog F × List ManifestItem) × (update_manifest env c pos item changes lower o
          ≡ some r)
        × Kept env lower changes r
  update_manifest-Kept env c pos item lower first changes none known from to at named path =
      create_manifest-Kept env env.time_partition c lower first changes known named
  update_manifest-Kept env c pos item lower first changes (some manifest) known from to at named
        path =
      (
        _,
        refl,
        (
          (
            with_metrics (env.metrics lower) item,
            In-append_left _ _ [] (at (with_metrics (env.metrics lower) item)),
            from,
            omega arith,
            apply_changes manifest changes,
            ap
                  (get (
                    insert c.store
                      (manifest_path_of env item.time_lower_bound item.time_upper_bound)
                      (apply_changes manifest changes)))
                  path
                ∙ get-insert_same c.store _ _,
            In-apply_changes changes manifest,
          ),
          with_metrics-AreNamed env (env.metrics lower) pos item c.manifest_list named path,
        ),
      )

-- For a stream whose first event is known, and where the items of this node have the path of their
-- bounds, `process_single_partition` returns, and afterwards the snapshot and its new entries have an
-- item whose bounds hold the lower bound of the partition and whose path is that of a manifest in the
-- store that lists every changed file; and the items of this node have the path of their bounds.
pub process_single_partition-Kept :
    {F : Type 0} (env : Env) (c : Catalog F) (lower first : ℕ) (changes : List (File F))
    → c.first_event_at ≡ some first
    → AreNamed env c.manifest_list
    → (r : Catalog F × List ManifestItem) × (process_single_partition env c lower changes ≡ some r)
      × Kept env lower changes r
unfolding process_single_partition handle_existing_partition
process_single_partition-Kept env c lower first changes known named =
    elim (Option-cases (position lower 0 c.manifest_list)) [
      | inl absent ↦
          rw absent (create_manifest-Kept env env.time_partition c lower first changes known named)
      | inr ((pos, item), found) ↦
          let (j, eq, from, to, at, in_list) =
            position_lem lower 0 c.manifest_list pos item found in
          let at_pos =
            subst (λ n. (new : ManifestItem) → In new (replace_at n new c.manifest_list))
              (sym (plain eq)) at in
          rw found (elim (Bool-cases (contains item.manifest_path env.manifest_file_name)) [
            | inl own ↦ rw own (
                update_manifest-Kept env c pos item lower first changes
                  (get c.store item.manifest_path) known from to at_pos named
                  (named item in_list own))
            | inr other ↦ rw other (create_manifest-Kept env none c lower first changes known named)
          ])
    ]

-- Where the first item that holds the partition names a manifest of this node that is in the store,
-- `process_single_partition` returns, adds no item, and the manifest it writes for the item lists
-- every file that was listed before and every changed file.
pub process_single_partition-IsListed :
    {F : Type 0} (env : Env) (c : Catalog F) (lower pos : ℕ) (item : ManifestItem) (m : Manifest F)
    (changes : List (File F))
    → position lower 0 c.manifest_list ≡ some (pos, item)
    → contains item.manifest_path env.manifest_file_name ≡ true
    → get c.store item.manifest_path ≡ some m
    → (next : Catalog F) × (process_single_partition env c lower changes ≡ some (next, []))
      × (manifest : Manifest F) × (get next.store
            (manifest_path_of env item.time_lower_bound item.time_upper_bound)
          ≡ some manifest)
      × ((path : String) → IsListed path m.files → IsListed path manifest.files)
      × ((file : File F) → In file changes → IsListed file.file_path manifest.files)
unfolding process_single_partition handle_existing_partition
process_single_partition-IsListed env c lower pos item m changes found own present = (
  record c {
    manifest_list = replace_at pos (with_metrics (env.metrics lower) item) c.manifest_list;
    store =
        insert c.store (manifest_path_of env item.time_lower_bound item.time_upper_bound)
          (apply_changes m changes);
  },
  rw (found, own, present) refl,
  apply_changes m changes,
  get-insert_same c.store _ _,
  apply_changes-IsListed changes m,
  In-apply_changes changes m,
)
