-- ===== src/Catalog/Update/Named.antt =====
-- catalog/mod.rs, `process_single_partition`: the item that it finds, and the paths of the items.
use parseable.Prelude.{
  zero, ◌⊎◌, In-append, ℕ, suc, ◌+◌, ◌≤◌, ◌<◌, ◌≡◌, refl, sym, subst, true, ◌&&◌, some, List, [],
  ◌∷◌, ◌++◌, leb, ltb, if◌then◌else◌, string_eq, In, here, there, Bool-cases, inl, inr, arith,
}
use parseable.Catalog.Snapshot.{ManifestItem}
use parseable.Catalog.Update.{
  Env, contains, position, replace_at, with_metrics, manifest_path_of, new_item,
}

abbrev pub IsNamed : Env → ManifestItem → Type 0
IsNamed env item =
    item.manifest_path ≡ manifest_path_of env item.time_lower_bound item.time_upper_bound

-- The items of this node have the path of their bounds.
abbrev pub AreNamed : Env → List ManifestItem → Type 0
AreNamed env items =
    (item : ManifestItem)
    → In item items
    → contains item.manifest_path env.manifest_file_name ≡ true
    → IsNamed env item

-- Replacing an item leaves the others.
In-replace_at :
    (n : ℕ) (new : ManifestItem) (items : List ManifestItem) (item : ManifestItem)
    → In item (replace_at n new items)
    → (item ≡ new) ⊎ In item items
In-replace_at n new [] item m = inr m
In-replace_at zero new (i ∷ items) item (here e) = inl e
In-replace_at zero new (i ∷ items) item (there m) = inr (there m)
In-replace_at (suc n) new (i ∷ items) item (here e) = inr (here e)
In-replace_at (suc n) new (i ∷ items) item (there m) = elim (In-replace_at n new items item m) [
  | inl e ↦ inl e
  | inr k ↦ inr (there k)
]

pub plain : {k j : ℕ} → k ≡ 0 + j → k ≡ j
plain e = omega arith

holds_lower : {a b lower : ℕ} → (leb a lower && ltb lower b) ≡ true → (a ≤ lower) × (lower < b)
holds_lower h = ground arith

pub position_lem :
    (lower n : ℕ) (items : List ManifestItem) (k : ℕ) (item : ManifestItem)
    → position lower n items ≡ some (k, item)
    → (j : ℕ) × (k ≡ n + j)
      × (item.time_lower_bound ≤ lower)
      × (lower < item.time_upper_bound)
      × ((new : ManifestItem) → In new (replace_at j new items))
      × In item items
position_lem lower n [] k item e = absurd cc
position_lem lower n (i ∷ items) k item e =
    elim (Bool-cases (leb i.time_lower_bound lower && ltb lower i.time_upper_bound)) [
      | inl h ↦
          let found : some (n, i) ≡ some (k, item) =
            subst (λ b. (if b then some (n, i) else position lower (n + 1) items) ≡ some (k, item))
              h e in
          let same_n : n ≡ k = cc in
          let same : i ≡ item = cc in
          let bounds = holds_lower h in
          (
            0,
            omega (arith, same_n),
            subst (λ x. x.time_lower_bound ≤ lower) same bounds.0,
            subst (λ x. lower < x.time_upper_bound) same bounds.1,
            λ new. here refl,
            here (sym same),
          )
      | inr h ↦
          let later : position lower (n + 1) items ≡ some (k, item) =
            subst (λ b. (if b then some (n, i) else position lower (n + 1) items) ≡ some (k, item))
              h e in
          let (j, eq, from, to, here_j, at) = position_lem lower (n + 1) items k item later in
          (suc j, omega (arith, eq), from, to, λ new. there (here_j new), there at)
    ]

pub new_item-AreNamed :
    (env : Env) (lower : ℕ) (items : List ManifestItem)
    → AreNamed env items
    → AreNamed env (items ++ new_item env lower ∷ [])
new_item-AreNamed env lower items named item m own =
    elim (In-append item items (new_item env lower ∷ []) m) [
      | inl i ↦ named item i own
      | inr (here e) ↦ subst (IsNamed env) (sym e) refl
      | inr (there n) ↦ elim n [ ]
    ]

pub with_metrics-AreNamed :
    (env : Env) (metrics : ℕ × ℕ × ℕ) (pos : ℕ) (item : ManifestItem) (items : List ManifestItem)
    → AreNamed env items
    → IsNamed env item
    → AreNamed env (replace_at pos (with_metrics metrics item) items ++ [])
with_metrics-AreNamed env metrics pos item items named path i m own =
    elim (In-append i (replace_at pos (with_metrics metrics item) items) [] m) [
      | inl k ↦ elim (In-replace_at pos (with_metrics metrics item) items i k) [
        | inl e ↦ subst (IsNamed env) (sym e) path
        | inr l ↦ named i l own
      ]
      | inr n ↦ elim n [ ]
    ]
