-- ===== src/Retention/Deletion.antt =====
-- storage/retention.rs, `delete`: which dates and manifests go, and which stay.
use parseable.Prelude.{
  string_eq, ℕ, ◌+◌, ◌-◌, ◌≤◌, ◌≡◌, ◌⊎◌, sym, ap, subst, ◌∙◌, inl, inr, true, false, false≢true,
  Option, some, List, String, if◌then◌else◌, arith, In, In-retain, retain-In, Bool-cases,
}
use parseable.Order.{ℤ}
use parseable.Catalog.Snapshot.{ManifestItem}
use parseable.Catalog.Update.{contains, starts_with}
use parseable.Retention.{
  Stream, Storage, then_with, string_to_date, older, get_retain_until, delete_dates, date_names,
  delete_task,
}
use parseable.Retention.Dates.{then_with-eq-some, IsBefore, older-In, In-older}
use parseable.Retention.Removal.{keeps_prefix, keeps_item, drops_prefix, drops_item}

module _ (from_ymd_opt : ℤ → ℕ → ℕ → Option ℕ) where
  -- What a run that returns has done: nothing, or the deletion of the older dates.
  chosen :
      (storage : Storage) (current_date days : ℕ) (s after : Stream)
      → delete_task from_ymd_opt storage current_date days s ≡ some after
      → ((storage.lists ≡ false) × (after ≡ s))
        ⊎ ((l : List String) × (older from_ymd_opt (current_date - days) (date_names s.prefixes)
              ≡ some l)
            × (after ≡ delete_dates storage l s))
  unfolding delete_task get_retain_until
  chosen storage current_date days s after h =
      let (until, eu, h1) = then_with-eq-some (get_retain_until current_date days) _ after h in
      let same : until ≡ current_date - days = ground arith in
      elim (Bool-cases storage.lists) [
        | inr unlisted ↦ inl (unlisted, ground arith)
        | inl listed ↦
            let h2 : then_with (older from_ymd_opt until (date_names s.prefixes))
                  (λ dates. some (delete_dates storage dates s))
                ≡ some after =
              subst
                (λ b.
                  (if b
                    then then_with (older from_ymd_opt until (date_names s.prefixes))
                        (λ dates. some (delete_dates storage dates s))
                    else some s)
                  ≡ some after)
                listed h1 in
            let (l, el, h3) =
              then_with-eq-some (older from_ymd_opt until (date_names s.prefixes)) _ after h2 in
            inr (
              l,
              ap (λ u. older from_ymd_opt u (date_names s.prefixes)) (sym same) ∙ el,
              ground arith,
            )
      ]

  -- A date that is chosen is a prefix, and older.
  chosen-older :
      (day : ℕ) (s : Stream) (l : List String) (p : String)
      → older from_ymd_opt day (date_names s.prefixes) ≡ some l
      → In p l
      → In p s.prefixes × IsBefore from_ymd_opt day p
  chosen-older day s l p e m =
      let (i, b) = older-In from_ymd_opt day (date_names s.prefixes) l p e m in
      ((In-retain (λ name. starts_with name "date") s.prefixes p i).0, b)

  not_before :
      (day d : ℕ) (p : String)
      → string_to_date from_ymd_opt p ≡ some d
      → day ≤ d
      → IsBefore from_ymd_opt day p
      → ⊥
  not_before day d p e le (d', e', lt) = let same : some d ≡ some d' = sym e ∙ e' in ground arith

  -- A run of retention that returns leaves every prefix whose date is not more than `days` days
  -- past, and every manifest whose path has no name of an older date. Where the storage fails
  -- nowhere, no directory of an older date is left, and no manifest with its name in the path.
  pub delete_task_lem :
      (storage : Storage) (current_date days : ℕ) (s after : Stream)
      → delete_task from_ymd_opt storage current_date days s ≡ some after
      → ((p : String) (d : ℕ)
          → In p s.prefixes
          → string_to_date from_ymd_opt p ≡ some d
          → current_date ≤ d + days
          → In p after.prefixes)
        × ((item : ManifestItem)
            → In item s.manifest_list
            → ((p : String)
                → In p s.prefixes
                → IsBefore from_ymd_opt (current_date - days) p
                → contains item.manifest_path p ≡ false)
            → In item after.manifest_list)
        × (storage.lists ≡ true
            → storage.updates_snapshot ≡ true
            → ((p : String) → storage.deletes p ≡ true)
            → (p : String) → In p s.prefixes
            → starts_with p "date" ≡ true
            → IsBefore from_ymd_opt (current_date - days) p
            → (In p after.prefixes → ⊥)
              × ((item : ManifestItem)
                  → contains item.manifest_path p ≡ true
                  → In item after.manifest_list
                  → ⊥))
  delete_task_lem storage current_date days s after h =
      elim (chosen storage current_date days s after h) [
        | inl (unlisted, e) ↦ (
          λ p d m q le. subst (λ t. In p t.prefixes) (sym e) m,
          λ item m out. subst (λ t. In item t.manifest_list) (sym e) m,
          λ listed. absurd (false≢true (sym unlisted ∙ listed)),
        )
        | inr (l, el, e) ↦ (
          λ p d m q le.
              subst (λ t. In p t.prefixes) (sym e)
                (keeps_prefix storage s l p
                  (λ i.
                    not_before (current_date - days) d p q (omega (arith, le))
                      (chosen-older (current_date - days) s l p el i).1)
                  m),
          λ item m out.
              subst (λ t. In item t.manifest_list) (sym e)
                (keeps_item storage s l item
                  (λ p i. let (j, b) = chosen-older (current_date - days) s l p el i in out p j b)
                  m),
          λ listed up del p m dated b.
              let i =
                In-older from_ymd_opt (current_date - days) (date_names s.prefixes) l p el
                  (retain-In (λ name. starts_with name "date") s.prefixes p m dated) b in
              (
                λ j. drops_prefix storage s up l p (del p) i (subst (λ t. In p t.prefixes) e j),
                λ item c j.
                    drops_item storage s up l p item i c (subst (λ t. In item t.manifest_list) e j),
              ),
        )
      ]
