-- ===== src/Retention/Removal.antt =====
-- storage/retention.rs, `delete`: what the deletion of a list of dates leaves and what it takes.
use parseable.Prelude.{
  string_eq, ◌≡◌, refl, sym, ap, subst, ◌∙◌, inl, inr, true, false, false≢true, not, ◌&&◌, List, [],
  ◌∷◌, ◌==◌, ==_iff, ==_self, String, if◌then◌else◌, any, arith, In, In-retain, retain-In, any-In,
  In-any, Bool-cases,
}
use parseable.Catalog.Snapshot.{ManifestItem}
use parseable.Catalog.Update.{contains}
use parseable.Retention.{
  Stream, Storage, remove_manifest_from_snapshot, delete_prefixes, delete_dates,
}

module _ (storage : Storage) (s : Stream) where
  -- A prefix that is not among the dates stays.
  pub keeps_prefix :
      (l : List String) (p : String)
      → (In p l → ⊥)
      → In p s.prefixes
      → In p (delete_dates storage l s).prefixes
  unfolding delete_dates delete_prefixes remove_manifest_from_snapshot
  keeps_prefix [] p out m = m
  keeps_prefix (d ∷ l) p out m = elim (Bool-cases storage.updates_snapshot) [
    | inl up ↦ rw up (
        retain-In _ s.prefixes p m
          (elim (Bool-cases (any (λ date. date == p && storage.deletes date) (d ∷ l))) [
            | inl hit ↦
                let (date, i, q) = any-In (λ date. date == p && storage.deletes date) (d ∷ l) hit in
                absurd (out (subst (λ n. In n (d ∷ l)) ((==_iff date p).0 (ground arith)) i))
            | inr miss ↦ rw miss refl
          ]))
    | inr down ↦ rw down m
  ]

  -- A manifest whose path has none of the dates stays.
  pub keeps_item :
      (l : List String) (item : ManifestItem)
      → ((p : String) → In p l → contains item.manifest_path p ≡ false)
      → In item s.manifest_list
      → In item (delete_dates storage l s).manifest_list
  unfolding delete_dates delete_prefixes remove_manifest_from_snapshot
  keeps_item [] item out m = m
  keeps_item (d ∷ l) item out m = elim (Bool-cases storage.updates_snapshot) [
    | inl up ↦ rw up (
        retain-In _ s.manifest_list item m
          (elim (Bool-cases (any (λ date. contains item.manifest_path date) (d ∷ l))) [
            | inl hit ↦
                let (date, i, q) = any-In (λ date. contains item.manifest_path date) (d ∷ l) hit in
                absurd (false≢true (sym (out date i) ∙ q))
            | inr miss ↦ rw miss refl
          ]))
    | inr down ↦ rw down m
  ]

  module _ (up : storage.updates_snapshot ≡ true) where
    pub drops_prefix :
        (l : List String) (p : String)
        → storage.deletes p ≡ true
        → In p l
        → In p (delete_dates storage l s).prefixes
        → ⊥
    unfolding delete_dates delete_prefixes remove_manifest_from_snapshot
    drops_prefix [] p del m after = elim m [ ]
    drops_prefix (d ∷ l) p del m after =
        let hit : any (λ date. date == p && storage.deletes date) (d ∷ l) ≡ true =
          In-any (λ date. date == p && storage.deletes date) (d ∷ l) p m
            (ground (arith, ==_self p)) in
        let left =
          In-retain (λ q. not (any (λ date. date == q && storage.deletes date) (d ∷ l))) s.prefixes
            p
            (subst
              (λ b.
                In p
                  (if b
                    then delete_prefixes storage (d ∷ l) (remove_manifest_from_snapshot (d ∷ l) s)
                    else s).prefixes)
              up after) in
        false≢true (ap not (sym hit) ∙ left.1)

    pub drops_item :
        (l : List String) (p : String) (item : ManifestItem)
        → In p l
        → contains item.manifest_path p ≡ true
        → In item (delete_dates storage l s).manifest_list
        → ⊥
    unfolding delete_dates delete_prefixes remove_manifest_from_snapshot
    drops_item [] p item m h after = elim m [ ]
    drops_item (d ∷ l) p item m h after =
        let hit = In-any (λ date. contains item.manifest_path date) (d ∷ l) p m h in
        let left =
          In-retain (λ i. not (any (λ date. contains i.manifest_path date) (d ∷ l))) s.manifest_list
            item
            (subst
              (λ b.
                In item
                  (if b
                    then delete_prefixes storage (d ∷ l) (remove_manifest_from_snapshot (d ∷ l) s)
                    else s).manifest_list)
              up after) in
        false≢true (ap not (sym hit) ∙ left.1)
