-- ===== src/Handlers/Mirror.antt =====
-- handlers/http/rbac.rs and role.rs: when a stored table and the one in memory agree. The admin and
-- its role are put in memory by `init` and need not be stored.
use parseable.Prelude.{
  string_eq, ◌≡◌, refl, ◌⊎◌, inl, inr, sym, ◌∙◌, Option, none, some, ◌==◌, String, if◌then◌else◌,
  false, Bool-cases, arith,
}
use parseable.Rbac.Users.{present}

-- Each name is looked up with one result in both, but for one name that may be in memory alone.
abbrev pub Mirrors {ℓ} : {A : Type ℓ} → String → (stored live : String → Option A) → Type ℓ
Mirrors only stored live = (j : String) → (stored j ≡ live j) ⊎ ((j ≡ only) × (stored j ≡ none))

module _ {ℓ} {A : Type ℓ} (only : String) {stored live stored' live' : String → Option A} where
  -- The same change at one name of both tables.
  pub set-Mirrors :
      (i : String) (o : Option A)
      → Mirrors only stored live
      → ((j : String) → stored' j ≡ (if i == j then o else stored j))
      → ((j : String) → live' j ≡ (if i == j then o else live j))
      → Mirrors only stored' live'
  set-Mirrors i o m s l j = elim (Bool-cases (i == j)) [
    | inl same ↦ inl (s j ∙ (rw same (sym (l j ∙ rw same refl))))
    | inr differ ↦ elim (m j) [
      | inl e ↦ inl (s j ∙ rw (differ, e) (sym (l j ∙ rw differ refl)))
      | inr (is_only, absent) ↦ inr (is_only, s j ∙ rw (differ, absent))
    ]
  ]

-- What is stored is in memory, and what is not in memory is not stored.
module _ {ℓ} {A : Type ℓ} (only : String) {stored live : String → Option A}
    (m : Mirrors only stored live) where
  pub stored→live : (j : String) (a : A) → stored j ≡ some a → live j ≡ some a
  stored→live j a h = elim (m j) [ inl e ↦ sym e ∙ h | inr (is_only, absent) ↦ cc (h, absent) ]

  pub absent→not_stored : (j : String) → present (live j) ≡ false → stored j ≡ none
  absent→not_stored j h = elim (m j) [ inl e ↦ ground (arith, e) | inr (is_only, absent) ↦ absent ]
