-- ===== src/Dict.antt =====
-- `HashMap` and `BTreeMap`: an association list behind its laws. Where the program iterates over a
-- map, the model iterates over `entries`, in some order.
use parseable.Prelude.{
  ◌≡◌, refl, Option, none, some, List, [], ◌∷◌, arith, Eq, ◌==◌, ==_iff, if◌then◌else◌,
}

abbrev pub Dict {ℓ κ} : Type ℓ → Type κ → Type (ℓ ⊔ κ)
Dict K V = List (K × V)

module _ {ℓ κ} {K : Type ℓ} {V : Type κ} ⦃e : Eq K⦄ where
  -- `map.get(k)`
  unfoldable pub get : Dict K V → K → Option V
  get [] k = none
  get ((j, v) ∷ d) k = if j == k then some v else get d k

  -- `map.remove(k)`
  unfoldable pub remove : Dict K V → K → Dict K V
  remove [] k = []
  remove ((j, v) ∷ d) k = let rest = remove d k in if j == k then rest else (j, v) ∷ rest

  -- `map.insert(k, v)`
  unfoldable pub insert : Dict K V → K → V → Dict K V
  insert d k v = (k, v) ∷ remove d k

  pub get-remove :
      (d : Dict K V) (k j : K) → get (remove d k) j ≡ (if k == j then none else get d j)
  unfolding get remove
  get-remove [] k j = ground arith
  get-remove ((i, v) ∷ d) k j = ground (arith, get-remove d k j, ==_iff i k, ==_iff i j, ==_iff k j)

  pub get-insert :
      (d : Dict K V) (k j : K) (v : V) → get (insert d k v) j ≡ (if k == j then some v else get d j)
  unfolding get insert
  get-insert d k j v = ground (arith, get-remove d k j)

pub get-empty {ℓ κ} : {K : Type ℓ} {V : Type κ} ⦃e : Eq K⦄ (k : K) → get {V = V} [] k ≡ none
unfolding get
get-empty k = refl
