-- ===== src/Json/Shape.antt =====
-- utils/json/flatten.rs: what flattening returns is flat, and no key stands twice.
use parseable.Prelude.{
  ℕ, zero, suc, ◌+◌, ◌≡◌, refl, ap, ◌∙◌, subst, false, ◌||◌, Option, none, some, List, [], ◌∷◌,
  ◌++◌, String, ◌==◌, string_eq, ==_iff, ltb, length, if◌then◌else◌, ◌>>=◌, any, any-append,
  Bool-cases, inl, inr, arith,
}
use parseable.Dict.{Dict, get, insert, remove, get-remove}
use parseable.Json.{
  Json, null, bool, number, string, array, object, Jsons, empty, item, Members, done, member,
  is_object, any_object, jsons, join, nulls, Columns, or_nulls, push_fields, push_nulls, extend,
  extend_all, insert_columns, flatten_object, flatten_value, flatten_elements,
}

-- A value that is no object and no array with an object in it.
abbrev pub IsFlat : Json → Type 0
IsFlat (object ms) = ⊥
IsFlat (array vs) = any_object vs ≡ false
IsFlat _ = Unit

-- A property of each entry of a map.
abbrev pub Each {ℓ} : {V : Type ℓ} → (V → Type 0) → Dict String V → Type 0
Each P [] = Unit
Each P ((k, v) ∷ d) = P v × Each P d

-- No key stands twice.
abbrev pub HasKeysOnce {ℓ} : {V : Type ℓ} → Dict String V → Type ℓ
HasKeysOnce [] = Unit
HasKeysOnce ((k, v) ∷ d) = (get d k ≡ none) × HasKeysOnce d

-- If an option has a value, it has the property.
abbrev pub Ends {ℓ} : {A : Type ℓ} → Option A → (A → Type 0) → Type 0
Ends none P = Unit
Ends (some a) P = P a

pub Ends-bind {ℓ κ} :
    {A : Type ℓ} {B : Type κ} (o : Option A) (k : A → Option B) (P : A → Type 0) (Q : B → Type 0)
    → Ends o P
    → ((a : A) → P a → Ends (k a) Q)
    → Ends (o >>= k) Q
Ends-bind none k P Q h f = tt
Ends-bind (some a) k P Q h f = f a h

module _ {V : Type 0} where
  Each-remove : (P : V → Type 0) (d : Dict String V) (k : String) → Each P d → Each P (remove d k)
  unfolding remove
  Each-remove P [] k e = tt
  Each-remove P ((j, v) ∷ d) k (p, e) = elim (Bool-cases (j == k)) [
    | inl same ↦ rw same (Each-remove P d k e)
    | inr differ ↦ rw differ (p, Each-remove P d k e)
  ]

  pub Each-insert :
      (P : V → Type 0) (d : Dict String V) (k : String) (v : V)
      → P v
      → Each P d
      → Each P (insert d k v)
  unfolding insert
  Each-insert P d k v p e = (p, Each-remove P d k e)

  pub Each-get :
      (P : V → Type 0) (d : Dict String V) (k : String) (v : V) → Each P d → get d k ≡ some v → P v
  unfolding get
  Each-get P [] k v e found = absurd cc
  Each-get P ((j, w) ∷ d) k v (p, e) found = elim (Bool-cases (j == k)) [
    | inl same ↦
        let found_here : some w ≡ some v =
          subst (λ b. (if b then some w else get d k) ≡ some v) same found in
        let eq : w ≡ v = cc in subst P eq p
    | inr differ ↦
        Each-get P d k v e (subst (λ b. (if b then some w else get d k) ≡ some v) differ found)
  ]

  HasKeysOnce-remove : (d : Dict String V) (k : String) → HasKeysOnce d → HasKeysOnce (remove d k)
  unfolding remove
  HasKeysOnce-remove [] k u = tt
  HasKeysOnce-remove ((j, v) ∷ d) k (absent, u) = elim (Bool-cases (j == k)) [
    | inl same ↦ rw same (HasKeysOnce-remove d k u)
    | inr differ ↦
        rw differ (ground (arith, get-remove d k j, ==_iff k j), HasKeysOnce-remove d k u)
  ]

  pub HasKeysOnce-insert :
      (d : Dict String V) (k : String) (v : V) → HasKeysOnce d → HasKeysOnce (insert d k v)
  unfolding insert
  HasKeysOnce-insert d k v u =
      (ground (arith, get-remove d k k, ==_iff k k), HasKeysOnce-remove d k u)

-- A map whose values are flat and whose keys stand once.
abbrev pub IsFlatMap : Dict String Json → Type 0
IsFlatMap d = Each IsFlat d × HasKeysOnce d

insert-IsFlatMap :
    (d : Dict String Json) (k : String) (v : Json)
    → IsFlat v
    → IsFlatMap d
    → IsFlatMap (insert d k v)
insert-IsFlatMap d k v f (e, u) = (Each-insert IsFlat d k v f e, HasKeysOnce-insert d k v u)

-- A column without objects.
abbrev IsColumn : List Json → Type 0
IsColumn column = any is_object column ≡ false

IsFlat-is_object : (v : Json) → IsFlat v → is_object v ≡ false
IsFlat-is_object null f = refl
IsFlat-is_object (bool b) f = refl
IsFlat-is_object (number b n) f = refl
IsFlat-is_object (string s) f = refl
IsFlat-is_object (array vs) f = refl
IsFlat-is_object (object ms) f = absurd f

IsColumn-append :
    (column : List Json) (v : Json)
    → IsColumn column
    → is_object v ≡ false
    → IsColumn (column ++ v ∷ [])
IsColumn-append column v c f = ground (arith, any-append is_object column (v ∷ []))

nulls-IsColumn : (n : ℕ) → IsColumn (nulls n)
nulls-IsColumn zero = refl
nulls-IsColumn (suc n) = nulls-IsColumn n

or_nulls-IsColumn :
    (index : ℕ) (o : Option (List Json))
    → ((c : List Json) → o ≡ some c → IsColumn c)
    → IsColumn (or_nulls index o)
or_nulls-IsColumn index none h = nulls-IsColumn index
or_nulls-IsColumn index (some c) h = h c refl

push_fields-IsColumn :
    (index : ℕ) (fields : Dict String Json) (columns : Columns)
    → Each IsColumn columns
    → Each IsFlat fields
    → Each IsColumn (push_fields index columns fields)
unfolding push_fields
push_fields-IsColumn index [] columns c f = c
push_fields-IsColumn index ((key, v) ∷ fields) columns c (flat, f) =
    push_fields-IsColumn index fields _
      (Each-insert IsColumn columns key _
        (IsColumn-append (or_nulls index (get columns key)) v
          (or_nulls-IsColumn index (get columns key)
            (λ col e. Each-get IsColumn columns key col c e))
          (IsFlat-is_object v flat))
        c)
      f

push_nulls-IsColumn :
    (columns : Columns) → Each IsColumn columns → Each IsColumn (push_nulls columns)
unfolding push_nulls
push_nulls-IsColumn [] c = tt
push_nulls-IsColumn ((key, column) ∷ columns) (p, c) =
    (IsColumn-append column null p refl, push_nulls-IsColumn columns c)

extend-IsColumn :
    (rounds max_len : ℕ) (column : List Json)
    → IsColumn column
    → IsColumn (extend rounds max_len column)
unfolding extend
extend-IsColumn zero max_len column c = c
extend-IsColumn (suc rounds) max_len column c = elim (Bool-cases (ltb (length column) max_len)) [
  | inl short ↦ rw short (extend-IsColumn rounds max_len _ (IsColumn-append column null c refl))
  | inr full ↦ rw full c
]

extend_all-IsColumn :
    (max_len : ℕ) (columns : Columns)
    → Each IsColumn columns
    → Each IsColumn (extend_all max_len columns)
unfolding extend_all
extend_all-IsColumn max_len [] c = tt
extend_all-IsColumn max_len ((key, column) ∷ columns) (p, c) =
    (extend-IsColumn max_len max_len column p, extend_all-IsColumn max_len columns c)

any_object-jsons : (column : List Json) → any_object (jsons column) ≡ any is_object column
any_object-jsons [] = refl
any_object-jsons (v ∷ column) = ap (λ b. is_object v || b) (any_object-jsons column)

insert_columns-IsFlatMap :
    (columns : Columns) (output : Dict String Json)
    → Each IsColumn columns
    → IsFlatMap output
    → IsFlatMap (insert_columns output columns)
unfolding insert_columns
insert_columns-IsFlatMap [] output c f = f
insert_columns-IsFlatMap ((key, values) ∷ columns) output (p, c) f =
    insert_columns-IsFlatMap columns _ c
      (insert-IsFlatMap output key (array (jsons values)) (any_object-jsons values ∙ p) f)

module _ (separator : String) where
  mutual
    unfolding flatten_object flatten_value flatten_elements

    pub flatten_object-Ends :
        (ms : Members) (output : Dict String Json) (parent : Option String)
        → IsFlatMap output
        → Ends (flatten_object separator output parent ms) IsFlatMap
    flatten_object-Ends done output parent f = f
    flatten_object-Ends (member key value ms) output parent f =
        Ends-bind (flatten_value separator output (join parent separator key) value) _ IsFlatMap
          IsFlatMap (flatten_value-Ends value output (join parent separator key) f)
          (λ next g. flatten_object-Ends ms next parent g)

    flatten_value-Ends :
        (value : Json) (output : Dict String Json) (key : String)
        → IsFlatMap output
        → Ends (flatten_value separator output key value) IsFlatMap
    flatten_value-Ends null output key f = insert-IsFlatMap output key null tt f
    flatten_value-Ends (bool b) output key f = insert-IsFlatMap output key (bool b) tt f
    flatten_value-Ends (number b n) output key f = insert-IsFlatMap output key (number b n) tt f
    flatten_value-Ends (string s) output key f = insert-IsFlatMap output key (string s) tt f
    flatten_value-Ends (object ms) output key f = flatten_object-Ends ms output (some key) f
    flatten_value-Ends (array vs) output key f =
        let all = flatten_elements-Ends vs [] key 0 tt in
        elim (Bool-cases (any_object vs)) [
          | inl objects ↦ rw objects (
              Ends-bind (flatten_elements separator [] key 0 vs) _ (Each IsColumn) IsFlatMap all
                (λ columns c. insert_columns-IsFlatMap columns output c f))
          | inr flat ↦ rw flat (insert-IsFlatMap output key (array vs) flat f)
        ]

    flatten_elements-Ends :
        (vs : Jsons) (columns : Columns) (parent : String) (index : ℕ)
        → Each IsColumn columns
        → Ends (flatten_elements separator columns parent index vs) (Each IsColumn)
    flatten_elements-Ends empty columns parent index c = c
    flatten_elements-Ends (item (object ms) vs) columns parent index c =
        Ends-bind (flatten_object separator [] (some parent) ms) _ IsFlatMap (Each IsColumn)
          (flatten_object-Ends ms [] (some parent) (tt, tt))
          (λ fields g.
            flatten_elements-Ends vs _ parent (index + 1)
              (extend_all-IsColumn (index + 1) _ (push_fields-IsColumn index fields columns c g.0)))
    flatten_elements-Ends (item null vs) columns parent index c =
        flatten_elements-Ends vs _ parent (index + 1)
          (extend_all-IsColumn (index + 1) _ (push_nulls-IsColumn columns c))
    flatten_elements-Ends (item (bool b) vs) columns parent index c = tt
    flatten_elements-Ends (item (number b n) vs) columns parent index c = tt
    flatten_elements-Ends (item (string s) vs) columns parent index c = tt
    flatten_elements-Ends (item (array us) vs) columns parent index c = tt
