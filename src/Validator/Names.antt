-- ===== src/Validator/Names.antt =====
-- validator.rs: which names `user_role_name` and `stream_name` accept.
use parseable.Prelude.{
  is_empty, string_eq, ℕ, ◌≡◌, ◌↔◌, ◌≤◌, refl, sym, ap, ◌∙◌, inl, inr, Bool, true, false,
  false≢true, not, ◌&&◌, ◌||◌, List, [], ◌∷◌, ◌++◌, String, if◌then◌else◌, contains, all, arith,
  eqb, ltb, Bool-cases,
}
use parseable.Rbac.State.{StreamType, user_defined, internal}
use parseable.Results.{Result, ok, err, ◌>>◌}
use parseable.Validator.{
  StreamNameValidationError, empty_name, sql_keyword, internal_stream, is_internal_type,
  UsernameValidationError, invalid_length, reserved_name, invalid_end_char, chars, byte_length,
  reserved_names, is_ascii_alphanumeric, is_special, last, check_name_chars, ends_in_alphanumeric,
  check_lowered, user_role_name, denied_names, is_allowed_special, check_chars, stream_name,
}

-- Two special characters that stand side by side in a list.
abbrev pub HasDouble : List ℕ → Type 0
HasDouble cs =
    (pre : List ℕ) × (post : List ℕ) × (a : ℕ) × (b : ℕ) × (cs ≡ pre ++ a ∷ b ∷ post)
    × (is_special a ≡ true)
    × (is_special b ≡ true)

abbrev pub is_name_char : ℕ → Bool
is_name_char c = is_ascii_alphanumeric c || is_special c

-- The same with the character before the list, as the loop sees it.
abbrev doubled : Bool → List ℕ → Bool
doubled prev [] = false
doubled prev (c ∷ cs) = prev && is_special c || doubled (is_special c) cs

special_apart : (c : ℕ) → is_ascii_alphanumeric c ≡ true → is_special c ≡ false
unfolding is_ascii_alphanumeric is_special
special_apart c h = ground arith

check_name_chars_iff :
    (prev : Bool) (cs : List ℕ)
    → (check_name_chars prev cs ≡ ok tt) ↔ (all is_name_char cs && not (doubled prev cs) ≡ true)
unfolding check_name_chars
check_name_chars_iff prev [] = ground arith
check_name_chars_iff prev (c ∷ cs) = elim (Bool-cases (is_ascii_alphanumeric c)) [
  | inl a ↦ ground (arith, special_apart c a, check_name_chars_iff false cs)
  | inr a ↦ elim (Bool-cases (is_special c)) [
    | inl s ↦ ground (arith, check_name_chars_iff true cs)
    | inr s ↦ ground arith
  ]
]

doubled-HasDouble : (cs : List ℕ) (c : ℕ) → doubled (is_special c) cs ≡ true → HasDouble (c ∷ cs)
doubled-HasDouble [] c h = cc h
doubled-HasDouble (d ∷ cs) c h = elim (Bool-cases (is_special c && is_special d)) [
  | inl both ↦ ([], cs, c, d, refl, ground arith, ground arith)
  | inr apart ↦
      let (pre, post, a, b, e, sa, sb) = doubled-HasDouble cs d (ground arith) in
      (c ∷ pre, post, a, b, ap (λ l. c ∷ l) e, sa, sb)
]

doubled-append :
    (pre post : List ℕ) (a b : ℕ) (prev : Bool)
    → is_special a ≡ true
    → is_special b ≡ true
    → doubled prev (pre ++ a ∷ b ∷ post) ≡ true
doubled-append [] post a b prev sa sb = ground arith
doubled-append (c ∷ pre) post a b prev sa sb =
    ground (arith, doubled-append pre post a b (is_special c) sa sb)

doubled_iff : (cs : List ℕ) → (doubled false cs ≡ true) ↔ HasDouble cs
doubled_iff [] = (
  λ h. cc h,
  λ (pre, post, a, b, e, sa, sb). ap (doubled false) e ∙ doubled-append pre post a b false sa sb,
)
doubled_iff (c ∷ cs) = (
  doubled-HasDouble cs c,
  λ (pre, post, a, b, e, sa, sb). ap (doubled false) e ∙ doubled-append pre post a b false sa sb,
)

-- The early returns in front of the loop.
gates :
    (short reserved ended : Bool) (rest : Result UsernameValidationError (Unit {0}))
    → ((if short
          then err invalid_length
          else if reserved
          then err reserved_name
          else if not ended
          then err invalid_end_char
          else rest)
        ≡ ok tt)
      ↔ ((short ≡ false) × (reserved ≡ false) × (ended ≡ true) × (rest ≡ ok tt))
gates short reserved ended rest = ground arith

length_gate : (n : ℕ) → (ltb n 3 || ltb 64 n ≡ false) ↔ ((3 ≤ n) × (n ≤ 64))
length_gate n = ground arith

and_not : (a b : Bool) → a && not b ≡ true → (a ≡ true) × (b ≡ false)
and_not a b h = ground arith

-- `user_role_name` accepts a name exactly if, in lower case, it is 3 to 64 bytes long, is not
-- reserved, has only letters, digits and the four special characters, ends in a letter or a digit,
-- and has no two special characters side by side.
pub user_role_name_iff :
    (to_lowercase : String → String) (name : String)
    → (user_role_name to_lowercase name ≡ ok tt) ↔ (
        (3 ≤ byte_length (chars (to_lowercase name)))
        × (byte_length (chars (to_lowercase name)) ≤ 64)
        × (contains reserved_names (to_lowercase name) ≡ false)
        × (all is_name_char (chars (to_lowercase name)) ≡ true)
        × (ends_in_alphanumeric (last (chars (to_lowercase name))) ≡ true)
        × (HasDouble (chars (to_lowercase name)) → ⊥))
unfolding user_role_name check_lowered
user_role_name_iff to_lowercase name =
    let cs = chars (to_lowercase name) in
    (
      λ h.
          let (long, free, ends, rest) =
            (gates (ltb (byte_length cs) 3 || ltb 64 (byte_length cs))
                (contains reserved_names (to_lowercase name)) (ends_in_alphanumeric (last cs))
                (check_name_chars false cs)).0
              h in
          let q = (check_name_chars_iff false cs).0 rest in
          (
            ((length_gate (byte_length cs)).0 long).0,
            ((length_gate (byte_length cs)).0 long).1,
            free,
            (and_not (all is_name_char cs) (doubled false cs) q).0,
            ends,
            λ d.
                false≢true (
                  sym (and_not (all is_name_char cs) (doubled false cs) q).1
                  ∙ (doubled_iff cs).1 d),
          ),
      λ (low, high, free, good, ends, single).
          (gates (ltb (byte_length cs) 3 || ltb 64 (byte_length cs))
              (contains reserved_names (to_lowercase name)) (ends_in_alphanumeric (last cs))
              (check_name_chars false cs)).1
            (
              (length_gate (byte_length cs)).1 (low, high),
              free,
              ends,
              (check_name_chars_iff false cs).1 (elim (Bool-cases (doubled false cs)) [
                | inl d ↦ absurd (single ((doubled_iff cs).0 d))
                | inr d ↦ rw (good, d) refl
              ]),
            ),
    )

-- The steps of `stream_name`.
stream_gates :
    (name : String) (empty : Bool) (checked : Result StreamNameValidationError (Unit {0}))
    (denied reserved : Bool)
    → (◌≡◌ {A = Result StreamNameValidationError (Unit {0})}
        (if empty
          then err empty_name
          else checked
            >> (if denied
                then err (sql_keyword name)
                else if reserved
                then err (internal_stream name)
                else ok tt))
        (ok tt))
      ↔ ((empty ≡ false) × (checked ≡ ok tt) × (denied ≡ false) × (reserved ≡ false))
stream_gates name true checked denied reserved = ground arith
stream_gates name false (err e) denied reserved = ground arith
stream_gates name false (ok u) denied reserved = ground arith

is_internal_type_iff : (t : StreamType) → (is_internal_type t ≡ false) ↔ (t ≡ user_defined)
is_internal_type_iff user_defined = ground arith
is_internal_type_iff internal = (λ h. cc h, λ h. cc h)

module _ (is_alphanumeric : ℕ → Bool) where
  abbrev pub is_stream_char : ℕ → Bool
  is_stream_char c = not (eqb c 32) && (is_alphanumeric c || is_allowed_special c)

  check_chars_iff :
      (name : String) (cs : List ℕ)
      → (check_chars is_alphanumeric name cs ≡ ok tt) ↔ (all is_stream_char cs ≡ true)
  unfolding check_chars
  check_chars_iff name [] = ground arith
  check_chars_iff name (c ∷ cs) = ground (arith, check_chars_iff name cs)

  -- `stream_name` accepts a name exactly if it is not empty, has only letters, digits, `-` and `_`,
  -- is not one of the denied words as they are spelled, and is for a stream of a user.
  pub stream_name_iff :
      (name : String) (stream_type : StreamType)
      → (stream_name is_alphanumeric name stream_type ≡ ok tt) ↔ (
          (is_empty (chars name) ≡ false)
          × (all is_stream_char (chars name) ≡ true)
          × (contains denied_names name ≡ false)
          × (stream_type ≡ user_defined))
  unfolding stream_name
  stream_name_iff name stream_type =
      let both =
        stream_gates name (is_empty (chars name)) (check_chars is_alphanumeric name (chars name))
          (contains denied_names name) (is_internal_type stream_type) in
      (
        λ h.
            let (some_char, checked, free, own) = both.0 h in
            (
              some_char,
              (check_chars_iff name (chars name)).0 checked,
              free,
              (is_internal_type_iff stream_type).0 own,
            ),
        λ (some_char, good, free, own). both.1 (
          some_char,
          (check_chars_iff name (chars name)).1 good,
          free,
          (is_internal_type_iff stream_type).1 own,
        ),
      )
