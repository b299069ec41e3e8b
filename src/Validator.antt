-- ===== src/Validator.antt =====
-- validator.rs: `stream_name` and `user_role_name`. A character is its code point. Rust's tables of
-- Unicode are parameters: `to_lowercase`, and `is_alphanumeric` beyond ASCII.

pub mod Names
use Prim.Native.Char.{Char, code}
use Prim.Native.String.{[] as nil, ◌∷◌ as ◌∷ˢ◌}
use parseable.Prelude.{
  is_empty, string_eq, ℕ, ◌+◌, Bool, true, false, not, ◌&&◌, ◌||◌, Option, none, some, List, [],
  ◌∷◌, ◌==◌, String, if◌then◌else◌, contains, eqb, leb, ltb,
}
use parseable.Rbac.State.{StreamType, user_defined, internal}
use parseable.Results.{Result, ok, err, ◌>>◌}

pub data StreamNameValidationError : Type 0 where
  empty_name : StreamNameValidationError
  name_special_char : ℕ → StreamNameValidationError
  name_white_space sql_keyword internal_stream : String → StreamNameValidationError

pub data UsernameValidationError : Type 0 where
  invalid_length reserved_name invalid_end_char consecutive_special_chars invalid_character :
      UsernameValidationError

-- `str::chars`
abbrev pub chars : String → List ℕ
chars nil = []
chars (◌∷ˢ◌ c s) = code c ∷ chars s

-- `str::len` counts the bytes of UTF-8.
abbrev pub utf8_bytes : ℕ → ℕ
utf8_bytes c = if ltb c 128 then 1 else if ltb c 2048 then 2 else if ltb c 65536 then 3 else 4

abbrev pub byte_length : List ℕ → ℕ
byte_length [] = 0
byte_length (c ∷ cs) = utf8_bytes c + byte_length cs

abbrev pub denied_names : List String
denied_names =
    "select" ∷ "from" ∷ "where" ∷ "group" ∷ "by" ∷ "order" ∷ "limit" ∷ "offset" ∷ "join" ∷ "and"
    ∷ "sql" ∷ []

abbrev pub reserved_names : List String
reserved_names =
    "admin" ∷ "user" ∷ "role" ∷ "null" ∷ "undefined" ∷ "none" ∷ "empty" ∷ "password" ∷ "username"
    ∷ []

-- `ALLOWED_SPECIAL_CHARS`: `-` and `_`
unfoldable pub is_allowed_special : ℕ → Bool
is_allowed_special c = eqb c 45 || eqb c 95

abbrev pub is_internal_type : StreamType → Bool
is_internal_type internal = true
is_internal_type user_defined = false

-- The loop over the characters of a stream name.
module _ (is_alphanumeric : ℕ → Bool) where
  unfoldable pub check_chars : String → List ℕ → Result StreamNameValidationError (Unit {0})
  unfolding is_allowed_special
  check_chars name [] = ok tt
  check_chars name (c ∷ cs) =
      let rest = check_chars name cs in
      if eqb c 32
      then err (name_white_space name)
      else if not (is_alphanumeric c) && not (is_allowed_special c)
      then err (name_special_char c)
      else rest

  unfoldable pub stream_name : String → StreamType → Result StreamNameValidationError (Unit {0})
  unfolding check_chars
  stream_name name stream_type =
      if is_empty (chars name)
      then err empty_name
      else check_chars name (chars name)
        >> (if contains denied_names name
            then err (sql_keyword name)
            else if is_internal_type stream_type
            then err (internal_stream name)
            else ok tt)

abbrev between : ℕ → ℕ → ℕ → Bool
between a b c = leb a c && leb c b

-- `char::is_ascii_alphanumeric`
unfoldable pub is_ascii_alphanumeric : ℕ → Bool
is_ascii_alphanumeric c = between 48 57 c || between 65 90 c || between 97 122 c

-- `_`, `-`, `.` and `@`
unfoldable pub is_special : ℕ → Bool
is_special c = eqb c 95 || eqb c 45 || eqb c 46 || eqb c 64

abbrev pub last : List ℕ → Option ℕ
last [] = none
last (c ∷ []) = some c
last (c ∷ d ∷ cs) = last (d ∷ cs)

-- The loop of `user_role_name`.
unfoldable pub check_name_chars : Bool → List ℕ → Result UsernameValidationError (Unit {0})
unfolding is_ascii_alphanumeric is_special
check_name_chars prev_was_special [] = ok tt
check_name_chars prev_was_special (c ∷ cs) =
    let after_alphanumeric = check_name_chars false cs in
    let after_special = check_name_chars true cs in
    if is_ascii_alphanumeric c
    then after_alphanumeric
    else if is_special c
    then (if prev_was_special then err consecutive_special_chars else after_special)
    else err invalid_character

abbrev pub ends_in_alphanumeric : Option ℕ → Bool
ends_in_alphanumeric none = true
ends_in_alphanumeric (some c) = is_ascii_alphanumeric c

-- `user_role_name` on the name in lower case.
unfoldable pub check_lowered : String → Result UsernameValidationError (Unit {0})
unfolding check_name_chars
check_lowered name =
    if ltb (byte_length (chars name)) 3 || ltb 64 (byte_length (chars name))
    then err invalid_length
    else if contains reserved_names name
    then err reserved_name
    else if not (ends_in_alphanumeric (last (chars name)))
    then err invalid_end_char
    else check_name_chars false (chars name)

unfoldable pub user_role_name :
    (String → String) → String → Result UsernameValidationError (Unit {0})
unfolding check_lowered
user_role_name to_lowercase name = check_lowered (to_lowercase name)
