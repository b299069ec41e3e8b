-- ===== src/Alerts/Conditions/Reading.antt =====
-- alerts/alerts_utils.rs: what SQL reads in a literal. In a string literal two
-- quotes are one, and one quote ends it; in a pattern with the escape character `\`, the character
-- after it stands for itself, `%` for any text and `_` for any character.
use parseable.Prelude.{
  ℕ, ◌≡◌, Bool, true, false, Option, none, some, List, [], ◌∷◌, if◌then◌else◌, eqb,
}
use parseable.Alerts.Conditions.{quote, percent, underscore, backslash}

pub data Token : Type 0 where
  character : ℕ → Token
  any_text any_character : Token

abbrev pub push : ℕ → Option (List ℕ × List ℕ) → Option (List ℕ × List ℕ)
push c none = none
push c (some (text, rest)) = some (c ∷ text, rest)

-- The text of a literal after its first quote, and what follows the literal; `after_quote` is whether
-- the last character was a quote that may end it.
abbrev pub read_text : (after_quote : Bool) → List ℕ → Option (List ℕ × List ℕ)
read_text false [] = none
read_text true [] = some ([], [])
read_text false (c ∷ cs) =
    let rest = read_text (eqb c quote) cs in if eqb c quote then rest else push c rest
read_text true (c ∷ cs) =
    let rest = read_text false cs in if eqb c quote then push quote rest else some ([], c ∷ cs)

abbrev pub token : ℕ → Token
token c =
    if eqb c percent then any_text else if eqb c underscore then any_character else character c

abbrev pub push_token : Token → Option (List Token) → Option (List Token)
push_token t none = none
push_token t (some ts) = some (t ∷ ts)

abbrev pub read_pattern : (escaped : Bool) → List ℕ → Option (List Token)
read_pattern false [] = some []
read_pattern true [] = none
read_pattern false (c ∷ cs) =
    let rest = read_pattern (eqb c backslash) cs in
    if eqb c backslash then rest else push_token (token c) rest
read_pattern true (c ∷ cs) = push_token (character c) (read_pattern false cs)

abbrev pub pattern_and_rest : Option (List ℕ × List ℕ) → Option (Option (List Token) × List ℕ)
pattern_and_rest none = none
pattern_and_rest (some (text, rest)) = some (read_pattern false text, rest)

-- What a literal reads as, and the pattern of one.
unfoldable pub read_literal : List ℕ → Option (List ℕ × List ℕ)
read_literal [] = none
read_literal (c ∷ cs) = if eqb c quote then read_text false cs else none

unfoldable pub read_like : List ℕ → Option (Option (List Token) × List ℕ)
unfolding read_literal
read_like cs = pattern_and_rest (read_literal cs)

-- What is after a literal starts with no quote.
pub data IsClear : List ℕ → Type 0 where
  ends : IsClear []
  goes_on : {c : ℕ} {cs : List ℕ} → eqb c quote ≡ false → IsClear (c ∷ cs)
