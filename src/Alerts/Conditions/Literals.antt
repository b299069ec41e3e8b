-- ===== src/Alerts/Conditions/Literals.antt =====
-- alerts/alerts_utils.rs: the literals of a condition read as the value that they are made of.
use parseable.Prelude.{
  append_assoc, ℕ, ◌≡◌, refl, ap, ◌∙◌, sym, Bool, true, false, ◌||◌, Option, some, List, [], ◌∷◌,
  ◌++◌, map, if◌then◌else◌, eqb, arith,
}
use parseable.Alerts.Conditions.{
  quote, percent, underscore, backslash, replace, escape_like, string_literal, like_literal,
}
use parseable.Alerts.Conditions.Reading.{
  Token, character, any_text, push, read_text, push_token, read_pattern, pattern_and_rest,
  read_literal, read_like, IsClear, goes_on,
}

abbrev push_all : List ℕ → Option (List ℕ × List ℕ) → Option (List ℕ × List ℕ)
push_all [] o = o
push_all (c ∷ cs) o = push c (push_all cs o)

abbrev push_literal : List ℕ → Option (List Token) → Option (List Token)
push_literal [] o = o
push_literal (c ∷ cs) o = push_token (character c) (push_literal cs o)

replace-append :
    (from : ℕ) (to xs ys : List ℕ)
    → replace from to (xs ++ ys) ≡ replace from to xs ++ replace from to ys
unfolding replace
replace-append from to [] ys = refl
replace-append from to (x ∷ xs) ys =
    ap (λ l. (if eqb x from then to else x ∷ []) ++ l) (replace-append from to xs ys)
    ∙ sym
        (append_assoc (if eqb x from then to else x ∷ []) (replace from to xs) (replace from to ys))

escape_like-append : (xs ys : List ℕ) → escape_like (xs ++ ys) ≡ escape_like xs ++ escape_like ys
unfolding escape_like
escape_like-append xs ys =
    ap (λ l. third (second (first l))) (replace-append backslash (backslash ∷ backslash ∷ []) xs ys)
    ∙ ap (λ l. third (second l)) (replace-append quote (quote ∷ quote ∷ []) (zeroth xs) (zeroth ys))
    ∙ ap third
        (replace-append percent (backslash ∷ percent ∷ []) (first (zeroth xs)) (first (zeroth ys)))
    ∙ replace-append underscore (backslash ∷ underscore ∷ []) (second (first (zeroth xs)))
        (second (first (zeroth ys)))
  where
    zeroth : List ℕ → List ℕ
    zeroth l = replace backslash (backslash ∷ backslash ∷ []) l

    first : List ℕ → List ℕ
    first l = replace quote (quote ∷ quote ∷ []) l

    second : List ℕ → List ℕ
    second l = replace percent (backslash ∷ percent ∷ []) l

    third : List ℕ → List ℕ
    third l = replace underscore (backslash ∷ underscore ∷ []) l

-- The pattern that a character of the value becomes, once the literal is read.
abbrev as_pattern : ℕ → List ℕ
as_pattern c =
    if eqb c backslash || eqb c percent || eqb c underscore then backslash ∷ c ∷ [] else c ∷ []

read_escaped :
    (c : ℕ) (cs : List ℕ)
    → read_text false (escape_like (c ∷ []) ++ cs) ≡ push_all (as_pattern c) (read_text false cs)
unfolding escape_like replace
read_escaped c cs = ground arith

read_as_pattern :
    (c : ℕ) (cs : List ℕ)
    → read_pattern false (as_pattern c ++ cs) ≡ push_token (character c) (read_pattern false cs)
read_as_pattern c cs = ground arith

abbrev pattern_text : List ℕ → List ℕ
pattern_text [] = []
pattern_text (c ∷ cs) = as_pattern c ++ pattern_text cs

push_all-append :
    (xs ys : List ℕ) (o : Option (List ℕ × List ℕ))
    → push_all (xs ++ ys) o ≡ push_all xs (push_all ys o)
push_all-append [] ys o = refl
push_all-append (x ∷ xs) ys o = ap (push x) (push_all-append xs ys o)

push_all-some : (xs text rest : List ℕ) → push_all xs (some (text, rest)) ≡ some (xs ++ text, rest)
push_all-some [] text rest = refl
push_all-some (x ∷ xs) text rest = ap (push x) (push_all-some xs text rest)

push_literal-some :
    (xs : List ℕ) (ts : List Token) → push_literal xs (some ts) ≡ some (map character xs ++ ts)
push_literal-some [] ts = refl
push_literal-some (x ∷ xs) ts = ap (push_token (character x)) (push_literal-some xs ts)

read_text-escape_like :
    (value tail : List ℕ)
    → read_text false (escape_like value ++ tail)
      ≡ push_all (pattern_text value) (read_text false tail)
unfolding escape_like replace
read_text-escape_like [] tail = refl
read_text-escape_like (c ∷ cs) tail =
    ap (λ l. read_text false (l ++ tail)) (escape_like-append (c ∷ []) cs)
    ∙ ap (read_text false) (append_assoc (escape_like (c ∷ [])) (escape_like cs) tail)
    ∙ read_escaped c (escape_like cs ++ tail)
    ∙ ap (push_all (as_pattern c)) (read_text-escape_like cs tail)
    ∙ sym (push_all-append (as_pattern c) (pattern_text cs) (read_text false tail))

read_pattern-pattern_text :
    (value tail : List ℕ)
    → read_pattern false (pattern_text value ++ tail) ≡ push_literal value (read_pattern false tail)
read_pattern-pattern_text [] tail = refl
read_pattern-pattern_text (c ∷ cs) tail =
    ap (read_pattern false) (append_assoc (as_pattern c) (pattern_text cs) tail)
    ∙ read_as_pattern c (pattern_text cs ++ tail)
    ∙ ap (push_token (character c)) (read_pattern-pattern_text cs tail)

-- A quote ends the literal where what follows is clear.
read_text-quote : (rest : List ℕ) → IsClear rest → read_text false (quote ∷ rest) ≡ some ([], rest)
read_text-quote [] clear = refl
read_text-quote (c ∷ cs) (goes_on e) = ground arith

abbrev wildcard : Bool → List ℕ
wildcard b = if b then percent ∷ [] else []

abbrev pub any_if : Bool → List Token
any_if b = if b then any_text ∷ [] else []

read_text-after :
    (after : Bool) (rest : List ℕ)
    → IsClear rest
    → read_text false (wildcard after ++ (quote ∷ rest)) ≡ some (wildcard after, rest)
read_text-after true rest clear = ap (push percent) (read_text-quote rest clear)
read_text-after false rest clear = read_text-quote rest clear

-- The text after the first wildcard.
read_body :
    (after : Bool) (value rest : List ℕ)
    → IsClear rest
    → read_text false (((escape_like value ++ wildcard after) ++ quote ∷ []) ++ rest)
      ≡ some (pattern_text value ++ wildcard after, rest)
read_body after value rest clear =
    ap (read_text false) (
      append_assoc (escape_like value ++ wildcard after) (quote ∷ []) rest
      ∙ append_assoc (escape_like value) (wildcard after) (quote ∷ rest))
    ∙ read_text-escape_like value (wildcard after ++ (quote ∷ rest))
    ∙ ap (push_all (pattern_text value)) (read_text-after after rest clear)
    ∙ push_all-some (pattern_text value) (wildcard after) rest

read_pattern_body :
    (after : Bool) (value : List ℕ)
    → read_pattern false (pattern_text value ++ wildcard after)
      ≡ some (map character value ++ any_if after)
read_pattern_body after value =
    read_pattern-pattern_text value (wildcard after)
    ∙ ap (push_literal value) (last after)
    ∙ push_literal-some value (any_if after)
  where
    last : (b : Bool) → read_pattern false (wildcard b) ≡ some (any_if b)
    last true = refl
    last false = refl

read_like-like_literal :
    (before after : Bool) (value rest : List ℕ)
    → IsClear rest
    → read_like (like_literal before after value ++ rest)
      ≡ some (some (any_if before ++ (map character value ++ any_if after)), rest)
unfolding read_like read_literal like_literal
read_like-like_literal true after value rest clear =
    ap (λ o. pattern_and_rest (push percent o)) (read_body after value rest clear)
    ∙ ap (λ p. some (push_token any_text p, rest)) (read_pattern_body after value)
read_like-like_literal false after value rest clear =
    ap pattern_and_rest (read_body after value rest clear)
    ∙ ap (λ p. some (p, rest)) (read_pattern_body after value)

read_doubled :
    (value rest : List ℕ)
    → IsClear rest
    → read_text false ((replace quote (quote ∷ quote ∷ []) value ++ quote ∷ []) ++ rest)
      ≡ some (value, rest)
unfolding replace
read_doubled [] rest clear = read_text-quote rest clear
read_doubled (c ∷ cs) rest clear = ground (arith, read_doubled cs rest clear)

-- The value of a condition stays a value: the string literal that it is formatted as reads as the
-- value and ends where the code ends it, and the literal of a pattern reads as the pattern of the
-- characters of the value, each standing for itself, with any text before or after it where the code
-- puts a `%`; no quote, `%`, `_` or `\` of the value changes this.
pub literals_read_back :
    (value rest : List ℕ)
    → IsClear rest
    → (read_literal (string_literal value ++ rest) ≡ some (value, rest))
      × ((before after : Bool)
          → read_like (like_literal before after value ++ rest)
            ≡ some (some (any_if before ++ (map character value ++ any_if after)), rest))
unfolding read_literal string_literal
literals_read_back value rest clear = (
  read_doubled value rest clear,
  λ before after. read_like-like_literal before after value rest clear,
)
