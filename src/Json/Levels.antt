-- ===== src/Json/Levels.antt =====
-- utils/json/flatten.rs, `has_more_than_max_allowed_levels`: the test is on the depth of an event.
use parseable.Prelude.{ℕ, suc, ◌+◌, ◌≡◌, Bool, true, false, ◌||◌, leb, ltb, if◌then◌else◌, arith}
use parseable.Json.{
  Json, null, bool, number, string, array, object, Jsons, empty, item, Members, done, member,
}
use parseable.Json.Generic.{has_more_than_max_allowed_levels, any_item, any_member}

abbrev deeper : ℕ → ℕ → ℕ
deeper a b = if leb a b then b else a

-- The most objects with a member that lie around a value; arrays do not count.
abbrev mutual
  pub depth : Json → ℕ
  depth (array vs) = item_depth vs
  depth (object ms) = member_depth ms
  depth _ = 0

  pub item_depth : Jsons → ℕ
  item_depth empty = 0
  item_depth (item v vs) = deeper (depth v) (item_depth vs)

  pub member_depth : Members → ℕ
  member_depth done = 0
  member_depth (member key v ms) = deeper (suc (depth v)) (member_depth ms)

module _ (limit : ℕ) where
  first_or_rest :
      (n a b : ℕ) (x y : Bool)
      → x ≡ ltb limit (n + a)
      → (if ltb limit n then true else y) ≡ ltb limit (n + b)
      → (if ltb limit n then true else (x || y)) ≡ ltb limit (n + deeper a b)
  first_or_rest n a b true true e f = ground arith
  first_or_rest n a b true false e f = ground arith
  first_or_rest n a b false true e f = ground arith
  first_or_rest n a b false false e f = ground arith

  one_down : (n a : ℕ) (x : Bool) → x ≡ ltb limit (n + 1 + a) → x ≡ ltb limit (n + suc a)
  one_down n a x e = ground arith

  mutual
    unfolding has_more_than_max_allowed_levels

    levels :
        (v : Json) (level : ℕ)
        → has_more_than_max_allowed_levels limit v level ≡ ltb limit (level + depth v)
    levels null level = ground arith
    levels (bool b) level = ground arith
    levels (number b n) level = ground arith
    levels (string s) level = ground arith
    levels (array vs) level = item_levels vs level
    levels (object ms) level = member_levels ms level

    item_levels :
        (vs : Jsons) (level : ℕ)
        → (if ltb limit level then true else any_item limit vs level)
          ≡ ltb limit (level + item_depth vs)
    item_levels empty level = ground arith
    item_levels (item v vs) level =
        first_or_rest level (depth v) (item_depth vs) _ (any_item limit vs level) (levels v level)
          (item_levels vs level)

    member_levels :
        (ms : Members) (level : ℕ)
        → (if ltb limit level then true else any_member limit ms level)
          ≡ ltb limit (level + member_depth ms)
    member_levels done level = ground arith
    member_levels (member key v ms) level =
        first_or_rest level (suc (depth v)) (member_depth ms) _ (any_member limit ms level)
          (one_down level (depth v) _ (levels v (level + 1))) (member_levels ms level)

-- An event has more levels than allowed exactly if, from the level it stands at, its depth exceeds
-- the limit.
pub has_more_than_max_allowed_levels_lem :
    (limit : ℕ) (v : Json) (level : ℕ)
    → has_more_than_max_allowed_levels limit v level ≡ ltb limit (level + depth v)
has_more_than_max_allowed_levels_lem limit v level = levels limit v level
