-- ===== src/Retention.antt =====
-- storage/retention.rs: the configuration of retention, and which dates of a stream it deletes; with
-- `remove_manifest_from_snapshot` of catalog/mod.rs. A date is the number of a day; making one from
-- a year, a month and a day is chrono's `from_ymd_opt`, a parameter. Names of objects are ASCII, so
-- that a byte of one is a character.
pub mod RoundTrip
pub mod Dates
pub mod Removal
pub mod Deletion
mod Tests
use parseable.Prelude.{
  string_eq, ℕ, zero, suc, ◌+◌, ◌-◌, ◌^◌, Bool, true, false, not, ◌&&◌, Option, none, some, List,
  [], ◌∷◌, ◌++◌, ◌==◌, String, if◌then◌else◌, any, map, retain, eqb, leb, ltb,
}
use parseable.Order.{ℤ, pos, negsuc}
use parseable.Results.{Result, ok, err, ◌>>=◌, ◌>>◌, guard, ok_or}
use parseable.Decimal.{parse_unsigned, nonempty_from, print}
use parseable.Validator.{chars}
use parseable.Catalog.Snapshot.{ManifestItem}
use parseable.Catalog.Update.{contains, starts_with}

pub data Action : Type 0 where
  delete : Action

abbrev pub action_eqb : Action → Action → Bool
action_eqb delete delete = true

pub record Task : Type 0 where
  pub description : String
  pub action : Action
  pub days : ℕ

pub record Retention : Type 0 where
  pub tasks : List Task

pub record TaskView : Type 0 where
  pub description : String
  pub action : Action
  pub duration : List ℕ

pub data Error : Type 0 where
  missing_suffix not_a_number : Error
  two_tasks : Action → Error

-- The greatest `u32`.
abbrev pub max_days : ℕ
max_days = 4_294_967_295

-- The text without the suffix `d`; none where it has not that suffix.
unfoldable pub strip_day : List ℕ → Option (List ℕ)
strip_day [] = none
strip_day (c ∷ []) = if eqb c 100 then some [] else none
strip_day (c ∷ d ∷ cs) = elim (strip_day (d ∷ cs)) [ none ↦ none | some rest ↦ some (c ∷ rest) ]

abbrev pub nonzero : Option ℕ → Option ℕ
nonzero (some (suc n)) = some (suc n)
nonzero _ = none

-- `parse` to a `NonZeroU32`.
unfoldable pub parse_days : List ℕ → Option ℕ
parse_days cs = nonzero (parse_unsigned max_days cs)

-- The loop of `try_from`; `set` are the actions that were met.
unfoldable pub tasks_from : List Action → List TaskView → Result Error (List Task)
unfolding strip_day parse_days
tasks_from set [] = ok []
tasks_from set (view ∷ views) = do
  number ← ok_or (strip_day view.duration) missing_suffix
  days ← ok_or (parse_days number) not_a_number
  guard (not (any (action_eqb view.action) set)) (two_tasks view.action)
  tasks ← tasks_from (set ++ view.action ∷ []) views
  ok (record { description = view.description; action = view.action; days = days } ∷ tasks)

unfoldable pub try_from : List TaskView → Result Error Retention
unfolding tasks_from
try_from views = tasks_from [] views >>= λ tasks. ok (record { tasks = tasks })

unfoldable pub view_of : Task → TaskView
view_of task = record {
  description = task.description;
  action = task.action;
  duration = print task.days ++ 100 ∷ [];
}

unfoldable pub from : Retention → List TaskView
unfolding view_of
from value = map view_of value.tasks

abbrev drop : ℕ → List ℕ → Option (List ℕ)
drop zero cs = some cs
drop (suc n) [] = none
drop (suc n) (c ∷ cs) = drop n cs

abbrev take : ℕ → List ℕ → Option (List ℕ)
take zero cs = some []
take (suc n) [] = none
take (suc n) (c ∷ cs) = elim (take n cs) [ none ↦ none | some rest ↦ some (c ∷ rest) ]

abbrev pub then_with {ℓ} : {A B : Type ℓ} → Option A → (A → Option B) → Option B
then_with none k = none
then_with (some a) k = k a

-- `text[from..to]`, of the length given; out of range it panics.
unfoldable pub slice : ℕ → ℕ → List ℕ → Option (List ℕ)
slice start size cs = then_with (drop start cs) (take size)

abbrev negative : Option ℕ → Option ℤ
negative none = none
negative (some zero) = some (pos 0)
negative (some (suc n)) = some (negsuc n)

abbrev not_negative : Option ℕ → Option ℤ
not_negative none = none
not_negative (some n) = some (pos n)

-- `parse` to an `i32`, which may have a sign.
unfoldable pub parse_year : List ℕ → Option ℤ
parse_year [] = none
parse_year (c ∷ cs) =
    if eqb c 45
    then negative (nonempty_from (2 ^ 31) cs)
    else not_negative (parse_unsigned (2 ^ 31 - 1) (c ∷ cs))

-- The manifests of the snapshot, when the first event is, and the prefixes that hold data.
pub record Stream : Type 0 where
  pub manifest_list : List ManifestItem
  pub first_event_at : Option ℕ
  pub prefixes : List String

-- What the storage does in one run: whether the listing, the update of the snapshot and each
-- deletion succeed.
pub record Storage : Type 0 where
  pub lists : Bool
  pub updates_snapshot : Bool
  pub deletes : String → Bool

-- `remove_manifest_from_snapshot`, for dates that there are and where its calls succeed.
unfoldable pub remove_manifest_from_snapshot : List String → Stream → Stream
unfolding contains
remove_manifest_from_snapshot dates s = record s {
  manifest_list =
      retain (λ item. not (any (λ date. contains item.manifest_path date) dates)) s.manifest_list;
  first_event_at = none;
}

-- `delete_prefix` for each date; all are run, also where one fails.
unfoldable pub delete_prefixes : Storage → List String → Stream → Stream
delete_prefixes storage dates s = record s {
  prefixes = retain (λ p. not (any (λ date. date == p && storage.deletes date) dates)) s.prefixes;
}

-- `current_date - Days::new(days)`, which panics before the first date.
unfoldable pub get_retain_until : ℕ → ℕ → Option ℕ
get_retain_until current_date days =
    if leb days current_date then some (current_date - days) else none

-- The steps after the dates are chosen.
unfoldable pub delete_dates : Storage → List String → Stream → Stream
unfolding remove_manifest_from_snapshot delete_prefixes
delete_dates storage [] s = s
delete_dates storage (date ∷ dates) s =
    if storage.updates_snapshot
    then delete_prefixes storage (date ∷ dates) (remove_manifest_from_snapshot (date ∷ dates) s)
    else s

-- The names that `retain` leaves are those of directories of dates.
abbrev pub date_names : List String → List String
date_names names = retain (λ name. starts_with name "date") names

module _ (from_ymd_opt : ℤ → ℕ → ℕ → Option ℕ) where
  -- `none` is a panic, on a slice, a number or a date.
  unfoldable pub string_to_date : String → Option ℕ
  unfolding slice parse_year
  string_to_date date = then_with (then_with (slice 5 4 (chars date)) parse_year) λ year.
      then_with (then_with (slice 10 2 (chars date)) (parse_unsigned max_days)) λ month.
        then_with (then_with (slice 13 2 (chars date)) (parse_unsigned max_days))
          λ day. from_ymd_opt year month day

  -- `filter` by the date of each name.
  unfoldable pub older : ℕ → List String → Option (List String)
  unfolding string_to_date
  older retain_until [] = some []
  older retain_until (name ∷ names) = then_with (string_to_date name) λ date.
      then_with (older retain_until names)
        λ rest. some (if ltb date retain_until then name ∷ rest else rest)

  -- `delete`: the names that the listing gives are the prefixes of the stream.
  unfoldable pub delete_task : Storage → ℕ → ℕ → Stream → Option Stream
  unfolding older get_retain_until delete_dates
  delete_task storage current_date days s =
      then_with (get_retain_until current_date days) λ retain_until.
        if storage.lists
        then (then_with (older retain_until (date_names s.prefixes))
            λ dates. some (delete_dates storage dates s))
        else some s
