-- ===== src/Time.antt =====
-- utils/time.rs: time ranges, and the prefixes of object paths that hold the data of a range.
-- A `DateTime<Utc>` is the number of nanoseconds since the first instant of the first date; a
-- `NaiveDate` is the number of a day. A prefix is its components: the printing of dates and numbers
-- is left out. `none` is a panic, `Result` is an error.
pub mod Granularity
pub mod Blocks
pub mod Coverage
pub mod Range
mod Tests
use parseable.Prelude.{
  ℕ, zero, suc, ◌+◌, ◌-◌, ◌*◌, ◌/◌, ◌%◌, ◌^◌, ◌≤◌, ◌<◌, ◌≡◌, Bool, true, false, not, ◌&&◌, ◌||◌,
  Option, none, some, List, [], ◌∷◌, ◌++◌, eqb, leb, ltb, if◌then◌else◌, ◌>>=◌,
}

abbrev pub minute_ns : ℕ
minute_ns = 60_000_000_000

abbrev pub hour_ns : ℕ
hour_ns = 3_600_000_000_000

abbrev pub day_ns : ℕ
day_ns = 86_400_000_000_000

-- chrono: `date_naive`, `hour`, `minute`, `second`.
abbrev pub date_of : ℕ → ℕ
date_of t = t / day_ns

abbrev pub hour_of : ℕ → ℕ
hour_of t = t / hour_ns % 24

abbrev pub minute_of : ℕ → ℕ
minute_of t = t / minute_ns % 60

abbrev pub second_of : ℕ → ℕ
second_of t = t / 1_000_000_000 % 60

pub record TimeRange : Type 0 where
  pub start : ℕ
  pub end : ℕ

pub record TimeBounds : Type 0 where
  pub start_date : ℕ
  pub start_hour : ℕ
  pub start_minute : ℕ
  pub end_date : ℕ
  pub end_hour : ℕ
  pub end_minute : ℕ

-- The minutes of a slot, both ends included; `"{:02}"` alone where they are one minute.
pub record Slot : Type 0 where
  pub first : ℕ
  pub last : ℕ

pub data Prefix : Type 0 where
  day : (date : ℕ) → Prefix
  hour : (date hour : ℕ) → Prefix
  minute : (date hour : ℕ) → Slot → Prefix

-- `a / b` on `u32`, which panics on a zero divisor; `a - b` wraps around.
unfoldable pub div : ℕ → ℕ → Option ℕ
div a b = if eqb b 0 then none else some (a / b)

unfoldable pub sub : ℕ → ℕ → ℕ
sub a b = (a + 2 ^ 32 - b) % 2 ^ 32

unfoldable pub truncate_to_minute : ℕ → ℕ
truncate_to_minute t = t / minute_ns * minute_ns

-- `TimeRange::contains`
unfoldable pub has_time : TimeRange → ℕ → Bool
has_time r time = leb r.start time && ltb time r.end

unfoldable pub calculate_time_bounds : TimeRange → TimeBounds
calculate_time_bounds r = record {
  start_date = date_of r.start;
  start_hour = hour_of r.start;
  start_minute = minute_of r.start;
  end_date = date_of r.end;
  end_hour = hour_of r.end;
  end_minute = minute_of r.end + (if ltb 0 (second_of r.end) then 1 else 0);
}

unfoldable pub spans_full_day : TimeBounds → Bool
unfolding sub
spans_full_day b = leb 24 (sub b.end_hour b.start_hour)

-- `Minute::try_from`: none is the error.
unfoldable pub minute_try_from : ℕ → Option ℕ
minute_try_from block = if leb 60 block then none else some block

-- `Minute::to_slot`, with its assertion.
unfoldable pub to_slot : ℕ → ℕ → Option Slot
to_slot block g =
    if eqb (60 % g) 0
    then some (record { first = block / g * g; last = (block / g + 1) * g - 1 })
    else none

-- The closure `push_prefix`: what it pushes for a block.
abbrev pushed : ℕ → ℕ → ℕ → Option ℕ → Option (List Prefix)
pushed g date h none = some []
pushed g date h (some m) = do slot ← to_slot m g; some (minute date h slot ∷ [])

unfoldable pub push_prefix : ℕ → ℕ → ℕ → ℕ → Option (List Prefix)
unfolding minute_try_from to_slot
push_prefix g date h block = pushed g date h (minute_try_from (block * g))

-- The loop over the blocks, by the number of blocks that are left.
unfoldable pub push_blocks : ℕ → ℕ → ℕ → ℕ → ℕ → Option (List Prefix)
unfolding push_prefix
push_blocks g date h zero block = some []
push_blocks g date h (suc rounds) block = do
  here ← push_prefix g date h block
  later ← push_blocks g date h rounds (block + 1)
  some (here ++ later)

unfoldable pub generate_minute_prefixes : ℕ → ℕ → ℕ → ℕ → ℕ → Option (List Prefix)
unfolding push_blocks
generate_minute_prefixes g date h start_block end_block = do
  blocks ← push_blocks g date h (end_block - start_block) start_block
  last ← if ltb 1 g then push_prefix g date h end_block else some []
  some (blocks ++ last)

-- The end of `process_minutes`, once its minutes are set.
unfoldable pub process_blocks : ℕ → ℕ → ℕ → ℕ → ℕ → Option (List Prefix)
unfolding div sub generate_minute_prefixes
process_blocks g date h start_minute end_minute =
    if eqb start_minute end_minute then some [] else do
      start_block ← div start_minute g
      end_block ← div end_minute g
      forbidden_block ← div 60 g
      if leb forbidden_block (sub end_block start_block)
          then some (hour date h ∷ [])
          else generate_minute_prefixes g date h start_block end_block

unfoldable pub process_minutes : ℕ → ℕ → ℕ → Bool → Bool → TimeBounds → Option (List Prefix)
unfolding process_blocks
process_minutes g date h is_start_hour is_end_hour b =
    process_blocks g date h (if is_start_hour then b.start_minute else 0)
      (if is_end_hour then b.end_minute else 60)

-- One round of the loop of `process_hours`.
unfoldable pub process_hour : ℕ → ℕ → TimeBounds → ℕ → Option (List Prefix)
unfolding process_minutes
process_hour g date b h =
    if not (eqb h b.start_hour) && not (eqb h b.end_hour)
    then some (hour date h ∷ [])
    else process_minutes g date h (eqb h b.start_hour) (eqb h b.end_hour) b

-- The loop of `process_hours`, by the number of hours that are left; it breaks at hour 24.
unfoldable pub process_hours : ℕ → ℕ → TimeBounds → ℕ → ℕ → Option (List Prefix)
unfolding process_hour
process_hours g date b zero h = some []
process_hours g date b (suc rounds) h =
    let rest = process_hours g date b rounds (h + 1) in
    if eqb h 24
    then some []
    else do here ← process_hour g date b h; later ← rest; some (here ++ later)

unfoldable pub get_time_bounds : Bool → Bool → TimeBounds → TimeBounds
get_time_bounds is_start is_end b = record b {
  start_hour = if is_start then b.start_hour else 0;
  start_minute = if is_start then b.start_minute else 0;
  end_hour = if is_end then b.end_hour else 24;
  end_minute = if is_end then b.end_minute else 60;
}

-- The end of `process_date`, on the bounds of the date.
unfoldable pub process_bounds : ℕ → ℕ → TimeBounds → Option (List Prefix)
unfolding spans_full_day process_hours
process_bounds g date b =
    if spans_full_day b
    then some (day date ∷ [])
    else process_hours g date b (b.end_hour + 1 - b.start_hour) b.start_hour

unfoldable pub process_date : ℕ → TimeBounds → ℕ → Option (List Prefix)
unfolding get_time_bounds process_bounds
process_date g b date =
    if not (eqb date b.start_date) && not (eqb date b.end_date)
    then some (day date ∷ [])
    else process_bounds g date (get_time_bounds (eqb date b.start_date) (eqb date b.end_date) b)

-- The loop of `generate_prefixes`, by the number of dates that are left.
unfoldable pub process_dates : ℕ → TimeBounds → ℕ → ℕ → Option (List Prefix)
unfolding process_date
process_dates g b zero date = some []
process_dates g b (suc rounds) date = do
  here ← process_date g b date
  later ← process_dates g b rounds (date + 1)
  some (here ++ later)

unfoldable pub generate_prefixes : TimeRange → ℕ → Option (List Prefix)
unfolding calculate_time_bounds process_dates
generate_prefixes r g =
    let b = calculate_time_bounds r in
    process_dates g b (b.end_date + 1 - b.start_date) b.start_date

-- `granularity_range`: the block of minutes that holds a timestamp; `none` is the panic of a
-- division by zero.
unfoldable pub granularity_range : ℕ → ℕ → Option TimeRange
unfolding div
granularity_range timestamp g = do
  block_n ← div (minute_of timestamp) g
  some (record {
    start = (timestamp / hour_ns * 60 + block_n * g) * minute_ns;
    end = (timestamp / hour_ns * 60 + block_n * g) * minute_ns + g * minute_ns;
  })
