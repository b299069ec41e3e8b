-- ===== src/Time/Coverage.antt =====
-- utils/time.rs, `generate_prefixes`: the prefixes of a range hold every instant of it.
use parseable.Prelude.{
  ℕ, zero, suc, ◌+◌, ◌-◌, ◌*◌, ◌%◌, ◌≤◌, ◌<◌, ◌≡◌, refl, sym, subst, not, ◌&&◌, List, [], ◌∷◌, ◌++◌,
  eqb, if◌then◌else◌, here, In-append_left, In-append_right, Bool-cases, arith, inl, inr, eqb_iff,
}
use parseable.Time.{
  Prefix, day, hour, TimeRange, TimeBounds, date_of, hour_of, minute_of, calculate_time_bounds,
  spans_full_day, process_minutes, process_hour, process_hours, get_time_bounds, process_bounds,
  process_date, process_dates, generate_prefixes,
}
use parseable.Time.Blocks.{Held, Returns, process_blocks_lem}

-- The bounds of one date, in order.
pub record IsOrdered (b : TimeBounds) : Type 0 where
  pub hours : b.start_hour ≤ b.end_hour
  pub end_hour : b.end_hour ≤ 24
  pub minutes : b.start_hour * 60 + b.start_minute ≤ b.end_hour * 60 + b.end_minute
  pub start_minute : b.start_minute < 60
  pub end_minute : b.end_minute ≤ 60

-- A minute of the day that lies within the bounds of its date.
abbrev pub IsWithin : TimeBounds → ℕ → ℕ → Type 0
IsWithin b h m =
    (b.start_hour * 60 + b.start_minute ≤ h * 60 + m)
    × (h * 60 + m < b.end_hour * 60 + b.end_minute)
    × (h < 24)
    × (m < 60)

-- What is pushed holds the minutes of hour `h` that lie within the bounds.
abbrev HoldsHour : TimeBounds → ℕ → ℕ → List Prefix → Type 0
HoldsHour b date h ps = (m : ℕ) → IsWithin b h m → Held ps date h m

Held-append_left :
    (ps qs : List Prefix) (date h m : ℕ) → Held ps date h m → Held (ps ++ qs) date h m
Held-append_left ps qs date h m (p, i, k) = (p, In-append_left p ps qs i, k)

Held-append_right :
    (ps qs : List Prefix) (date h m : ℕ) → Held qs date h m → Held (ps ++ qs) date h m
Held-append_right ps qs date h m (p, i, k) = (p, In-append_right p ps qs i, k)

module _ (g : ℕ) (g_pos : 0 < g) (divides : 60 % g ≡ 0) where
  module _ (date : ℕ) (b : TimeBounds) (ordered : IsOrdered b) where
    process_minutes_lem :
        (h : ℕ)
        → b.start_hour ≤ h
        → h ≤ b.end_hour
        → Returns
            (process_minutes g date h (eqb h b.start_hour) (eqb h b.end_hour) b)
            (HoldsHour b date h)
    unfolding process_minutes
    process_minutes_lem h from to =
        let (ps, e, k) =
          process_blocks_lem g g_pos divides date h
            (if eqb h b.start_hour then b.start_minute else 0)
            (if eqb h b.end_hour then b.end_minute else 60) (ground arith) (ground arith) in
        (ps, e, λ m within. k m (ground arith) (ground arith))

    process_hour_lem :
        (h : ℕ)
        → b.start_hour ≤ h
        → h ≤ b.end_hour
        → Returns (process_hour g date b h) (HoldsHour b date h)
    unfolding process_hour
    process_hour_lem h from to =
        elim (Bool-cases (not (eqb h b.start_hour) && not (eqb h b.end_hour))) [
          | inl e ↦ (hour date h ∷ [], rw e refl, λ m _. (hour date h, here refl, (refl, refl)))
          | inr e ↦ rw e (process_minutes_lem h from to)
        ]

    process_hours_lem :
        (rounds h : ℕ)
        → b.start_hour ≤ h
        → h + rounds ≤ b.end_hour + 1
        → Returns
            (process_hours g date b rounds h)
            (λ ps. (k : ℕ) → h ≤ k → k < h + rounds → HoldsHour b date k ps)
    unfolding process_hours
    process_hours_lem zero h from to = ([], refl, λ k le lt m within. absurd (omega arith))
    process_hours_lem (suc rounds) h from to = elim (Bool-cases (eqb h 24)) [
      | inl e ↦ ([], rw e refl, λ k le lt m within. absurd (omega (arith, (eqb_iff h 24).0 e)))
      | inr e ↦
          let (ps, e1, first) = process_hour_lem h from (omega arith) in
          let (qs, e2, rest) = process_hours_lem rounds (h + 1) (omega arith) (omega arith) in
          (
            ps ++ qs,
            rw (e, e1, e2) refl,
            λ k le lt m within. elim (Bool-cases (eqb k h)) [
              | inl same ↦
                  let eq : k ≡ h = (eqb_iff k h).0 same in
                  Held-append_left ps qs date k m
                    (subst (λ c. HoldsHour b date c ps) (sym eq) first m within)
              | inr differ ↦
                  Held-append_right ps qs date k m (rest k (ground arith) (omega arith) m within)
            ],
          )
    ]

    process_bounds_lem : Returns (process_bounds g date b) (λ ps. (h : ℕ) → HoldsHour b date h ps)
    unfolding process_bounds
    process_bounds_lem = elim (Bool-cases (spans_full_day b)) [
      | inl e ↦ (day date ∷ [], rw e refl, λ h m _. (day date, here refl, refl))
      | inr e ↦
          let (ps, f, k) =
            process_hours_lem (b.end_hour + 1 - b.start_hour) b.start_hour (omega arith)
              (omega (arith, ordered.hours)) in
          (
            ps,
            rw e f,
            λ h m within.
                k h (omega (arith, ordered.start_minute))
                  (omega (arith, ordered.end_minute, ordered.hours)) m within,
          )
    ]

  -- An instant lies at minute `m` of hour `h` of `date`, between the bounds of a range.
  record IsBetween (b : TimeBounds) (date h m : ℕ) : Type 0 where
    hour : h < 24
    minute : m < 60
    from_date : b.start_date ≤ date
    to_date : date ≤ b.end_date
    from : date ≡ b.start_date → b.start_hour * 60 + b.start_minute ≤ h * 60 + m
    to : date ≡ b.end_date → h * 60 + m < b.end_hour * 60 + b.end_minute

  -- The bounds of a range whose start is not after its end.
  record IsRange (b : TimeBounds) : Type 0 where
    start_hour : b.start_hour < 24
    start_minute : b.start_minute < 60
    end_hour : b.end_hour < 24
    end_minute : b.end_minute ≤ 60
    hours : b.start_date ≡ b.end_date → b.start_hour ≤ b.end_hour
    minutes :
        b.start_date ≡ b.end_date
        → b.start_hour * 60 + b.start_minute ≤ b.end_hour * 60 + b.end_minute

  module _ (b : TimeBounds) (range : IsRange b) where
    bounds-IsOrdered :
        (date : ℕ) → IsOrdered (get_time_bounds (eqb date b.start_date) (eqb date b.end_date) b)
    unfolding get_time_bounds
    bounds-IsOrdered date = record {
      hours = ground (arith, range.hours);
      end_hour = ground (arith, range.end_hour);
      minutes = ground (arith, range.minutes, range.start_hour, range.start_minute);
      start_minute = ground (arith, range.start_minute);
      end_minute = ground (arith, range.end_minute);
    }

    IsWithin-bounds :
        (date h m : ℕ)
        → IsBetween b date h m
        → IsWithin (get_time_bounds (eqb date b.start_date) (eqb date b.end_date) b) h m
    unfolding get_time_bounds
    IsWithin-bounds date h m i =
        (ground (arith, i.from), ground (arith, i.to, i.hour, i.minute), i.hour, i.minute)

    process_date_lem :
        (date : ℕ)
        → Returns
            (process_date g b date)
            (λ ps. (h m : ℕ) → IsBetween b date h m → Held ps date h m)
    unfolding process_date
    process_date_lem date =
        elim (Bool-cases (not (eqb date b.start_date) && not (eqb date b.end_date))) [
          | inl e ↦ (day date ∷ [], rw e refl, λ h m _. (day date, here refl, refl))
          | inr e ↦
              let (ps, f, k) = process_bounds_lem date _ (bounds-IsOrdered date) in
              (ps, rw e f, λ h m i. k h m (IsWithin-bounds date h m i))
        ]

    process_dates_lem :
        (rounds date : ℕ)
        → Returns
            (process_dates g b rounds date)
            (λ ps. (d h m : ℕ) → date ≤ d → d < date + rounds → IsBetween b d h m → Held ps d h m)
    unfolding process_dates
    process_dates_lem zero date = ([], refl, λ d h m le lt i. absurd (omega arith))
    process_dates_lem (suc rounds) date =
        let (ps, e1, first) = process_date_lem date in
        let (qs, e2, rest) = process_dates_lem rounds (date + 1) in
        (
          ps ++ qs,
          rw (e1, e2) refl,
          λ d h m le lt i. elim (Bool-cases (eqb d date)) [
            | inl same ↦
                let eq : d ≡ date = (eqb_iff d date).0 same in
                Held-append_left ps qs d h m
                  (subst (λ c. IsBetween b c h m → Held ps c h m) (sym eq) (first h m) i)
            | inr differ ↦ Held-append_right ps qs d h m (rest d h m (ground arith) (omega arith) i)
          ],
        )

  module _ (r : TimeRange) (in_order : r.start ≤ r.end) where
    calculate_time_bounds-IsRange : IsRange (calculate_time_bounds r)
    unfolding calculate_time_bounds
    calculate_time_bounds-IsRange = record {
      start_hour = omega arith;
      start_minute = omega arith;
      end_hour = omega arith;
      end_minute = ground arith;
      hours = λ e. omega arith;
      minutes = λ e. ground arith;
    }

    instant-IsBetween :
        (t : ℕ)
        → r.end % 1_000_000_000 ≡ 0
        → r.start ≤ t
        → t < r.end
        → IsBetween (calculate_time_bounds r) (date_of t) (hour_of t) (minute_of t)
    unfolding calculate_time_bounds
    instant-IsBetween t whole from to = record {
      hour = omega arith;
      minute = omega arith;
      from_date = omega arith;
      to_date = omega arith;
      from = λ e. omega arith;
      to = λ e. ground arith;
    }

    covers :
        r.end % 1_000_000_000 ≡ 0
        → Returns (generate_prefixes r g) (λ ps.
          (t : ℕ) → r.start ≤ t → t < r.end → Held ps (date_of t) (hour_of t) (minute_of t))
    unfolding generate_prefixes
    covers whole =
        let b = calculate_time_bounds r in
        let (ps, e, k) =
          process_dates_lem b calculate_time_bounds-IsRange (b.end_date + 1 - b.start_date)
            b.start_date in
        (
          ps,
          e,
          λ t from to.
              let i = instant-IsBetween t whole from to in
              k (date_of t) (hour_of t) (minute_of t) i.from_date
                (omega (arith, i.to_date, i.from_date)) i,
        )

-- For a granularity that divides the hour, and a range in order that ends on a whole second,
-- `generate_prefixes` does not panic and its prefixes hold every instant of the range.
pub generate_prefixes_covers :
    (r : TimeRange) (g : ℕ)
    → 0 < g
    → 60 % g ≡ 0
    → r.start ≤ r.end
    → r.end % 1_000_000_000 ≡ 0
    → Returns
        (generate_prefixes r g)
        (λ ps. (t : ℕ) → r.start ≤ t → t < r.end → Held ps (date_of t) (hour_of t) (minute_of t))
generate_prefixes_covers r g g_pos divides in_order whole = covers g g_pos divides r in_order whole
