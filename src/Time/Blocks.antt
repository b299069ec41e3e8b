-- ===== src/Time/Blocks.antt =====
-- utils/time.rs: the prefixes of one hour. `minutes` are those of the hour, from 0 to 59.
use parseable.Prelude.{
  ℕ, zero, suc, ◌+◌, ◌-◌, ◌*◌, ◌/◌, ◌%◌, ◌≤◌, ◌<◌, ◌≡◌, refl, sym, subst, Option, some, List, [],
  ◌∷◌, ◌++◌, eqb, leb, ltb, if◌then◌else◌, In, here, In-append_left, In-append_right, Bool-cases,
  arith, ◌⊎◌, inl, inr, eqb_iff, ltb→lt,
}
use parseable.Time.{
  Prefix, day, hour, minute, Slot, push_prefix, push_blocks, generate_minute_prefixes, sub,
  process_blocks,
}
use parseable.Time.Granularity.{block-mul-div, block-le, lt-block_end, div_mono, div-le_self}

-- The minutes that a prefix holds: a date, an hour of it and a minute of that.
abbrev pub Holds : Prefix → ℕ → ℕ → ℕ → Type 0
Holds (day d) date h m = d ≡ date
Holds (hour d k) date h m = (d ≡ date) × (k ≡ h)
Holds (minute d k s) date h m = (d ≡ date) × (k ≡ h) × (s.first ≤ m) × (m ≤ s.last)

abbrev pub Held : List Prefix → ℕ → ℕ → ℕ → Type 0
Held ps date h m = (p : Prefix) × In p ps × Holds p date h m

-- A run that does not panic, with what it returns.
abbrev pub Returns : Option (List Prefix) → (List Prefix → Type 0) → Type 0
Returns o P = (ps : List Prefix) × (o ≡ some ps) × P ps

pub sub-eq : (a b : ℕ) → b ≤ a → a ≤ 60 → sub a b ≡ a - b
unfolding sub
sub-eq a b le le60 = omega arith

module _ (g : ℕ) (g_pos : 0 < g) (divides : 60 % g ≡ 0) (date h : ℕ) where
  abbrev slot : ℕ → Slot
  slot b = record { first = b * g; last = (b + 1) * g - 1 }

  push_prefix_within :
      (b : ℕ) → b * g < 60 → push_prefix g date h b ≡ some (minute date h (slot b) ∷ [])
  unfolding push_prefix
  push_prefix_within b lt = ground (arith, block-mul-div g g_pos b)

  push_prefix_beyond : (b : ℕ) → 60 ≤ b * g → push_prefix g date h b ≡ some []
  unfolding push_prefix
  push_prefix_beyond b le = ground arith

  push_prefix_lem :
      (b : ℕ) → Returns (push_prefix g date h b) (λ ps. b * g < 60 → In (minute date h (slot b)) ps)
  push_prefix_lem b = elim (Bool-cases (ltb (b * g) 60)) [
    | inl e ↦ (minute date h (slot b) ∷ [], push_prefix_within b (ltb→lt _ _ e), λ lt. here refl)
    | inr e ↦ ([], push_prefix_beyond b (ground arith), λ lt. absurd (ground arith))
  ]

  push_blocks_lem :
      (rounds start : ℕ)
      → Returns (push_blocks g date h rounds start) (λ ps.
        (b : ℕ) → start ≤ b → b < start + rounds → b * g < 60 → In (minute date h (slot b)) ps)
  unfolding push_blocks
  push_blocks_lem zero start = ([], refl, λ b le lt in_hour. absurd (omega arith))
  push_blocks_lem (suc rounds) start =
      let (ps, e, first) = push_prefix_lem start in
      let (qs, f, rest) = push_blocks_lem rounds (start + 1) in
      (
        ps ++ qs,
        rw (e, f) refl,
        λ b le lt in_hour. elim (Bool-cases (eqb b start)) [
          | inl same ↦
              let eq : b ≡ start = (eqb_iff b start).0 same in
              In-append_left _ ps qs
                (subst (λ c. In (minute date h (slot c)) ps) (sym eq) (first (ground arith)))
          | inr differ ↦ In-append_right _ ps qs (rest b (ground arith) (ground arith) in_hour)
        ],
      )

  -- The end of the loop over blocks: the last block is pushed where a block has several minutes.
  last_lem :
      (end_block : ℕ)
      → Returns
          (if ltb 1 g then push_prefix g date h end_block else some [])
          (λ ps. 1 < g → end_block * g < 60 → In (minute date h (slot end_block)) ps)
  last_lem end_block = elim (Bool-cases (ltb 1 g)) [
    | inl e ↦ let (qs, f, m) = push_prefix_lem end_block in (qs, rw e f, λ _ lt. m lt)
    | inr e ↦ ([], rw e refl, λ lt _. absurd (ground arith))
  ]

  -- A block that is pushed: one of the loop, or the last one.
  abbrev IsPushed : ℕ → ℕ → ℕ → Type 0
  IsPushed start_block end_block b =
      (start_block ≤ b) × ((b < end_block) ⊎ ((1 < g) × (b ≤ end_block))) × (b * g < 60)

  generate_minute_prefixes_lem :
      (start_block end_block : ℕ)
      → Returns
          (generate_minute_prefixes g date h start_block end_block)
          (λ ps. (b : ℕ) → IsPushed start_block end_block b → In (minute date h (slot b)) ps)
  unfolding generate_minute_prefixes
  generate_minute_prefixes_lem start_block end_block =
      let (ps, e, loop) = push_blocks_lem (end_block - start_block) start_block in
      let (qs, f, last) = last_lem end_block in
      (
        ps ++ qs,
        rw (e, f) refl,
        λ b pushed. elim (Bool-cases (ltb b end_block)) [
          | inl e ↦ In-append_left _ ps qs (loop b pushed.0 (ground arith) pushed.2)
          | inr e ↦
              let eq : b ≡ end_block = ground arith in
              In-append_right _ ps qs (
                subst (λ c. In (minute date h (slot c)) qs) (sym eq)
                  (last (ground arith) (subst (λ c. c * g < 60) eq pushed.2)))
        ],
      )

  block-Holds : (m : ℕ) → Holds (minute date h (slot (m / g))) date h m
  block-Holds m = (refl, refl, block-le g g_pos m, omega (arith, lt-block_end g g_pos m))

  module _ (start_minute end_minute : ℕ) (le : start_minute ≤ end_minute)
      (le60 : end_minute ≤ 60) where
    IsPushed-block :
        (m : ℕ)
        → start_minute ≤ m
        → m < end_minute
        → IsPushed (start_minute / g) (end_minute / g) (m / g)
    IsPushed-block m from to = (
      div_mono g g_pos start_minute m from,
      elim (Bool-cases (ltb 1 g)) [
        | inl e ↦ inr (ltb→lt 1 g e, div_mono g g_pos m end_minute (omega arith))
        | inr e ↦
            let eq : g ≡ 1 = ground arith in
            inl (subst (λ c. m / c < end_minute / c) (sym eq) (omega arith))
      ],
      omega (arith, block-le g g_pos m),
    )

    -- With the divisions and the difference carried out.
    process_blocks-eq : process_blocks g date h start_minute end_minute ≡ (
        if eqb start_minute end_minute
        then some []
        else if leb (60 / g) (end_minute / g - start_minute / g)
        then some (hour date h ∷ [])
        else generate_minute_prefixes g date h (start_minute / g) (end_minute / g))
    unfolding process_blocks
    process_blocks-eq = ground (
      arith,
      sub-eq (end_minute / g) (start_minute / g) (div_mono g g_pos start_minute end_minute le)
          (omega (arith, div-le_self g g_pos end_minute)),
    )

    -- The minutes of the range are held by what is pushed for the hour.
    pub process_blocks_lem :
        Returns
          (process_blocks g date h start_minute end_minute)
          (λ ps. (m : ℕ) → start_minute ≤ m → m < end_minute → Held ps date h m)
    process_blocks_lem = elim (Bool-cases (eqb start_minute end_minute)) [
      | inl e ↦ (
        [],
        rw (process_blocks-eq, e) refl,
        λ m from to. absurd (omega (arith, (eqb_iff start_minute end_minute).0 e)),
      )
      | inr e ↦ elim (Bool-cases (leb (60 / g) (end_minute / g - start_minute / g))) [
        | inl all_blocks ↦ (
          hour date h ∷ [],
          rw (process_blocks-eq, e, all_blocks) refl,
          λ m from to. (hour date h, here refl, (refl, refl)),
        )
        | inr some_blocks ↦
            let (ps, f, m_in) = generate_minute_prefixes_lem (start_minute / g) (end_minute / g) in
            (
              ps,
              rw (process_blocks-eq, e, some_blocks) f,
              λ m from to. (
                minute date h (slot (m / g)),
                m_in (m / g) (IsPushed-block m from to),
                block-Holds m,
              ),
            )
      ]
    ]
