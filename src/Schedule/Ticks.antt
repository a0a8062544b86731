-- ===== src/Schedule/Ticks.antt =====
-- Where the scheduling points lie: IntervalSchedule::CalcNextStartTime.
use activitymanager.Prelude.{
  ℕ, ◌+◌, ◌*◌, ◌≤◌, ◌<◌, ◌≡◌, refl, ◌≢◌, inl, inr, true, not, if◌then◌else◌, ◌&&◌, arith, ◌/◌,
  Bool-cases, dec_lt,
}
use activitymanager.Prelude.Int.{
  ℤ, pos, pos_part, ◌+ℤ◌, ◌-ℤ◌, ◌≤ℤ◌, ◌<ℤ◌, ltb_ℤ, ltb_ℤ_iff, eqb_ℤ_iff, one_sided, +ℤ_parts,
  -ℤ_parts,
}
use activitymanager.Schedule.{
  Schedule, Kind, next_tick, slipped, calc_next_start_time, get_next_start_time,
  get_base_start_time, never, inform_activity_finished,
}

-- A tick is a whole number of intervals after the start.
pub next_tick_aligned :
    (start : ℤ) (secs : ℕ) (now : ℤ)
    → (k : ℕ) × (next_tick start secs now ≡ start +ℤ pos (k * secs))
unfolding next_tick ◌+ℤ◌
next_tick_aligned start secs now = elim (Bool-cases (ltb_ℤ start now)) [
  | inl late ↦ (pos_part (now -ℤ start) / secs + 1, rw late refl)
  | inr early ↦ (0, rw early (ground arith))
]

round_up_bounds : (d s : ℕ) → 0 < s → (d < (d / s + 1) * s) × ((d / s + 1) * s ≤ d + s)
round_up_bounds d s h = grind arith

-- Once the start has passed, the tick is strictly after `now` and at most one interval away.
pub next_tick_bounds :
    (start : ℤ) (secs : ℕ) (now : ℤ)
    → 0 < secs
    → ltb_ℤ start now ≡ true
    → (now <ℤ next_tick start secs now) × (next_tick start secs now ≤ℤ now +ℤ pos secs)
unfolding next_tick
next_tick_bounds start secs now h late = rw late (
    omega (
      arith,
      (ltb_ℤ_iff start now).0 late,
      round_up_bounds (pos_part (now -ℤ start)) secs h,
      -ℤ_parts now start,
      one_sided (now -ℤ start),
      +ℤ_parts start (pos ((pos_part (now -ℤ start) / secs + 1) * secs)),
      +ℤ_parts now (pos secs),
    ))

-- The same as a lower bound that holds at every start.
next_tick-le : (start : ℤ) (secs : ℕ) (now : ℤ) → 0 < secs → now ≤ℤ next_tick start secs now
unfolding next_tick
next_tick-le start secs now h = elim (Bool-cases (ltb_ℤ start now)) [
  | inl late ↦ omega (arith, next_tick_bounds start secs now h late)
  | inr early ↦ rw (early) (ground (arith, ltb_ℤ_iff start now))
]

-- No earlier scheduling point lies after `now`.
abbrev pub FirstAfter : ℤ → ℕ → ℤ → ℤ → Type 0
FirstAfter start secs now t =
    (k : ℕ) → now <ℤ start +ℤ pos (k * secs) → t ≤ℤ start +ℤ pos (k * secs)

mul_mono_left : (a b s : ℕ) → a ≤ b → a * s ≤ b * s
mul_mono_left a b s h = grind arith

multiple_above : (d s k : ℕ) → 0 < s → d < k * s → (d / s + 1) * s ≤ k * s
multiple_above d s k h p = elim (dec_lt (d / s) k) [
  | yes below ↦ mul_mono_left (d / s + 1) k s (omega arith)
  | no above ↦
      absurd (omega (arith, mul_mono_left k (d / s) s (omega arith), round_up_bounds d s h))
]

late_first :
    (start : ℤ) (secs : ℕ) (now : ℤ) (k : ℕ)
    → 0 < secs
    → start <ℤ now
    → now <ℤ start +ℤ pos (k * secs)
    → start +ℤ pos ((pos_part (now -ℤ start) / secs + 1) * secs) ≤ℤ start +ℤ pos (k * secs)
late_first start secs now k h late p = omega (
  arith,
  multiple_above (pos_part (now -ℤ start)) secs k h (
      omega (arith, -ℤ_parts now start, one_sided (now -ℤ start), +ℤ_parts start (pos (k * secs)))),
  +ℤ_parts start (pos ((pos_part (now -ℤ start) / secs + 1) * secs)),
  +ℤ_parts start (pos (k * secs)),
)

next_tick_first :
    (start : ℤ) (secs : ℕ) (now : ℤ)
    → 0 < secs
    → FirstAfter start secs now (next_tick start secs now)
unfolding next_tick
next_tick_first start secs now h k p = elim (Bool-cases (ltb_ℤ start now)) [
  | inl late ↦ rw late (late_first start secs now k h ((ltb_ℤ_iff start now).0 late) p)
  | inr early ↦ rw (early) (omega (arith, +ℤ_parts start (pos (k * secs))))
]

module _ (smart_base now : ℤ) (s : Schedule) (interval : s.kind ≢ Kind.once)
    (nonzero : 0 < s.interval_secs) where
  abbrev tick : ℤ
  tick = next_tick (get_base_start_time smart_base s) s.interval_secs now

  calc_lem :
      get_next_start_time (calc_next_start_time smart_base now s)
      ≡ (if not s.skip && slipped s tick then now else tick)
  unfolding get_next_start_time calc_next_start_time
  calc_lem = ground arith

  -- The next start of an interval schedule is never in the past.
  pub calc_next_start_time_bounds :
      now ≤ℤ get_next_start_time (calc_next_start_time smart_base now s)
  calc_next_start_time_bounds =
      rw calc_lem
        (ground (arith, next_tick-le (get_base_start_time smart_base s) s.interval_secs now))

-- An interval schedule that skips missed runs starts next at a scheduling point: a whole number of
-- intervals after its base, not before `now`; and no such point that lies after `now` is earlier.
pub calc_next_start_time-skip :
    (smart_base now : ℤ) (s : Schedule)
    → s.kind ≢ Kind.once
    → 0 < s.interval_secs
    → s.skip ≡ true
    → let next = get_next_start_time (calc_next_start_time smart_base now s) in
      let base = get_base_start_time smart_base s in
      ((k : ℕ) × (next ≡ base +ℤ pos (k * s.interval_secs)))
      × (now ≤ℤ next)
      × FirstAfter base s.interval_secs now next
calc_next_start_time-skip smart_base now s interval nonzero skip =
    rw (calc_lem smart_base now s interval nonzero, skip)
      (next_tick_aligned _ _ now, next_tick-le _ _ now nonzero, next_tick_first _ _ now nonzero)

-- A relative schedule that is asked for its next start in the second in which its run finished is
-- due in that same second: the interval is not waited for.
pub relative_due_at_once :
    (smart_base now : ℤ) (s : Schedule)
    → s.kind ≡ Kind.relative
    → s.start <ℤ now
    → now ≢ never
    → get_next_start_time (calc_next_start_time smart_base now (inform_activity_finished now s))
      ≡ now
unfolding get_next_start_time calc_next_start_time inform_activity_finished next_tick slipped
    get_base_start_time
relative_due_at_once smart_base now s relative started valid =
    ground (arith, eqb_ℤ_iff now never, -ℤ_parts now s.start, ltb_ℤ_iff (pos 0) (now -ℤ s.start))
