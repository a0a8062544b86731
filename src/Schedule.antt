-- ===== src/Schedule.antt =====
-- src/Schedule.cpp and src/IntervalSchedule.cpp: when a scheduled Activity is next to run.
-- A schedule object is a record with the fields of all four classes; `kind` tells the class.
-- `time_t` is an unbounded integer, `unsigned` a number below 2 ^ 32 with its cast written out.
-- What the object asks of the Scheduler and of the clock is an argument: `now` is the result of
-- GetTime(), `smart_base` that of GetSmartBaseTime().
pub mod Ticks
pub mod Reschedule
pub mod Duration
use activitymanager.Prelude.{
  ℕ, suc, ◌+◌, ◌-◌, ◌*◌, ◌/◌, ◌%◌, Bool, true, false, not, ◌&&◌, ltb, if◌then◌else◌,
}
use activitymanager.Prelude.Int.{ℤ, pos, negsuc, pos_part, ◌+ℤ◌, ◌-ℤ◌, ltb_ℤ, eqb_ℤ}

pub data Kind : Type 0 where
  once interval precise relative : Kind

pub record Schedule : Type 0 where
  pub kind : Kind
  pub start : ℤ
  pub local : Bool
  pub scheduled : Bool
  pub end : ℤ
  pub interval_secs : ℕ
  pub skip : Bool
  pub next_start : ℤ
  pub last_finished : ℤ

-- Schedule::DAY_ONE, UNBOUNDED and NEVER.
abbrev pub day_one : ℤ
day_one = pos 86400

abbrev pub unbounded : ℤ
unbounded = negsuc 0

abbrev pub never : ℤ
never = negsuc 0

abbrev pub u32_mod : ℕ
u32_mod = 4294967296

-- The cast `(unsigned)x` of a `time_t`.
abbrev pub to_unsigned : ℤ → ℕ
to_unsigned (pos n) = n % u32_mod
to_unsigned (negsuc n) = u32_mod - 1 - n % u32_mod

-- The constructors: a Schedule, and the three classes of interval schedules. The constructor of
-- IntervalSchedule leaves m_nextStart unset, so its value is an argument.
pub new_schedule : ℤ → Schedule
new_schedule start = record {
  kind = Kind.once;
  start = start;
  local = false;
  scheduled = false;
  end = unbounded;
  interval_secs = 0;
  skip = false;
  next_start = start;
  last_finished = never;
}

pub new_interval_schedule : Kind → ℤ → ℕ → ℤ → ℤ → Schedule
new_interval_schedule kind start secs end garbage = record {
  kind = kind;
  start = start;
  local = false;
  scheduled = false;
  end = end;
  interval_secs = secs;
  skip = false;
  next_start = garbage;
  last_finished = never;
}

-- GetBaseStartTime, by class; a plain Schedule has none, and this case is not used.
abbrev base_start_of : Kind → ℤ → Schedule → ℤ
base_start_of Kind.once smart_base s = s.start
base_start_of Kind.interval smart_base s = smart_base
base_start_of Kind.precise smart_base s = s.start
base_start_of Kind.relative smart_base s =
    if eqb_ℤ s.last_finished never then s.start else s.last_finished

unfoldable pub get_base_start_time : ℤ → Schedule → ℤ
get_base_start_time smart_base s = base_start_of s.kind smart_base s

-- The next scheduling point after `now`, at a multiple of the interval from `start`.
unfoldable pub next_tick : ℤ → ℕ → ℤ → ℤ
next_tick start secs now =
    if ltb_ℤ start now then start +ℤ pos ((pos_part (now -ℤ start) / secs + 1) * secs) else start

-- Whether the schedule slipped: a tick was missed since the start, or since the last run.
unfoldable pub slipped : Schedule → ℤ → Bool
slipped s next =
    if eqb_ℤ s.last_finished never
    then not (eqb_ℤ s.start day_one) && ltb s.interval_secs (to_unsigned (next -ℤ s.start))
    else ltb_ℤ (pos 0) (next -ℤ s.last_finished)
      && ltb s.interval_secs (to_unsigned (next -ℤ s.last_finished))

abbrev calc_of : Kind → ℤ → ℤ → Schedule → Schedule
calc_of Kind.once smart_base now s = s
calc_of _ smart_base now s =
    let next = next_tick (get_base_start_time smart_base s) s.interval_secs now in
    record s { next_start = if not s.skip && slipped s next then now else next }

-- CalcNextStartTime.
unfoldable pub calc_next_start_time : ℤ → ℤ → Schedule → Schedule
calc_next_start_time smart_base now s = calc_of s.kind smart_base now s

abbrev next_start_of : Kind → Schedule → ℤ
next_start_of Kind.once s = s.start
next_start_of _ s = s.next_start

-- GetNextStartTime.
unfoldable pub get_next_start_time : Schedule → ℤ
get_next_start_time s = next_start_of s.kind s

-- GetTime: the clock, moved to local time for a local schedule.
unfoldable pub get_time : ℤ → ℤ → Schedule → ℤ
get_time clock local_offset s = if s.local then clock +ℤ local_offset else clock

-- SetLastFinishedTime.
unfoldable pub set_last_finished_time : ℤ → ℤ → Schedule → Schedule
set_last_finished_time now finished s =
    if ltb_ℤ (pos 0) (now -ℤ finished) && ltb_ℤ (pos 0) (finished -ℤ s.start)
    then record s { last_finished = finished }
    else s

abbrev finished_of : Kind → ℤ → Schedule → Schedule
finished_of Kind.once now s = s
finished_of _ now s = if ltb_ℤ (pos 0) (now -ℤ s.start) then record s { last_finished = now } else s

-- InformActivityFinished.
unfoldable pub inform_activity_finished : ℤ → Schedule → Schedule
inform_activity_finished now s = finished_of s.kind now s

abbrev reschedule_of : Kind → Schedule → Bool
reschedule_of Kind.once s = false
reschedule_of _ s =
    if eqb_ℤ s.end unbounded
    then true
    else ltb s.interval_secs (to_unsigned (s.end -ℤ s.next_start))

-- ShouldReschedule.
unfoldable pub should_reschedule : Schedule → Bool
should_reschedule s = reschedule_of s.kind s
