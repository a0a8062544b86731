-- ===== src/Scheduler.antt =====
-- src/Scheduler.cpp: the two priority queues of schedules and the wake-up. A queue holds the numbers
-- of the Activities whose schedules are linked; `start_of` gives the next start of each. ProcessQueue and
-- DequeueAndUpdateTimeout, which tell the Activities, stand in Manager.Timing.
pub mod Order
pub mod Wakeup
use activitymanager.Prelude.{
  ℕ, Bool, true, false, not, ◌&&◌, ◌||◌, Option, none, some, List, [], ◌∷◌, is_empty, if◌then◌else◌,
}
use activitymanager.Prelude.Int.{ℤ, pos, ◌+ℤ◌, ◌-ℤ◌, ltb_ℤ, eqb_ℤ}

pub record Scheduler : Type 0 where
  pub queue : List ℕ
  pub local_queue : List ℕ
  pub next_wakeup : ℤ
  pub wake_scheduled : Bool
  pub local_offset_set : Bool
  pub local_offset : ℤ
  pub smart_base : ℤ

unfoldable pub new_scheduler : ℤ → Scheduler
new_scheduler smart_base = record {
  queue = [];
  local_queue = [];
  next_wakeup = pos 0;
  wake_scheduled = false;
  local_offset_set = false;
  local_offset = pos 0;
  smart_base = smart_base;
}

module _ (start_of : ℕ → ℤ) where
  -- Insertion in the multiset: behind what starts no later.
  unfoldable pub insert : ℕ → List ℕ → List ℕ
  insert i [] = i ∷ []
  insert i (j ∷ q) =
      let rest = insert i q in if ltb_ℤ (start_of i) (start_of j) then i ∷ j ∷ q else j ∷ rest

  -- The loop of ReQueue, over the items in the order in which it takes them.
  unfoldable pub insert_all : List ℕ → List ℕ → List ℕ
  insert_all [] q = q
  insert_all (i ∷ is) q = insert_all is (insert i q)

  abbrev head_start : ℤ → List ℕ → Option ℤ
  head_start offset [] = none
  head_start offset (i ∷ q) = some (start_of i -ℤ offset)

  abbrev earlier : Option ℤ → Option ℤ → Option ℤ
  earlier none none = none
  earlier none (some l) = some l
  earlier (some g) none = some g
  earlier (some g) (some l) = some (if ltb_ℤ g l then g else l)

  -- GetNextStartTime; `none` where it throws.
  unfoldable pub get_next_start_time : Scheduler → Option ℤ
  get_next_start_time s =
      earlier (head_start (pos 0) s.queue)
        (if s.local_offset_set then head_start s.local_offset s.local_queue else none)

-- No item can be dequeued: there is none, or only local ones while the offset is not known.
unfoldable pub is_idle : Scheduler → Bool
is_idle s = is_empty s.queue && (not s.local_offset_set || is_empty s.local_queue)

-- CancelTimeout, if one was set.
unfoldable pub cancel_wake : Scheduler → Scheduler
cancel_wake s = record s { wake_scheduled = false }

-- The end of DequeueAndUpdateTimeout: the wake-up is moved to the next start, or cancelled.
abbrev pub set_wake : Option ℤ → Scheduler → Scheduler
set_wake none s = s
set_wake (some t) s =
    if not s.wake_scheduled || not (eqb_ℤ t s.next_wakeup)
    then record s { next_wakeup = t; wake_scheduled = true }
    else s

unfoldable pub update_wake : (ℕ → ℤ) → Scheduler → Scheduler
unfolding is_idle cancel_wake get_next_start_time
update_wake start_of s =
    if is_idle s then cancel_wake s else set_wake (get_next_start_time start_of s) s
