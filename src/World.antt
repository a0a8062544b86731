-- ===== src/World.antt =====
-- The state that the handlers of src/ActivityManager.cpp, src/Activity.cpp and src/Scheduler.cpp share,
-- and the actions on it. A handler that throws leaves what it has written, so an action returns
-- the world beside its error too.
pub mod Keeps
pub mod Returns
use activitymanager.Prelude.{
  ℕ, ◌+◌, Bool, true, false, ◌&&◌, ◌||◌, Option, none, some, List, [], ◌∷◌, ◌++◌, contains, remove,
  if◌then◌else◌, ◌==◌,
}
use activitymanager.Prelude.Int.{ℤ}
use activitymanager.Types.{BusId}
use activitymanager.Activity.{Activity}
use activitymanager.Scheduler.{Scheduler}

-- RunQueueId.
pub data QueueId : Type 0 where
  initialized scheduled ready ready_interactive background : QueueId
  background_interactive long_background immediate ended : QueueId

abbrev pub queue_code : QueueId → ℕ
queue_code initialized = 0
queue_code scheduled = 1
queue_code ready = 2
queue_code ready_interactive = 3
queue_code background = 4
queue_code background_interactive = 5
queue_code long_background = 6
queue_code immediate = 7
queue_code ended = 8

-- Calls of the parts that are not modelled here, in order: the resource managers, the callback's
-- and the power daemon's calls on the bus, the timers.
pub data Effect : Type 0 where
  associates dissociates updates_associations calls_back locks_power unlocks_power : ℕ → Effect
  associates_id dissociates_id : ℕ → BusId → Effect
  arms_yield_timeout : ℕ → Effect

-- An Activity is known by a number, its place in memory. `activities` maps activityId to it.
pub record World : Type 0 where
  pub acts : ℕ → Activity
  pub run_queue : QueueId → List ℕ
  pub activities : List (ℕ × ℕ)
  pub id_table : List ℕ
  pub name_table : List ℕ
  pub focused_activities : List ℕ
  pub next_activity_id : ℕ
  pub external_enabled : Bool
  pub ui_enabled : Bool
  pub configuration_loaded : Bool
  pub background_level : ℕ
  pub interactive_level : ℕ
  pub yield_timeout_seconds : ℕ
  pub yield_armed : Bool
  pub scheduler : Scheduler
  pub clock : ℤ
  pub effects : List Effect

-- What is thrown, or returned as a MojErr; `out_of_fuel` is the model's own.
pub data Error : Type 0 where
  final_command_given no_callback callback_failed unknown_command : Error
  id_registered name_registered name_not_registered name_not_found id_not_found : Error
  parent_set no_adopters no_hooked_command other_activity : Error
  not_on_background_queue not_on_ready_queue : Error
  would_block invalid_arg access_denied null_dereference out_of_fuel : Error

pub data Outcome (A : Type 0) : Type 0 where
  done : A → Outcome A
  raised : Error → Outcome A

abbrev pub M : Type 0 → Type 0
M A = World → Outcome A × World

abbrev pub U : Type 0
U = Unit {0}

module _ {A : Type 0} where
  unfoldable pub pure : A → M A
  pure a w = (done a, w)

  unfoldable pub raise : Error → M A
  raise e w = (raised e, w)

  unfoldable pub gets : (World → A) → M A
  gets f w = (done (f w), w)

module _ {A B : Type 0} where
  abbrev pub onward : Outcome A → (A → M B) → M B
  onward (done a) f w = f a w
  onward (raised e) f w = (raised e, w)

  infixl 10 ◌>>=◌ ◌>>◌
  unfoldable pub ◌>>=◌ : M A → (A → M B) → M B
  ◌>>=◌ m f w = let (r, v) = m w in onward r f v

  abbrev pub ◌>>◌ : M A → M B → M B
  m >> k = m >>= λ _. k

unfoldable pub modify : (World → World) → M U
modify f w = (done tt, f w)

abbrev pub skip : M U
skip = pure tt

abbrev pub when : Bool → M U → M U
when b m = if b then m else skip

-- One Activity's fields.
abbrev pub act : ℕ → M Activity
act i = gets (λ w. w.acts i)

unfoldable pub set_act : (ℕ → Activity) → ℕ → Activity → ℕ → Activity
set_act f i a j = if j == i then a else f j

unfoldable pub change : ℕ → (Activity → Activity) → World → World
change i f w = record w { acts = set_act w.acts i (f (w.acts i)) }

abbrev pub update : ℕ → (Activity → Activity) → M U
update i f = modify (change i f)

abbrev pub emit : Effect → M U
emit e = modify (λ w. record w { effects = w.effects ++ (e ∷ []) })

-- m_runQueueItem: an Activity is linked in a run queue, leaves whatever queue it is in, and joins
-- the end of one.
abbrev pub all_queues : List QueueId
all_queues =
    initialized ∷ scheduled ∷ ready ∷ ready_interactive ∷ background ∷ background_interactive
    ∷ long_background ∷ immediate ∷ ended ∷ []

unfoldable pub linked_in : List QueueId → ℕ → World → Bool
linked_in [] i w = false
linked_in (q ∷ qs) i w = contains i (w.run_queue q) || linked_in qs i w

abbrev pub is_linked : ℕ → World → Bool
is_linked = linked_in all_queues

unfoldable pub unlinked : ℕ → World → World
unlinked i w = record w { run_queue = λ q. remove i (w.run_queue q) }

unfoldable pub pushed : QueueId → ℕ → World → World
pushed q i w = record w {
  run_queue =
      λ p. if queue_code p == queue_code q then w.run_queue p ++ (i ∷ []) else w.run_queue p;
}

-- `if (is_linked()) unlink()`.
abbrev pub unlink_if_linked : ℕ → M U
unlink_if_linked i = do linked ← gets (is_linked i); when linked (modify (unlinked i))

abbrev pub push_back : QueueId → ℕ → M U
push_back q i = modify (pushed q i)
