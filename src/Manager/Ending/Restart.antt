-- ===== src/Manager/Ending/Restart.antt =====
-- A restart does not end the Activity again, so that EndActivity's last part makes no call of EndActivity.
use activitymanager.Prelude.{ℕ, ◌≡◌, refl, Bool, true, false, not, ◌&&◌, ==_self, if◌then◌else◌}
use mathlib.Core.Path.{subst}
use activitymanager.Types.{Command, is, is_final}
use activitymanager.Activity.{Activity, compute_next_external_command, should_restart}
use activitymanager.World.{
  World, Outcome, done, raised, Error, M, U, raise, gets, ◌>>=◌, onward, modify, skip, when, act,
  update, change, set_act,
}
use activitymanager.World.Keeps.{Keeps, keeps_rules}
use activitymanager.Manager.Timing.{request_schedule_activity}
use activitymanager.Manager.Ending.{
  take_command, send_command_with, dispatch, restart_activity, finish_incarnation,
  inform_activity_end, requeue_activity, release_activity, inform_schedule_finished,
}
use activitymanager.Manager.Ending.Scheduling.{HasNoCommand, request_schedule_activity-HasNoCommand}

module _ {A B : Type 0} where
  -- Two ways to go on that agree wherever the first action may lead agree.
  pub onward_same :
      (r : Outcome A) (v : World) (f g : A → M B)
      → ((a : A) → r ≡ done a → f a v ≡ g a v)
      → onward r f v ≡ onward r g v
  onward_same (done a) v f g h = h a refl
  onward_same (raised e) v f g h = refl

  pub bind_same :
      (m : M A) (f g : A → M B) (w : World)
      → ((a : A) → (m w).0 ≡ done a → f a (m w).1 ≡ g a (m w).1)
      → (m >>= f) w ≡ (m >>= g) w
  unfolding ◌>>=◌
  bind_same m f g w h = onward_same (m w).0 (m w).1 f g h

pub act_same :
    {B : Type 0} (i : ℕ) (f g : Activity → M B) (w : World)
    → f (w.acts i) w ≡ g (w.acts i) w
    → (act i >>= f) w ≡ (act i >>= g) w
unfolding ◌>>=◌ gets
act_same i f g w h = h

pub if_same :
    {A : Type 0} (b : Bool) (m n k l : M A) (w : World)
    → m w ≡ k w
    → n w ≡ l w
    → (if b then m else n) w ≡ (if b then k else l) w
if_same true m n k l w h g = h
if_same false m n k l w h g = g

-- The start command of a restart is the one to be sent next.
abbrev HasStart : ℕ → World → Type 0
HasStart i w = ((w.acts i).int_command ≡ Command.none) × ((w.acts i).ext_command ≡ Command.start)

abbrev Started : ℕ → Outcome U → World → Type 0
Started i (done a) v = HasStart i v
Started i (raised e) v = Unit {0}

-- The end of taking the start command.
abbrev takes_start : ℕ → M U
takes_start i = act i >>= λ b.
    if is_final b.ext_command
    then raise Error.final_command_given
    else update i (λ a. record a { ext_command = Command.start })

takes_start-Started :
    (i : ℕ) (r : Outcome U) (v : World)
    → HasNoCommand i v
    → Started i (onward r (λ _. takes_start i) v).0 (onward r (λ _. takes_start i) v).1
unfolding ◌>>=◌ gets modify change set_act
takes_start-Started i (done a) v (p, q) = rw q (rw (==_self i) (p, refl))
takes_start-Started i (raised e) v h = tt

take_command-Started :
    (i : ℕ) (w : World)
    → HasNoCommand i w
    → Started i (take_command Command.start false i w).0 (take_command Command.start false i w).1
unfolding take_command ◌>>=◌ gets
take_command-Started i w h = takes_start-Started i _ _ (
    (when_keeps (
        is Command.start Command.start
        && (not (w.acts i).initialized && not (w.acts i).ending))).keeps
      w h)
  where
    when_keeps : (b : Bool) → Keeps (HasNoCommand i) (when b (request_schedule_activity i))
    when_keeps b = search (keeps_rules, request_schedule_activity-HasNoCommand)

dispatch_same :
    (e f : M U) (i : ℕ) (a : Activity) (v : World)
    → a.int_command ≡ Command.none
    → a.ext_command ≡ Command.start
    → dispatch e i (compute_next_external_command a) a v
      ≡ dispatch f i (compute_next_external_command a) a v
unfolding compute_next_external_command
dispatch_same e f i a v p q = rw p (rw q refl)

-- A restart does not end the Activity again.
send_start_same :
    (E F : ℕ → M U) (i : ℕ) (w : World)
    → HasNoCommand i w
    → send_command_with E Command.start false i w ≡ send_command_with F Command.start false i w
unfolding send_command_with
send_start_same E F i w h =
    bind_same (take_command Command.start false i) _ _ w (λ a e. after_taking _ (started_at e))
  where
    Reached : Type 0
    Reached = HasStart i (take_command Command.start false i w).1

    started_at : {a : U} → (take_command Command.start false i w).0 ≡ done a → Reached
    started_at {a} e =
        subst (λ r. Started i r (take_command Command.start false i w).1) e
          (take_command-Started i w h)

    after_taking :
        (v : World)
        → HasStart i v
        → (act i >>= λ a.
              when (not a.ending) (dispatch (E i) i (compute_next_external_command a) a))
            v
          ≡ (act i >>= λ a.
                when (not a.ending) (dispatch (F i) i (compute_next_external_command a) a))
              v
    after_taking v (p, q) = act_same i _ _ v (
        if_same (not (v.acts i).ending) _ skip _ skip v
          (dispatch_same (E i) (F i) i (v.acts i) v p q) refl)

restart_activity_same :
    (E F : ℕ → M U) (i : ℕ) (w : World) → restart_activity E i w ≡ restart_activity F i w
unfolding restart_activity ◌>>=◌ modify change set_act
restart_activity_same E F i w = send_start_same E F i _ (rw (==_self i) (refl, refl))

pub finish_incarnation_same :
    (E F : ℕ → M U) (requeue : Bool) (i : ℕ) (w : World)
    → finish_incarnation E requeue i w ≡ finish_incarnation F requeue i w
unfolding finish_incarnation
finish_incarnation_same E F requeue i w = bind_same (inform_activity_end i) _ _ w (λ _ _.
    if_same requeue (requeue_activity i) _ (requeue_activity i) _ _ refl (
      bind_same (inform_schedule_finished i) _ _ _ (λ _ _.
        act_same i _ _ _
          (end_or_restart ((inform_schedule_finished i (inform_activity_end i w).1).1)))))
  where
    end_or_restart :
        (v : World)
        → (if should_restart (v.acts i) then restart_activity E i else release_activity i) v
          ≡ (if should_restart (v.acts i) then restart_activity F i else release_activity i) v
    end_or_restart v =
        if_same (should_restart (v.acts i)) (restart_activity E i) (release_activity i)
          (restart_activity F i) (release_activity i) v (restart_activity_same E F i v) refl
