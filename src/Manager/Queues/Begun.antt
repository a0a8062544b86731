-- ===== src/Manager/Queues/Begun.antt =====
-- What running an Activity comes to: power is requested, or its callback is called.
use activitymanager.Prelude.{
  ℕ, ◌≡◌, refl, ap, true, false, Bool-cases, inl, inr, arith, Option, none, some, is_some, [], ◌∷◌,
  ◌++◌, ◌||◌,
}
use activitymanager.Types.{Command, Event}
use activitymanager.Activity.{
  Callback, PowerActivity, PowerKind, PowerState, noop, powerd, locked, unknown,
}
use activitymanager.Activity.Events.{broadcast_event, broadcast_command_as}
use activitymanager.World.{
  World, Effect, M, U, ◌>>=◌, pure, gets, modify, change, set_act, emit, when,
}
use activitymanager.World.Returns.{Returns}
use activitymanager.Manager.Run.{
  do_callback, broadcast_command, do_run_activity, power_locked_notification, begin_by,
  request_begin_power_activity, power_or_run, start_running, set_power, run_activity, is_locked,
}
use activitymanager.Manager.Queues.Filling.{
  fails, CallbacksWork, Alike, is_called-last, has_begun, do_run_activity-Returns,
  notification-Returns, emit-Returns,
}

-- An Activity that has begun, as seen past an action.
begun_past :
    (i : ℕ) (m : M U) (w : World)
    → Returns (Alike w) m
    → CallbacksWork w
    → has_begun w i ≡ true
    → has_begun (m w).1 i ≡ true
begun_past i m w r works b = (r.returns w (works, refl, refl, refl, λ j h. h)).1.4 i b

update_works :
    (i : ℕ) (c t : PowerState) (w : World)
    → CallbacksWork w
    → CallbacksWork (change i (set_power c t) w)
unfolding change set_act
update_works i c t w works j = ground (arith, works i, works j)

power_on :
    (i : ℕ) (c t : PowerState) (w : World)
    → (is_locked c || is_locked t) ≡ true
    → (w.acts i).running ≡ true
    → is_some (w.acts i).power_activity ≡ true
    → has_begun (change i (set_power c t) w) i ≡ true
unfolding change set_act
power_on i c t w l r there = ground (arith, l, r, there)

begin_by-begins :
    (i : ℕ) (k : PowerKind) (p : PowerActivity) (w : World)
    → (w.acts i).power_activity ≡ some p
    → (w.acts i).running ≡ true
    → is_locked p.current ≡ false
    → CallbacksWork w
    → has_begun (begin_by i k p w).1 i ≡ true
unfolding ◌>>=◌ modify pure
begin_by-begins i noop p w e r l works = rw l (
    begun_past i (power_locked_notification i) (change i (set_power locked p.target) w)
      (notification-Returns (change i (set_power locked p.target) w) i)
      (update_works i locked p.target w works) (power_on i locked p.target w refl r (ap is_some e)))
begin_by-begins i powerd p w e r l works = elim (Bool-cases (is_locked p.target)) [
  | inl t ↦ rw (l, t) (ground (arith, e, r, t))
  | inr t ↦
      rw (l, t)
        (begun_past i (emit (Effect.locks_power i)) (change i (set_power unknown locked) w)
          (emit-Returns (change i (set_power unknown locked) w) (Effect.locks_power i))
          (update_works i unknown locked w works)
          (power_on i unknown locked w refl r (ap is_some e)))
]

callback-begins :
    (i : ℕ) (o : Option Callback) (v : World)
    → (v.acts i).callback ≡ o
    → fails o ≡ false
    → (v.acts i).running ≡ true
    → (v.acts i).power_activity ≡ none
    → has_begun (when (is_some o) (do_callback i) v).1 i ≡ true
unfolding do_callback ◌>>=◌ gets pure modify
callback-begins i none v e ok r p = ground (arith, e, r, p)
callback-begins i (some c) v e ok r p =
    rw e (rw ok (ground (arith, r, p, is_called-last i v.effects)))

-- DoRunActivity of an Activity without a power activity.
do_run_activity-begins :
    (i : ℕ) (w : World)
    → (w.acts i).running ≡ true
    → (w.acts i).power_activity ≡ none
    → CallbacksWork w
    → has_begun (do_run_activity i w).1 i ≡ true
unfolding do_run_activity broadcast_command broadcast_command_as broadcast_event ◌>>=◌ gets modify
    change set_act
do_run_activity-begins i w r p works =
    let v = change i (broadcast_command_as Event.start Command.start) w in
    callback-begins i (v.acts i).callback v refl (ground (arith, works i)) (ground (arith, r))
      (ground (arith, p))

power_or_run-begins :
    (i : ℕ) (q : Option PowerActivity) (w : World)
    → (w.acts i).power_activity ≡ q
    → (w.acts i).running ≡ true
    → CallbacksWork w
    → has_begun (power_or_run i q w).1 i ≡ true
unfolding request_begin_power_activity
power_or_run-begins i none w e r works = do_run_activity-begins i w r e works
power_or_run-begins i (some p) w e r works = elim (Bool-cases (is_locked p.current)) [
  | inl l ↦ rw l (
      begun_past i (do_run_activity i) w (do_run_activity-Returns w i) works
        (ground (arith, e, r, l)))
  | inr l ↦ rw l (begin_by-begins i p.kind p w e r l works)
]

pub run_activity-begins :
    (i : ℕ) (w : World) → CallbacksWork w → has_begun (run_activity i w).1 i ≡ true
unfolding run_activity start_running ◌>>=◌ modify gets change set_act
run_activity-begins i w works =
    power_or_run-begins i _
      (change i (λ a. record a { running = true })
        (record w { effects = w.effects ++ (Effect.associates i ∷ []) }))
      refl (ground arith) (λ j. ground (arith, works i, works j))
