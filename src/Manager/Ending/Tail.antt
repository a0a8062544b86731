-- ===== src/Manager/Ending/Tail.antt =====
-- The last part of EndActivity: it comes to the same for what its nested calls would do, but for the call that the
-- noop power activity makes.
use activitymanager.Prelude.{
  ℕ, ◌≡◌, refl, sym, ap, ◌∙◌, inl, inr, Bool, true, false, not, ◌&&◌, Bool-cases, Option, none,
  some, arith, is_empty,
}
use activitymanager.Activity.{
  Activity, PowerActivity, PowerKind, PowerState, noop, powerd, unlocked,
}
use activitymanager.World.{World, M, U, gets, ◌>>=◌, modify, skip, when, act, change}
use activitymanager.Manager.Run.{is_unlocked, set_power}
use activitymanager.Manager.Ending.{finish_incarnation, end_by, end_power_or}
use activitymanager.Manager.Ending.Restart.{if_same, act_same, finish_incarnation_same}

abbrev pub is_noop : PowerKind → Bool
is_noop noop = true
is_noop powerd = false

-- Whether the end of power calls EndActivity at once: the noop power activity that is not unlocked.
abbrev pub calls_back_at_once : Option PowerActivity → Bool
calls_back_at_once none = false
calls_back_at_once (some p) = not (is_unlocked p.current) && is_noop p.kind

end_by_last :
    (E F : ℕ → M U) (i : ℕ) (k : PowerKind) (p : PowerActivity) (w : World)
    → is_noop k ≡ false
    → end_by E i k p w ≡ end_by F i k p w
end_by_last E F i noop p w h = absurd (ground (arith, h))
end_by_last E F i powerd p w h = refl

end_power_last :
    (E F : ℕ → M U) (i : ℕ) (o : Option PowerActivity) (m n : M U) (w : World)
    → calls_back_at_once o ≡ false
    → m w ≡ n w
    → end_power_or E i o m w ≡ end_power_or F i o n w
end_power_last E F i none m n w h k = k
end_power_last E F i (some p) m n w h k = elim (Bool-cases (is_unlocked p.current)) [
  | inl e ↦ rw e k
  | inr e ↦ rw e (end_by_last E F i p.kind p w (ap (λ b. not b && is_noop p.kind) (sym e) ∙ h))
]

-- The same where the call that is made from within is the same.
end_by_same :
    (E F : ℕ → M U) (i : ℕ) (k : PowerKind) (p : PowerActivity) (w : World)
    → E i (change i (set_power unlocked p.target) w)
      ≡ F i (change i (set_power unlocked p.target) w)
    → end_by E i k p w ≡ end_by F i k p w
unfolding ◌>>=◌ modify gets
end_by_same E F i noop p w h =
    if_same _ (E i) skip (F i) skip (change i (set_power unlocked p.target) w) h refl
end_by_same E F i powerd p w h = refl

end_power_same :
    (E F : ℕ → M U) (i : ℕ) (o : Option PowerActivity) (m n : M U) (w : World)
    → ((t : PowerState)
        → E i (change i (set_power unlocked t) w) ≡ F i (change i (set_power unlocked t) w))
    → m w ≡ n w
    → end_power_or E i o m w ≡ end_power_or F i o n w
end_power_same E F i none m n w h k = k
end_power_same E F i (some p) m n w h k =
    if_same (not (is_unlocked p.current)) (end_by E i p.kind p) m (end_by F i p.kind p) n w
      (end_by_same E F i p.kind p w (h p.target)) k

-- EndActivity after the trigger and the schedule, and after the subscriptions.
abbrev finish_if_done : (ℕ → M U) → Bool → ℕ → Activity → M U
finish_if_done E requeue i b = when (is_empty b.persist_commands) (finish_incarnation E requeue i)

abbrev end_power_of : (ℕ → M U) → Bool → ℕ → Activity → M U
end_power_of E requeue i b = end_power_or E i b.power_activity (finish_if_done E requeue i b)

abbrev rest_of_end : (ℕ → M U) → Bool → ℕ → M U
rest_of_end E requeue i =
    act i >>= λ b. when (is_empty b.subscriptions) (end_power_of E requeue i b)

when_same : (b : Bool) (m k : M U) (w : World) → m w ≡ k w → when b m w ≡ when b k w
when_same b m k w h = if_same b m skip k skip w h refl

finish_if_done_same :
    (E F : ℕ → M U) (requeue : Bool) (i : ℕ) (b : Activity) (w : World)
    → finish_if_done E requeue i b w ≡ finish_if_done F requeue i b w
finish_if_done_same E F requeue i b w =
    when_same (is_empty b.persist_commands) (finish_incarnation E requeue i)
      (finish_incarnation F requeue i) w (finish_incarnation_same E F requeue i w)

pub rest_of_end_last :
    (E F : ℕ → M U) (requeue : Bool) (i : ℕ) (w : World)
    → calls_back_at_once (w.acts i).power_activity ≡ false
    → rest_of_end E requeue i w ≡ rest_of_end F requeue i w
rest_of_end_last E F requeue i w h = act_same i _ _ w (
    when_same (is_empty (w.acts i).subscriptions) (end_power_of E requeue i (w.acts i))
      (end_power_of F requeue i (w.acts i)) w
      (end_power_last E F i (w.acts i).power_activity (finish_if_done E requeue i (w.acts i))
        (finish_if_done F requeue i (w.acts i)) w h
        (finish_if_done_same E F requeue i (w.acts i) w)))

pub rest_of_end_same :
    (E F : ℕ → M U) (requeue : Bool) (i : ℕ) (w : World)
    → ((t : PowerState)
        → E i (change i (set_power unlocked t) w) ≡ F i (change i (set_power unlocked t) w))
    → rest_of_end E requeue i w ≡ rest_of_end F requeue i w
rest_of_end_same E F requeue i w h = act_same i _ _ w (
    when_same (is_empty (w.acts i).subscriptions) (end_power_of E requeue i (w.acts i))
      (end_power_of F requeue i (w.acts i)) w
      (end_power_same E F i (w.acts i).power_activity (finish_if_done E requeue i (w.acts i))
        (finish_if_done F requeue i (w.acts i)) w h
        (finish_if_done_same E F requeue i (w.acts i) w)))
