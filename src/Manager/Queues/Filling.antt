-- ===== src/Manager/Queues/Filling.antt =====
-- CheckReadyQueue runs what there is room for, first come first served, and returns when no callback fails.
use activitymanager.Prelude.{
  ℕ, is_some, Option-cases, ◌≡◌, Bool, true, false, arith, Option, none, some, List, [], not, ◌∷◌,
  ◌++◌, refl, ap, inl, inr, sym, ◌∙◌, ◌&&◌, ◌||◌, ◌==◌, ==_eq, Bool-cases,
}
use activitymanager.Types.{Command, Event}
use activitymanager.Activity.{
  Activity, Callback, PowerActivity, PowerKind, PowerState, noop, powerd, locked, unknown,
}
use activitymanager.Activity.Events.{broadcast_event, broadcast_command_as}
use activitymanager.World.{
  World, Effect, ◌>>=◌, raise, pure, gets, modify, change, set_act, update, emit, when, act,
}
use activitymanager.World.Returns.{
  Returns, is_done, Returns-pure, Returns-gets, Returns-if, Returns-bind, Returns-modify,
  returns_rules,
}
use activitymanager.Manager.Run.{
  call_back, do_callback, broadcast_command, do_run_activity, power_locked_notification, begin_by,
  request_begin_power_activity, power_or_run, start_running, set_power, run_activity, is_locked,
  review_yield_timeout, update_yield_timeout, cancel_yield_timeout,
}

abbrev pub fails : Option Callback → Bool
fails none = false
fails (some c) = c.call_fails

-- No callback fails.
abbrev pub CallbacksWork : World → Type 0
CallbacksWork w = (i : ℕ) → fails (w.acts i).callback ≡ false

abbrev power_begun : Option PowerActivity → Bool
power_begun none = true
power_begun (some p) = is_locked p.current || is_locked p.target

-- Whether the callback of an Activity has been called.
unfoldable pub is_called : ℕ → List Effect → Bool
is_called i [] = false
is_called i (Effect.calls_back j ∷ es) = (j == i) || is_called i es
is_called i (_ ∷ es) = is_called i es

-- The Activity is running, and its power activity, if it has one, is locked or on the way there; if it has none,
-- its callback, if it has one, has been called.
abbrev pub is_begun : Bool → Activity → Bool
is_begun called a =
    a.running
    && (power_begun a.power_activity
        && (is_some a.power_activity || (not (is_some a.callback) || called)))

abbrev pub has_begun : World → ℕ → Bool
has_begun w i = is_begun (is_called i w.effects) (w.acts i)

-- No callback fails, the queues and the levels are those of another world, and what has begun there has here.
abbrev pub Alike : World → World → Type 0
Alike o w =
    CallbacksWork w
    × (w.run_queue ≡ o.run_queue)
    × (w.background_level ≡ o.background_level)
    × (w.interactive_level ≡ o.interactive_level)
    × ((i : ℕ) → has_begun o i ≡ true → has_begun w i ≡ true)

begun_after :
    (i : ℕ) (f : Activity → Activity)
    → ((c : Bool) (a : Activity) → is_begun c a ≡ true → is_begun c (f a) ≡ true)
    → (w : World) (j : ℕ) → has_begun w j ≡ true
    → has_begun (change i f w) j ≡ true
unfolding change set_act
begun_after i f begun w j b = elim (Bool-cases (j == i)) [
  | inl e ↦ rw e (
      begun (is_called j w.effects) (w.acts i)
        (ap (λ k. is_begun (is_called j w.effects) (w.acts k)) (sym (==_eq j i e)) ∙ b))
  | inr e ↦ rw e b
]

is_called-more :
    (i : ℕ) (es : List Effect) (e : Effect)
    → is_called i es ≡ true
    → is_called i (es ++ (e ∷ [])) ≡ true
unfolding is_called
is_called-more i [] e h = absurd (ground (arith, h))
is_called-more i (Effect.calls_back j ∷ es) e h = ground (arith, h, is_called-more i es e)
is_called-more i (Effect.associates j ∷ es) e h = is_called-more i es e h
is_called-more i (Effect.dissociates j ∷ es) e h = is_called-more i es e h
is_called-more i (Effect.updates_associations j ∷ es) e h = is_called-more i es e h
is_called-more i (Effect.locks_power j ∷ es) e h = is_called-more i es e h
is_called-more i (Effect.unlocks_power j ∷ es) e h = is_called-more i es e h
is_called-more i (Effect.associates_id j b ∷ es) e h = is_called-more i es e h
is_called-more i (Effect.dissociates_id j b ∷ es) e h = is_called-more i es e h
is_called-more i (Effect.arms_yield_timeout n ∷ es) e h = is_called-more i es e h

pub is_called-last :
    (i : ℕ) (es : List Effect) → is_called i (es ++ (Effect.calls_back i ∷ [])) ≡ true
unfolding is_called
is_called-last i [] = ground arith
is_called-last i (Effect.calls_back j ∷ es) = ground (arith, is_called-last i es)
is_called-last i (Effect.associates j ∷ es) = is_called-last i es
is_called-last i (Effect.dissociates j ∷ es) = is_called-last i es
is_called-last i (Effect.updates_associations j ∷ es) = is_called-last i es
is_called-last i (Effect.locks_power j ∷ es) = is_called-last i es
is_called-last i (Effect.unlocks_power j ∷ es) = is_called-last i es
is_called-last i (Effect.associates_id j b ∷ es) = is_called-last i es
is_called-last i (Effect.dissociates_id j b ∷ es) = is_called-last i es
is_called-last i (Effect.arms_yield_timeout n ∷ es) = is_called-last i es

is_begun-more :
    (c d : Bool) (a : Activity) → (c ≡ true → d ≡ true) → is_begun c a ≡ true → is_begun d a ≡ true
is_begun-more false d a f h = ground (arith, h)
is_begun-more true d a f h = ground (arith, h, f refl)

emitted-begun :
    (e : Effect) (w : World) (j : ℕ)
    → has_begun w j ≡ true
    → has_begun (record w { effects = w.effects ++ (e ∷ []) }) j ≡ true
emitted-begun e w j h =
    is_begun-more (is_called j w.effects) (is_called j (w.effects ++ (e ∷ []))) (w.acts j)
      (is_called-more j w.effects e) h

module _ (o : World) where
  update-Returns :
      (i : ℕ) (f : Activity → Activity)
      → ((a : Activity) → (f a).callback ≡ a.callback)
      → ((c : Bool) (a : Activity) → is_begun c a ≡ true → is_begun c (f a) ≡ true)
      → Returns (Alike o) (update i f)
  unfolding change set_act
  update-Returns i f same begun = Returns-modify (change i f) (λ w h. (
    λ j. ground (arith, same (w.acts i), h.0 i, h.0 j),
    h.1,
    h.2,
    h.3,
    λ j b. begun_after i f begun w j (h.4 j b),
  ))

  pub emit-Returns : (e : Effect) → Returns (Alike o) (emit e)
  emit-Returns e =
      Returns-modify _ (λ w h. (h.0, h.1, h.2, h.3, λ j b. emitted-begun e w j (h.4 j b)))

  call_back_returns :
      (i : ℕ) (c : Option Callback) (w : World)
      → is_some c ≡ true
      → fails c ≡ false
      → Alike o w
      → (is_done (call_back i c w).0 ≡ true) × Alike o (call_back i c w).1
  call_back_returns i none w there ok h = ground (arith, there)
  call_back_returns i (some c) w there ok h = rw ok ((emit-Returns _).returns w h)

  -- The last lines of DoRunActivity.
  callback-Returns :
      (i : ℕ) → Returns (Alike o) (act i >>= λ a. when (is_some a.callback) (do_callback i))
  unfolding do_callback ◌>>=◌ gets pure modify raise
  callback-Returns i = record {
    returns = λ w h. elim (Option-cases (w.acts i).callback) [
      | inl none_there ↦ rw none_there (refl, h)
      | inr (c, there) ↦
          rw there (call_back_returns i (w.acts i).callback w (ap is_some there) (h.0 i) h)
    ];
  }

  broadcast_as_keeps_callback :
      (e : Event) (c : Command) (a : Activity) → (broadcast_command_as e c a).callback ≡ a.callback
  unfolding broadcast_command_as broadcast_event
  broadcast_as_keeps_callback e c a = refl

  broadcast_as_begun :
      (e : Event) (c : Command) (b : Bool) (a : Activity)
      → is_begun b a ≡ true
      → is_begun b (broadcast_command_as e c a) ≡ true
  unfolding broadcast_command_as broadcast_event
  broadcast_as_begun e c b a h = h

  pub do_run_activity-Returns : (i : ℕ) → Returns (Alike o) (do_run_activity i)
  unfolding do_run_activity broadcast_command
  do_run_activity-Returns i =
      Returns-bind _ _
        (update-Returns i _ (broadcast_as_keeps_callback Event.start Command.start)
          (broadcast_as_begun Event.start Command.start))
        (λ _. callback-Returns i)

  pub notification-Returns : (i : ℕ) → Returns (Alike o) (power_locked_notification i)
  unfolding power_locked_notification
  notification-Returns i = search (returns_rules, do_run_activity-Returns)

  set_power_keeps_callback :
      (c t : PowerState) (a : Activity) → (set_power c t a).callback ≡ a.callback
  set_power_keeps_callback c t a = refl

  set_power_begun :
      (c t : PowerState)
      → (is_locked c || is_locked t) ≡ true
      → (b : Bool) (a : Activity) → is_begun b a ≡ true
      → is_begun b (set_power c t a) ≡ true
  set_power_begun c t l b a h = ground (arith, l, h)

  begin_by-Returns :
      (i : ℕ) (k : PowerKind) (p : PowerActivity) → Returns (Alike o) (begin_by i k p)
  begin_by-Returns i noop p =
      Returns-if _ _ _
        (Returns-bind _ _
          (update-Returns i _ (set_power_keeps_callback locked p.target)
            (set_power_begun locked p.target refl))
          (λ _. notification-Returns i))
        (Returns-pure _)
  begin_by-Returns i powerd p =
      Returns-if _ _ _
        (Returns-bind _ _
          (update-Returns i _ (set_power_keeps_callback unknown locked)
            (set_power_begun unknown locked refl))
          (λ _. emit-Returns _))
        (Returns-pure _)

  request_begin-Returns :
      (i : ℕ) (p : PowerActivity) → Returns (Alike o) (request_begin_power_activity i p)
  unfolding request_begin_power_activity
  request_begin-Returns i p = search (returns_rules, begin_by-Returns, notification-Returns)

  power_or_run-Returns : (i : ℕ) (p : Option PowerActivity) → Returns (Alike o) (power_or_run i p)
  power_or_run-Returns i none = do_run_activity-Returns i
  power_or_run-Returns i (some p) =
      search (returns_rules, request_begin-Returns, do_run_activity-Returns)

  pub run_activity-Returns : (i : ℕ) → Returns (Alike o) (run_activity i)
  unfolding run_activity start_running
  run_activity-Returns i = Returns-bind _ _ (emit-Returns _) (λ _.
      Returns-bind _ _
        (update-Returns i (λ a. record a { running = true }) (λ a. refl)
          (λ c a h. ground (arith, h)))
        (λ _. Returns-bind _ _ (Returns-gets _) (λ a. power_or_run-Returns i a.power_activity)))

  update_yield_timeout-Returns : Returns (Alike o) update_yield_timeout
  unfolding update_yield_timeout
  update_yield_timeout-Returns =
      Returns-bind _ _ (Returns-gets _)
        (λ n. Returns-bind _ _ (Returns-modify _ (λ w h. h)) (λ _. emit-Returns _))

  pub review-Returns : (ran : Bool) → Returns (Alike o) (review_yield_timeout ran)
  unfolding review_yield_timeout cancel_yield_timeout
  review-Returns ran = Returns-bind _ _ (Returns-gets _) (λ w.
      Returns-if _ _ _ (Returns-if _ _ _ update_yield_timeout-Returns (Returns-pure _))
        (Returns-if _ _ _ (Returns-modify _ (λ v h. h)) (Returns-pure _)))
