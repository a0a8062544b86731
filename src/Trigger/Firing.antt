-- ===== src/Trigger/Firing.antt =====
-- When an exclusive trigger fires.
use activitymanager.Prelude.{
  ℕ, zero, suc, ◌≡◌, refl, ap, ◌∙◌, sym, Bool, true, false, Bool-cases, inl, inr, not, ◌&&◌, Option,
  none, some, List, [], ◌∷◌, ◌++◌, arith, if◌then◌else◌,
}
use activitymanager.Json.{Value, Answer, gives}
use activitymanager.Trigger.{
  BusCodes, Message, is_permanent_failure, ExclusiveTrigger, Notice, fired, called, called_again,
  fire_exclusive, process_response, process_message, arrives, run,
}

-- The messages that fire a trigger whose matcher decides by the response alone: lasting errors, and responses that
-- match.
abbrev pub fires : BusCodes → (Value → Bool) → Message → Bool
fires codes p m = if m.error then is_permanent_failure codes m else p m.payload

-- The payload of the first of them.
abbrev pub first_firing : BusCodes → (Value → Bool) → List Message → Option Value
first_firing codes p [] = none
first_firing codes p (m ∷ ms) =
    let more = first_firing codes p ms in if fires codes p m then some m.payload else more

-- How often the Activity is told.
abbrev pub firings : List Notice → ℕ
firings [] = zero
firings (fired ∷ ns) = suc (firings ns)
firings (_ ∷ ns) = firings ns

firings_append : (ns more : List Notice) → firings ns ≡ 0 → firings (ns ++ more) ≡ firings more
firings_append [] more h = refl
firings_append (fired ∷ ns) more h = absurd (omega (arith, h))
firings_append (called ∷ ns) more h = firings_append ns more h
firings_append (called_again ∷ ns) more h = firings_append ns more h

-- What a trigger with its call is left as, and how often the Activity is told.
abbrev pub left : {M : Type 0} → Option Value → ExclusiveTrigger M → ExclusiveTrigger M
left none t = t
left (some v) t = record t { subscribed = false; triggered = true; response = some v }

abbrev pub times : Option Value → ℕ
times none = 0
times (some v) = 1

module _ {M : Type 0} (match : M → Value → Answer (Bool × M)) (codes : BusCodes) where
  arrives_unsubscribed :
      (m : Message) (t : ExclusiveTrigger M)
      → t.subscribed ≡ false
      → arrives match codes m t ≡ (t, [])
  unfolding arrives
  arrives_unsubscribed m t h = rw h refl

  run_unsubscribed :
      (ms : List Message) (t : ExclusiveTrigger M)
      → t.subscribed ≡ false
      → run match codes ms t ≡ (t, [])
  run_unsubscribed [] t h = refl
  run_unsubscribed (m ∷ ms) t h =
      ap (λ now. ((run match codes ms now.0).0, now.1 ++ (run match codes ms now.0).1))
        (arrives_unsubscribed m t h)
      ∙ run_unsubscribed ms t h

  module _ (p : Value → Bool) (t : ExclusiveTrigger M) (s : t.subscribed ≡ true)
      (by_response : (v : Value) → match t.matcher v ≡ gives (p v, t.matcher)) where
    responds :
        (v : Value) (b : Bool)
        → p v ≡ b
        → process_response match codes v false t ≡ (if b then fire_exclusive v t else (t, []))
    unfolding process_response
    responds v true h = rw (by_response v, h) refl
    responds v false h = rw (by_response v, h) refl

    -- A message with an error or none, whose error is lasting or not.
    of_error : Message → Bool → Bool → ExclusiveTrigger M × List Notice
    of_error m e l =
        if e && not l then (t, called_again ∷ []) else process_response match codes m.payload e t

    of_error-firing :
        (m : Message) (e l : Bool)
        → (if e then l else p m.payload) ≡ true
        → of_error m e l ≡ fire_exclusive m.payload t
    unfolding process_response of_error
    of_error-firing m true true h = refl
    of_error-firing m true false h = ground (arith, h)
    of_error-firing m false l h = responds m.payload true h

    of_error-quiet :
        (m : Message) (e l : Bool)
        → (if e then l else p m.payload) ≡ false
        → ((of_error m e l).0 ≡ t) × (firings (of_error m e l).1 ≡ 0)
    unfolding of_error
    of_error-quiet m true true h = ground (arith, h)
    of_error-quiet m true false h = (refl, refl)
    of_error-quiet m false l h = rw (responds m.payload false h) (refl, refl)

    arrives-of_error :
        (m : Message) → arrives match codes m t ≡ of_error m m.error (is_permanent_failure codes m)
    unfolding arrives process_message of_error
    arrives-of_error m = ap (λ b. if b then process_message match codes m t else (t, [])) s

    arrives_quiet :
        (m : Message)
        → fires codes p m ≡ false
        → ((arrives match codes m t).0 ≡ t) × (firings (arrives match codes m t).1 ≡ 0)
    arrives_quiet m h =
        rw (arrives-of_error m) (of_error-quiet m m.error (is_permanent_failure codes m) h)

    run_firing :
        (m : Message) (ms : List Message)
        → fires codes p m ≡ true
        → run match codes (m ∷ ms) t ≡ fire_exclusive m.payload t
    run_firing m ms h =
        ap (λ now. ((run match codes ms now.0).0, now.1 ++ (run match codes ms now.0).1))
          (arrives-of_error m ∙ of_error-firing m m.error (is_permanent_failure codes m) h)
        ∙ ap (λ r. (r.0, fired ∷ r.1)) (run_unsubscribed ms (fire_exclusive m.payload t).0 refl)

    run_quiet :
        (m : Message) (ms : List Message)
        → fires codes p m ≡ false
        → ((run match codes (m ∷ ms) t).0 ≡ (run match codes ms t).0)
          × (firings (run match codes (m ∷ ms) t).1 ≡ firings (run match codes ms t).1)
    run_quiet m ms h =
        let same = (arrives_quiet m h).0 in
        let quiet = (arrives_quiet m h).1 in
        (
          ap (λ u. (run match codes ms u).0) same,
          firings_append (arrives match codes m t).1 _ quiet
              ∙ ap (λ u. firings (run match codes ms u).1) same,
        )

    first :
        {b : Bool} (m : Message) (ms : List Message)
        → fires codes p m ≡ b
        → first_firing codes p (m ∷ ms) ≡ (if b then some m.payload else first_firing codes p ms)
    first m ms h = ap (λ b. if b then some m.payload else first_firing codes p ms) h

    -- For a trigger that has its call and a matcher that decides by the response alone, without an exception:
    -- whatever messages come, the Activity is told once, and the trigger is then triggered with the payload of the
    -- first that is a lasting error or a response that matches, and without its call; where none is, the Activity
    -- is not told and the trigger is as it was.
    pub run-first_firing :
        (ms : List Message)
        → ((run match codes ms t).0 ≡ left (first_firing codes p ms) t)
          × (firings (run match codes ms t).1 ≡ times (first_firing codes p ms))
    run-first_firing [] = (refl, refl)
    run-first_firing (m ∷ ms) = elim (Bool-cases (fires codes p m)) [
      | inl h ↦ (
        ap (λ r. r.0) (run_firing m ms h) ∙ sym (ap (λ o. left o t) (first m ms h)),
        ap (λ r. firings r.1) (run_firing m ms h) ∙ sym (ap times (first m ms h)),
      )
      | inr h ↦ (
        (run_quiet m ms h).0 ∙ ((run-first_firing ms).0 ∙ sym (ap (λ o. left o t) (first m ms h))),
        (run_quiet m ms h).1 ∙ ((run-first_firing ms).1 ∙ sym (ap times (first m ms h))),
      )
    ]
