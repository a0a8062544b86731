-- ===== src/Trigger/Rearmed.antt =====
-- A basic trigger that is armed again.
use activitymanager.Prelude.{
  ℕ, ◌≡◌, refl, ap, ◌∙◌, Bool, true, false, Bool-cases, inl, inr, not, ◌&&◌, none, some, List, [],
  ◌∷◌, arith, if◌then◌else◌, ◌==◌,
}
use activitymanager.Json.{Value, gives}
use activitymanager.Matcher.{Simple, simple_match}
use activitymanager.Trigger.{
  BusCodes, Message, is_permanent_failure, ExclusiveTrigger, Notice, called, called_again,
  arm_exclusive, fire_exclusive, subscribe, basic_match, process_response, process_message, matched,
  arrives, run,
}

unfoldable IsSetUp : ExclusiveTrigger Simple → Type 0
IsSetUp t = t.matcher.setup_complete ≡ true

simple_match_when :
    {b : Bool} (m : Simple)
    → m.setup_complete ≡ b
    → simple_match m ≡ (if not b then (false, record { setup_complete = true }) else (true, m))
unfolding simple_match
simple_match_when m h =
    ap (λ b. if not b then (false, record { setup_complete = true }) else (true, m)) h

module _ (codes : BusCodes) where
  process_when :
      {b : Bool} (v : Value) (t : ExclusiveTrigger Simple)
      → t.matcher.setup_complete ≡ b
      → process_response basic_match codes v false t
        ≡ matched basic_match codes v t
            (gives (if not b then (false, record { setup_complete = true }) else (true, t.matcher)))
  unfolding process_response
  process_when v t h =
      ap (λ r. matched basic_match codes v t (gives r)) (simple_match_when t.matcher h)

  process-IsSetUp :
      (v : Value) (e : Bool) (t : ExclusiveTrigger Simple)
      → IsSetUp t
      → IsSetUp (process_response basic_match codes v e t).0
  unfolding process_response IsSetUp
  process-IsSetUp v true t h = h
  process-IsSetUp v false t h = ap (λ r. r.0.matcher.setup_complete) (process_when v t h) ∙ h

  process_sets_up :
      (v : Value) (t : ExclusiveTrigger Simple)
      → IsSetUp (process_response basic_match codes v false t).0
  unfolding IsSetUp
  process_sets_up v t = elim (Bool-cases t.matcher.setup_complete) [
    | inl h ↦ process-IsSetUp v false t h
    | inr h ↦ ap (λ r. r.0.matcher.setup_complete) (process_when v t h)
  ]

  arrives-IsSetUp :
      (m : Message) (t : ExclusiveTrigger Simple)
      → IsSetUp t
      → IsSetUp (arrives basic_match codes m t).0
  unfolding arrives process_message
  arrives-IsSetUp m t h = waits t.subscribed (m.error && not (is_permanent_failure codes m))
    where
      waits :
          (s w : Bool)
          → IsSetUp
              (if s
                then if w
                  then (t, called_again ∷ [])
                  else process_response basic_match codes m.payload m.error t
                else (t, [])).0
      waits false w = h
      waits true true = h
      waits true false = process-IsSetUp m.payload m.error t h

  run-IsSetUp :
      (ms : List Message) (t : ExclusiveTrigger Simple)
      → IsSetUp t
      → IsSetUp (run basic_match codes ms t).0
  run-IsSetUp [] t h = h
  run-IsSetUp (m ∷ ms) t h =
      run-IsSetUp ms (arrives basic_match codes m t).0 (arrives-IsSetUp m t h)

  response_arrives :
      (m : Message) (t : ExclusiveTrigger Simple)
      → t.subscribed ≡ true
      → m.error ≡ false
      → arrives basic_match codes m t ≡ process_response basic_match codes m.payload false t
  unfolding arrives process_message
  response_arrives m t s e =
      ap (λ b. if b then process_message basic_match codes m t else (t, [])) s
      ∙ ap
          (λ b.
            if b && not (is_permanent_failure codes m)
            then (t, called_again ∷ [])
            else process_response basic_match codes m.payload b t)
          e

  sets_up :
      (m : Message) (t : ExclusiveTrigger Simple)
      → t.subscribed ≡ true
      → m.error ≡ false
      → IsSetUp (arrives basic_match codes m t).0
  sets_up m t s e = rw (response_arrives m t s e) (process_sets_up m.payload t)

  armed-IsSetUp :
      (i : ℕ) (t : ExclusiveTrigger Simple) (r : ExclusiveTrigger Simple × List Notice)
      → IsSetUp t
      → arm_exclusive i t ≡ some r
      → IsSetUp r.0 × (r.0.subscribed ≡ true)
  unfolding arm_exclusive subscribe IsSetUp
  armed-IsSetUp i t r h a = arms (i == t.owner) t.subscribed refl a
    where
      arms :
          (o s : Bool)
          → t.subscribed ≡ s
          → (if o
              then some (
                  if s
                  then (record t { triggered = false }, [])
                  else (record t { triggered = false; subscribed = true }, called ∷ []))
              else none)
            ≡ some r
          → IsSetUp r.0 × (r.0.subscribed ≡ true)
      arms o s u a = ground (arith, h, u, a)

  -- A basic trigger that has its call, once a response without an error has come: whatever comes after that, if it
  -- is then armed, by its owner, the first response without an error fires it.
  pub rearmed_fires :
      (t : ExclusiveTrigger Simple) (m n : Message) (ms : List Message) (i : ℕ)
      (r : ExclusiveTrigger Simple × List Notice)
      → t.subscribed ≡ true
      → m.error ≡ false
      → arm_exclusive i (run basic_match codes (m ∷ ms) t).0 ≡ some r
      → n.error ≡ false
      → arrives basic_match codes n r.0 ≡ fire_exclusive n.payload r.0
  unfolding IsSetUp
  rearmed_fires t m n ms i r s e a f =
      let set_up = sets_up m t s e in
      let armed =
        armed-IsSetUp i (run basic_match codes (m ∷ ms) t).0 r
          (run-IsSetUp ms (arrives basic_match codes m t).0 set_up) a in
      response_arrives n r.0 armed.1 f ∙ process_when n.payload r.0 armed.0
