-- ===== src/Subscription/Delivery.antt =====
-- No event is lost or overtaken, over every history of one subscription.
use activitymanager.Prelude.{
  ◌⊎◌, inl, inr, Bool-cases, ℕ, zero, suc, ◌≡◌, refl, sym, ap, ◌∙◌, Bool, true, false, List, [],
  ◌∷◌, ◌++◌, arith, if◌then◌else◌, ltb,
}
use mathlib.Core.List.{append_assoc, append-nil}
use activitymanager.Types.{BusId, Event, is_update}
use activitymanager.Subscription.History.{
  Op, queues, plugs, unplugs, hooks, unhooks, Conn, hooked, step, run,
}
use activitymanager.Subscription.{
  Subscription, new_subscription, is_plugged, send_event, queue_event, plug, flush, unplug,
}

-- The events but for updates.
pub essential : List Event → List Event
essential [] = []
essential (e ∷ es) = let rest = essential es in if is_update e then rest else e ∷ rest

pub queued : List Op → List Event
queued [] = []
queued (queues e ∷ os) = e ∷ queued os
queued (plugs ∷ os) = queued os
queued (unplugs ∷ os) = queued os
queued (hooks ∷ os) = queued os
queued (unhooks ∷ os) = queued os

essential-append : (xs ys : List Event) → essential (xs ++ ys) ≡ essential xs ++ essential ys
unfolding essential
essential-append [] ys = refl
essential-append (x ∷ xs) ys = elim (Bool-cases (is_update x)) [
  | inl u ↦ rw (u, essential-append xs ys)
  | inr e ↦ rw (e, essential-append xs ys)
]

-- An open subscription holds nothing back.
abbrev Open : Conn → Type 0
Open c = is_plugged (hooked c.0) c.1 ≡ false → c.1.event_queue ≡ []

pub flush-sent : (es : List Event) (s : Subscription) → (flush es s).sent ≡ s.sent ++ es
unfolding flush send_event
flush-sent [] s = sym (append-nil s.sent)
flush-sent (e ∷ rest) s =
    flush-sent rest (send_event e (record s { event_queue = rest }))
    ∙ append_assoc s.sent (e ∷ []) rest

pub flush-empties :
    (es : List Event) (s : Subscription) → s.event_queue ≡ es → (flush es s).event_queue ≡ []
unfolding flush send_event
flush-empties [] s h = h
flush-empties (e ∷ rest) s h =
    flush-empties rest (send_event e (record s { event_queue = rest })) refl

step-Open : (c : Conn) (o : Op) → Open c → Open (step c o)
unfolding step is_plugged queue_event plug unplug
step-Open (n, s) (queues e) h p = ground arith
step-Open (n, s) plugs h p = cc
step-Open (n, s) unplugs h p =
    ground (arith, flush-empties s.event_queue (record s { plugged = false }))
step-Open (n, s) hooks h p = ground arith
step-Open (zero, s) unhooks h p = h p
step-Open (suc zero, s) unhooks h p =
    flush-empties s.event_queue (record s { plugged = false }) refl
step-Open (suc (suc n), s) unhooks h p = ground arith

-- All that is sent or held back, oldest first.
abbrev pub delivered : Conn → List Event
delivered c = c.1.sent ++ c.1.event_queue

run-Open : (c : Conn) (os : List Op) → Open c → Open (run c os)
unfolding run
run-Open c [] h = h
run-Open c (o ∷ os) h = run-Open (step c o) os (step-Open c o h)

essential_snoc :
    (xs : List Event) (e : Event) → essential (xs ++ (e ∷ [])) ≡ essential xs ++ essential (e ∷ [])
essential_snoc xs e = essential-append xs (e ∷ [])

delivered-flush :
    (es : List Event) (s : Subscription)
    → s.event_queue ≡ es
    → (flush es s).sent ++ (flush es s).event_queue ≡ s.sent ++ es
delivered-flush es s h = rw (flush-empties es s h, flush-sent es s) (append-nil (s.sent ++ es))

-- One event: it is added behind the others, unless it is an update that is dropped.
essential-queue_event :
    (b : Bool) (e : Event) (s : Subscription)
    → (is_plugged b s ≡ false → s.event_queue ≡ [])
    → let t = queue_event b e s in
      essential (t.sent ++ t.event_queue)
      ≡ essential (s.sent ++ s.event_queue) ++ essential (e ∷ [])
unfolding queue_event essential
essential-queue_event b e s open_empty = ground (
  arith,
  essential_snoc (s.sent ++ s.event_queue) e,
  append_assoc s.sent s.event_queue (e ∷ []),
  append-nil (s.sent ++ (e ∷ [])),
  append-nil s.sent,
  append-nil (essential (s.sent ++ s.event_queue)),
)

essential-unplug :
    (b : Bool) (s : Subscription)
    → essential ((unplug b s).sent ++ (unplug b s).event_queue)
      ≡ essential (s.sent ++ s.event_queue) ++ []
unfolding unplug
essential-unplug true s = sym (append-nil (essential (s.sent ++ s.event_queue)))
essential-unplug false s =
    ap essential (delivered-flush s.event_queue (record s { plugged = false }) refl)
    ∙ sym (append-nil (essential (s.sent ++ s.event_queue)))

essential-step :
    (c : Conn) (o : Op)
    → Open c
    → essential (delivered (step c o)) ≡ essential (delivered c) ++ essential (queued (o ∷ []))
unfolding step queued plug essential
essential-step (n, s) (queues e) h = essential-queue_event (hooked n) e s h
essential-step (n, s) plugs h = sym (append-nil _)
essential-step (n, s) unplugs h = essential-unplug (hooked n) s
essential-step (n, s) hooks h = sym (append-nil _)
essential-step (zero, s) unhooks h = sym (append-nil _)
essential-step (suc zero, s) unhooks h = essential-unplug false s
essential-step (suc (suc n), s) unhooks h = sym (append-nil _)

queued-cons : (o : Op) (os : List Op) → queued (o ∷ os) ≡ queued (o ∷ []) ++ queued os
unfolding queued
queued-cons (queues e) os = refl
queued-cons _ os = refl

-- From a connection whose subscription holds nothing back while it is open, the essential events sent
-- or held back are those before and the queued ones, in their order.
essential-run :
    (c : Conn) (os : List Op)
    → Open c
    → essential (delivered (run c os)) ≡ essential (delivered c) ++ essential (queued os)
unfolding run queued essential
essential-run c [] h = sym (append-nil (essential (delivered c)))
essential-run c (o ∷ os) h =
    essential-run (step c o) os (step-Open c o h)
    ∙ rw (
      essential-step c o h,
      append_assoc (essential (delivered c)) (essential (queued (o ∷ []))) (essential (queued os)),
      queued-cons o os,
      essential-append (queued (o ∷ [])) (queued os),
    )

-- Whatever happens to a new subscription, with any number of persist commands hooked at first, the
-- events sent and then those held back are, but for updates, the events that were queued, each
-- once and in order; and it is plugged or a command is hooked, or nothing is held back.
pub delivery_in_order :
    (hooks_at_start sid : ℕ) (who : BusId) (detailed : Bool) (os : List Op)
    → let c = run (hooks_at_start, new_subscription sid who detailed) os in
      (essential (c.1.sent ++ c.1.event_queue) ≡ essential (queued os))
      × ((is_plugged (ltb 0 c.0) c.1 ≡ true) ⊎ (c.1.event_queue ≡ []))
unfolding new_subscription essential
delivery_in_order n sid who detailed os = (
  essential-run (n, new_subscription sid who detailed) os (λ h. refl),
  elim (Bool-cases (
      is_plugged (ltb 0 (run (n, new_subscription sid who detailed) os).0)
        (run (n, new_subscription sid who detailed) os).1)) [
          | inl held ↦ inl held
          | inr open_now ↦
              inr (run-Open (n, new_subscription sid who detailed) os (λ h. refl) open_now)
        ],
)
