-- ===== src/Subscription/Updates.antt =====
-- Which updates a subscriber is sent, and how many are held back.
use activitymanager.Prelude.{
  ◌⊎◌, inl, inr, Bool-cases, ℕ, zero, suc, ◌≡◌, refl, ◌∙◌, Bool, true, false, List, [], ◌∷◌, ◌++◌,
  All, arith, ltb,
}
use activitymanager.Types.{BusId, Event, is_update}
use activitymanager.Subscription.{
  Subscription, new_subscription, send_event, queue_event, plug, flush, unplug,
}
use activitymanager.Subscription.History.{
  Op, queues, plugs, unplugs, hooks, unhooks, Conn, step, run,
}
use activitymanager.Subscription.Delivery.{flush-sent, flush-empties}

abbrev pub NoUpdate : List Event → Type 0
NoUpdate = All (λ e. is_update e ≡ false)

-- An update is held back only as the first event.
abbrev pub UpdateFirst : List Event → Type 0
UpdateFirst [] = Unit {0}
UpdateFirst (e ∷ es) = NoUpdate es

NoUpdate-append : (xs ys : List Event) → NoUpdate xs → NoUpdate ys → NoUpdate (xs ++ ys)
NoUpdate-append [] ys hx hy = hy
NoUpdate-append (x ∷ xs) ys hx hy = (hx.0, NoUpdate-append xs ys hx.1 hy)

UpdateFirst-snoc :
    (xs : List Event) (e : Event)
    → UpdateFirst xs
    → is_update e ≡ false
    → UpdateFirst (xs ++ (e ∷ []))
UpdateFirst-snoc [] e h p = tt
UpdateFirst-snoc (x ∷ xs) e h p = NoUpdate-append xs (e ∷ []) h (p, tt)

UpdateFirst-one : (xs : List Event) (e : Event) → xs ≡ [] → UpdateFirst (xs ++ (e ∷ []))
UpdateFirst-one [] e h = tt
UpdateFirst-one (x ∷ xs) e h = cc

record Quiet (detailed : Bool) (s : Subscription) : Type 0 where
  same : s.detailed_events ≡ detailed
  first : UpdateFirst s.event_queue
  none_sent : detailed ≡ false → NoUpdate s.sent
  none_held : detailed ≡ false → NoUpdate s.event_queue

queue_event-Quiet :
    (d b : Bool) (e : Event) (s : Subscription) → Quiet d s → Quiet d (queue_event b e s)
unfolding queue_event
queue_event-Quiet d b e s q = ground (
  arith,
  UpdateFirst-snoc s.event_queue e,
  UpdateFirst-one s.event_queue e,
  NoUpdate-append s.sent (e ∷ []),
  NoUpdate-append s.event_queue (e ∷ []),
)

flush-same : (es : List Event) (s : Subscription) → (flush es s).detailed_events ≡ s.detailed_events
unfolding flush send_event
flush-same [] s = refl
flush-same (e ∷ es) s = flush-same es (send_event e (record s { event_queue = es }))

unplug-Quiet : (d b : Bool) (s : Subscription) → Quiet d s → Quiet d (unplug b s)
unfolding unplug
unplug-Quiet d true s q = record {
  same = q.same;
  first = q.first;
  none_sent = q.none_sent;
  none_held = q.none_held;
}
unplug-Quiet d false s q =
    let t = record s { plugged = false } in
    record {
      same = flush-same s.event_queue t ∙ q.same;
      first = rw (flush-empties s.event_queue t refl) tt;
      none_sent = λ h.
          rw (flush-sent s.event_queue t)
            (NoUpdate-append s.sent s.event_queue (q.none_sent h) (q.none_held h));
      none_held = λ h. rw (flush-empties s.event_queue t refl) tt;
    }

step-Quiet : (d : Bool) (c : Conn) (o : Op) → Quiet d c.1 → Quiet d (step c o).1
unfolding step plug
step-Quiet d (n, s) (queues e) q = queue_event-Quiet d (ltb 0 n) e s q
step-Quiet d (n, s) plugs q = record {
  same = q.same;
  first = q.first;
  none_sent = q.none_sent;
  none_held = q.none_held;
}
step-Quiet d (n, s) unplugs q = unplug-Quiet d (ltb 0 n) s q
step-Quiet d (n, s) hooks q = q
step-Quiet d (zero, s) unhooks q = q
step-Quiet d (suc zero, s) unhooks q = unplug-Quiet d false s q
step-Quiet d (suc (suc n), s) unhooks q = q

run-Quiet : (d : Bool) (c : Conn) (os : List Op) → Quiet d c.1 → Quiet d (run c os).1
unfolding run
run-Quiet d c [] q = q
run-Quiet d c (o ∷ os) q = run-Quiet d (step c o) os (step-Quiet d c o q)

new-Quiet : (sid : ℕ) (who : BusId) (d : Bool) → Quiet d (new_subscription sid who d)
unfolding new_subscription
new-Quiet sid who d = record { same = refl; first = tt; none_sent = λ h. tt; none_held = λ h. tt }

-- Whatever happens to a new subscription, a subscriber that did not ask for details is sent no update
-- and has none held back; and at most the first of the events held back for any subscriber is an
-- update.
pub updates_suppressed :
    (hooks_at_start sid : ℕ) (who : BusId) (detailed : Bool) (os : List Op)
    → let c = run (hooks_at_start, new_subscription sid who detailed) os in
      UpdateFirst c.1.event_queue × ((detailed ≡ true) ⊎ NoUpdate (c.1.sent ++ c.1.event_queue))
updates_suppressed n sid who detailed os =
    let q =
      run-Quiet detailed (n, new_subscription sid who detailed) os (new-Quiet sid who detailed) in
    (
      q.first,
      elim (Bool-cases detailed) [
        | inl details ↦ inl details
        | inr plain ↦ inr (NoUpdate-append _ _ (q.none_sent plain) (q.none_held plain))
      ],
    )
