-- ===== src/Manager/Queues/Linked.antt =====
-- An Activity is linked in one run queue at most: what the single hook m_runQueueItem of
-- include/internal/Activity.h stands for.
use activitymanager.Prelude.{
  ℕ, ◌+◌, ◌≤◌, ◌≡◌, List, [], ◌∷◌, arith, ◌==◌, if◌then◌else◌, count, refl, count-append,
  count-remove_self, count-remove-le,
}
use activitymanager.World.{World, QueueId, all_queues}
use activitymanager.Manager.Queues.{Queues, Movable, without, joined}

-- How often an Activity stands in the queues that are listed.
unfoldable pub times_linked : List QueueId → ℕ → Queues → ℕ
times_linked [] i rq = 0
times_linked (q ∷ qs) i rq = count i (rq q) + times_linked qs i rq

abbrev pub LinkedOnce : Queues → Type 0
LinkedOnce rq = (i : ℕ) → times_linked all_queues i rq ≤ 1

times-without_self :
    (qs : List QueueId) (i : ℕ) (rq : Queues) → times_linked qs i (without i rq) ≡ 0
unfolding times_linked
times-without_self [] i rq = refl
times-without_self (q ∷ qs) i rq =
    omega (arith, count-remove_self i (rq q), times-without_self qs i rq)

times-without-le :
    (qs : List QueueId) (i j : ℕ) (rq : Queues)
    → times_linked qs i (without j rq) ≤ times_linked qs i rq
unfolding times_linked
times-without-le [] i j rq = omega arith
times-without-le (q ∷ qs) i j rq =
    omega (arith, count-remove-le i j (rq q), times-without-le qs i j rq)

times-joined :
    (q : QueueId) (i j : ℕ) (rq : Queues)
    → times_linked all_queues i (joined q j rq)
      ≡ times_linked all_queues i rq + (if j == i then 1 else 0)
unfolding times_linked
times-joined QueueId.initialized i j rq = omega (arith, count-append)
times-joined QueueId.scheduled i j rq = omega (arith, count-append)
times-joined QueueId.ready i j rq = omega (arith, count-append)
times-joined QueueId.ready_interactive i j rq = omega (arith, count-append)
times-joined QueueId.background i j rq = omega (arith, count-append)
times-joined QueueId.background_interactive i j rq = omega (arith, count-append)
times-joined QueueId.long_background i j rq = omega (arith, count-append)
times-joined QueueId.immediate i j rq = omega (arith, count-append)
times-joined QueueId.ended i j rq = omega (arith, count-append)

joined-LinkedOnce :
    (q : QueueId) (j : ℕ) (rq : Queues) → LinkedOnce rq → LinkedOnce (joined q j (without j rq))
joined-LinkedOnce q j rq h i = ground (
  arith,
  times-joined q i j (without j rq),
  times-without-le all_queues i j rq,
  times-without_self all_queues i rq,
  h i,
)

pub LinkedOnce-Movable : Movable LinkedOnce
LinkedOnce-Movable = record {
  leaves = λ j rq h i. omega (arith, times-without-le all_queues i j rq, h i);
  joins = joined-LinkedOnce;
}
