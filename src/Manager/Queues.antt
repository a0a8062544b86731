-- ===== src/Manager/Queues.antt =====
-- Invariants of the run queues: a property of the queues that is kept when an Activity leaves the
-- queue it is in, and when it then joins the end of another, is kept by every handler.
pub mod Running
pub mod Handling
pub mod Telling
pub mod Calls
pub mod Levels
pub mod Filling
pub mod Begun
pub mod Lanes
pub mod Serving
pub mod Linked
use activitymanager.Prelude.{
  ℕ, ◌≡◌, refl, ap, Bool, true, false, ◌||◌, List, [], ◌∷◌, ◌++◌, arith, contains, remove, count,
  ◌==◌, if◌then◌else◌, Bool-cases, inl, inr, sym,
}
use mathlib.Core.Path.{fun_ext, subst}
use activitymanager.World.{
  World, QueueId, queue_code, initialized, scheduled, ready, ready_interactive, background,
  background_interactive, long_background, immediate, ended, all_queues, linked_in, is_linked, M, U,
  gets, modify, pure, ◌>>=◌, unlinked, pushed, unlink_if_linked, push_back,
}
use activitymanager.World.Keeps.{Keeps, Leads, Leads-bind, Leads-modify, Leads-Keeps, Keeps-Leads}

abbrev pub Queues : Type 0
Queues = QueueId → List ℕ

abbrev pub without : ℕ → Queues → Queues
without i rq q = remove i (rq q)

abbrev pub joined : QueueId → ℕ → Queues → Queues
joined q i rq p = if queue_code p == queue_code q then rq p ++ (i ∷ []) else rq p

-- The property outlives a move of one Activity.
pub record Movable (R : Queues → Type 0) : Type 0 where
  pub leaves : (i : ℕ) (rq : Queues) → R rq → R (without i rq)
  pub joins : (q : QueueId) (i : ℕ) (rq : Queues) → R rq → R (joined q i (without i rq))

remove-absent : (i : ℕ) (xs : List ℕ) → contains i xs ≡ false → remove i xs ≡ xs
remove-absent i [] h = refl
remove-absent i (x ∷ xs) h = ground (arith, remove-absent i xs)

absent :
    (i : ℕ) (w : World) → is_linked i w ≡ false → (q : QueueId) → contains i (w.run_queue q) ≡ false
unfolding linked_in
absent i w h initialized = ground arith
absent i w h scheduled = ground arith
absent i w h ready = ground arith
absent i w h ready_interactive = ground arith
absent i w h background = ground arith
absent i w h background_interactive = ground arith
absent i w h long_background = ground arith
absent i w h immediate = ground arith
absent i w h ended = ground arith

unlinked-absent : (i : ℕ) (w : World) → is_linked i w ≡ false → unlinked i w ≡ w
unfolding unlinked
unlinked-absent i w h =
    ap (λ (rq : Queues). record w { run_queue = rq })
      (fun_ext (λ q. remove-absent i (w.run_queue q) (absent i w h q)))

-- Looking whether it is linked first makes no difference.
pub unlink_if_linked-unlinked : (i : ℕ) (w : World) → (unlink_if_linked i w).1 ≡ unlinked i w
unfolding ◌>>=◌ modify gets unlinked pure
unlink_if_linked-unlinked i w = elim (Bool-cases (is_linked i w)) [
  | inl yes_linked ↦ rw yes_linked refl
  | inr not_linked ↦ rw not_linked (sym (unlinked-absent i w not_linked))
]

module _ {R : Queues → Type 0} (movable : Movable R) where
  abbrev pub OnQueues : World → Type 0
  OnQueues w = R w.run_queue

  -- `i` has just left the queue it was in.
  abbrev pub Away : ℕ → World → Type 0
  Away i w = (rq : Queues) × (w.run_queue ≡ without i rq) × R rq

  pub Away-OnQueues : (i : ℕ) (w : World) → Away i w → OnQueues w
  Away-OnQueues i w (rq, e, h) = subst R (sym e) (movable.leaves i rq h)

  pub unlink-Leads : (i : ℕ) → Leads OnQueues (Away i) (unlink_if_linked i)
  unfolding unlinked
  unlink-Leads i = record {
    leads = λ w h. subst (Away i) (sym (unlink_if_linked-unlinked i w)) (w.run_queue, refl, h);
  }

  pub push-Leads : (q : QueueId) (i : ℕ) → Leads (Away i) OnQueues (push_back q i)
  unfolding pushed
  push-Leads q i =
      Leads-modify (pushed q i)
        (λ w (rq, e, h). subst (λ (r : Queues). R (joined q i r)) (sym e) (movable.joins q i rq h))

  -- Leaving a queue and joining the end of another.
  pub move_keeps :
      (q : QueueId) (i : ℕ) → Leads OnQueues OnQueues (unlink_if_linked i >>= λ _. push_back q i)
  move_keeps q i =
      Leads-bind (unlink_if_linked i) (λ _. push_back q i) (unlink-Leads i) (λ _. push-Leads q i)
        (Away-OnQueues i)

  -- As above, by a caller that knows that it is linked, and with what follows.
  pub move_then :
      (q : QueueId) (i : ℕ) (rest : M U)
      → Keeps OnQueues rest
      → Keeps OnQueues (unlink_if_linked i >>= λ _. push_back q i >>= λ _. rest)
  move_then q i rest k = Keeps-Leads (
      Leads-bind _ _ (unlink-Leads i)
        (λ _. Leads-bind _ _ (push-Leads q i) (λ _. Leads-Keeps k) (λ w h. h)) (Away-OnQueues i))

  pub relink_then :
      (q : QueueId) (i : ℕ) (rest : M U)
      → Keeps OnQueues rest
      → Keeps OnQueues (modify (unlinked i) >>= λ _. push_back q i >>= λ _. rest)
  unfolding unlinked
  relink_then q i rest k = Keeps-Leads (
      Leads-bind _ _ (Leads-modify (unlinked i) (λ w h. (w.run_queue, refl, h)))
        (λ _. Leads-bind _ _ (push-Leads q i) (λ _. Leads-Keeps k) (λ w h. h)) (Away-OnQueues i))

  pub unlink-Keeps : (i : ℕ) → Keeps OnQueues (unlink_if_linked i)
  unlink-Keeps i = record {
    keeps = λ w h. Away-OnQueues i (unlink_if_linked i w).1 ((unlink-Leads i).leads w h);
  }
