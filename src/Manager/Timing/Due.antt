-- ===== src/Manager/Timing/Due.antt =====
-- What ProcessQueue takes off a queue and tells, whether it returns or an Activity's callback throws.
use activitymanager.Prelude.{
  ℕ, ◌≡◌, refl, ap, sym, ◌∙◌, Bool, true, false, Bool-cases, inl, inr, ==_eq, ◌==◌, Option, none,
  some, List, [], ◌∷◌, ◌++◌, All, arith,
}
use mathlib.Core.Path.{subst, fun_ext}
use activitymanager.Prelude.Int.{ℤ, ◌≤ℤ◌, ◌<ℤ◌, ltb_ℤ, ltb_ℤ_iff}
use activitymanager.Schedule
use activitymanager.Schedule.{Schedule}
use activitymanager.Scheduler.{Scheduler}
use activitymanager.Scheduler.Order.{IsSorted, NotBefore-later}
use activitymanager.Activity.{Activity}
use activitymanager.World.{
  World, Outcome, Error, done, raised, M, U, gets, ◌>>=◌, modify, change, set_act, onward, pure,
}
use activitymanager.World.Returns.{is_done}
use activitymanager.Manager.Timing.{
  start_of, start_of_schedule, change_schedule, schedule_comes_up, queue_of, with_queue,
  process_queue,
}
use activitymanager.Manager.Ending.Frames.{Steady, run_if_runnable-Keeps}

-- The schedule, if any, has been told that it has come up.
abbrev pub is_up : Option Schedule → Bool
is_up none = true
is_up (some s) = s.scheduled

-- The Scheduler and the starts are those of another world, and what was up there is up here.
abbrev Same : World → World → Type 0
Same o w =
    (w.scheduler ≡ o.scheduler)
    × ((j : ℕ) → start_of w j ≡ start_of o j)
    × ((j : ℕ) → is_up (o.acts j).schedule ≡ true → is_up (w.acts j).schedule ≡ true)

abbrev mark : Schedule → Schedule
mark s = record s { scheduled = true }

field_same :
    {B : Type 0} (g : Activity → B) (i : ℕ) (f : Activity → Activity)
    → ((a : Activity) → g (f a) ≡ g a)
    → (w : World) (j : ℕ) → g ((change i f w).acts j) ≡ g (w.acts j)
unfolding change set_act
field_same g i f h w j = elim (Bool-cases (j == i)) [
  | inl e ↦ rw e (h (w.acts i) ∙ ap (λ k. g (w.acts k)) (sym (==_eq j i e)))
  | inr e ↦ rw e refl
]

up_after :
    (i : ℕ) (w : World) (j : ℕ)
    → is_up (w.acts j).schedule ≡ true
    → is_up ((change i (change_schedule mark) w).acts j).schedule ≡ true
unfolding change set_act
up_after i w j h = ground (arith, h)

up_now : (i : ℕ) (w : World) → is_up ((change i (change_schedule mark) w).acts i).schedule ≡ true
unfolding change set_act
up_now i w = ground arith

start_marked :
    (a : Activity)
    → start_of_schedule (change_schedule mark a).schedule ≡ start_of_schedule a.schedule
unfolding Schedule.get_next_start_time
start_marked a = ground arith

Same-Steady : (o : World) → Steady (Same o)
unfolding start_of change
Same-Steady o = record {
  changes = λ i f m w (s, t, u). (
    s,
    λ j.
        field_same (λ a. start_of_schedule a.schedule) i f (λ a. ap start_of_schedule (m a).2) w j
        ∙ t j,
    λ j h. field_same (λ a. is_up a.schedule) i f (λ a. ap is_up (m a).2) w j ∙ u j h,
  );
  others = λ v w a s (e, t, u). (
    s ∙ e,
    λ j. ap (λ g. start_of_schedule (g j).schedule) a ∙ t j,
    λ j h. ap (λ g. is_up (g j).schedule) a ∙ u j h,
  );
}

told_Same : (i : ℕ) (w : World) → Same w (schedule_comes_up i w).1
unfolding schedule_comes_up ◌>>=◌ modify start_of change
told_Same i w =
    (run_if_runnable-Keeps (Same-Steady w) i).keeps (change i (change_schedule mark) w) (
      refl,
      field_same (λ a. start_of_schedule a.schedule) i (change_schedule mark) start_marked w,
      up_after i w,
    )

told_up : (i : ℕ) (w : World) → is_up ((schedule_comes_up i w).1.acts i).schedule ≡ true
unfolding schedule_comes_up ◌>>=◌ modify
told_up i w =
    let v = change i (change_schedule mark) w in
    ((run_if_runnable-Keeps (Same-Steady v) i).keeps v (refl, λ j. refl, λ j h. h)).2 i (up_now i w)

with_queue-same :
    (local : Bool) (q : List ℕ) (s : Scheduler) → queue_of local s ≡ q → s ≡ with_queue local q s
with_queue-same false q s h = ap (λ q. record s { queue = q }) h
with_queue-same true q s h = ap (λ q. record s { local_queue = q }) h

with_queue-again :
    (local : Bool) (p q : List ℕ) (s : Scheduler)
    → with_queue local q (with_queue local p s) ≡ with_queue local q s
with_queue-again false p q s = refl
with_queue-again true p q s = refl

queue_of-with_queue :
    (local : Bool) (q : List ℕ) (s : Scheduler) → queue_of local (with_queue local q s) ≡ q
queue_of-with_queue false q s = refl
queue_of-with_queue true q s = refl

-- From one world to another, which a run of ProcessQueue has reached: items have been taken off the front of the
-- queue, each of them due and told, and the rest is the queue; nothing else of the Scheduler, and no start,
-- has changed; and if the run has returned, none of the rest is due.
pub record Taken (local : Bool) (now : ℤ) (q : List ℕ) (w : World) (r : Outcome U) (v : World)
    : Type 0 where
  pub up : List ℕ
  pub later : List ℕ
  pub parts : q ≡ up ++ later
  pub left : v.scheduler ≡ with_queue local later w.scheduler
  pub starts : start_of v ≡ start_of w
  pub still_up : (j : ℕ) → is_up (w.acts j).schedule ≡ true → is_up (v.acts j).schedule ≡ true
  pub due : All (λ j. start_of w j ≤ℤ now) up
  pub told : All (λ j. is_up (v.acts j).schedule ≡ true) up
  pub rest : is_done r ≡ true → All (λ j. now <ℤ start_of w j) later

module _ (local : Bool) (now : ℤ) where
  Taken-nothing :
      (q : List ℕ) (w : World)
      → queue_of local w.scheduler ≡ q
      → All (λ j. now <ℤ start_of w j) q
      → Taken local now q w (done tt) w
  Taken-nothing q w h n = record {
    up = [];
    later = q;
    parts = refl;
    left = with_queue-same local q w.scheduler h;
    starts = refl;
    still_up = λ j u. u;
    due = tt;
    told = tt;
    rest = λ d. n;
  }

  module _ (i : ℕ) (q : List ℕ) (w v : World) (left : v.scheduler ≡ with_queue local q w.scheduler)
      (starts : start_of v ≡ start_of w)
      (still_up : (j : ℕ) → is_up (w.acts j).schedule ≡ true → is_up (v.acts j).schedule ≡ true)
      (told : is_up (v.acts i).schedule ≡ true) (due : start_of w i ≤ℤ now) where
    Taken-raised : (e : Error) → Taken local now (i ∷ q) w (raised e) v
    Taken-raised e = record {
      up = i ∷ [];
      later = q;
      parts = refl;
      left = left;
      starts = starts;
      still_up = still_up;
      due = (due, tt);
      told = (told, tt);
      rest = λ d. ground (arith, d);
    }

    Taken-more :
        (r : Outcome U) (x : World) → Taken local now q v r x → Taken local now (i ∷ q) w r x
    Taken-more r x t = record {
      up = i ∷ t.up;
      later = t.later;
      parts = ap (λ l. i ∷ l) t.parts;
      left =
          t.left
          ∙ (ap (with_queue local t.later) left ∙ with_queue-again local q t.later w.scheduler);
      starts = t.starts ∙ starts;
      still_up = λ j u. t.still_up j (still_up j u);
      due = (due, subst (λ f. All (λ j. f j ≤ℤ now) t.up) starts t.due);
      told = (t.still_up i told, t.told);
      rest = λ d. subst (λ f. All (λ j. now <ℤ f j) t.later) starts (t.rest d);
    }

    Taken-onward :
        (r : Outcome U) (k : M U)
        → Taken local now q v (k v).0 (k v).1
        → let (s, x) = onward r (λ u. k) v in Taken local now (i ∷ q) w s x
    Taken-onward (done u) k t = Taken-more (k v).0 (k v).1 t
    Taken-onward (raised e) k t = Taken-raised e

  -- From a sorted queue, whatever the Activities that come up do, and also where a callback throws: ProcessQueue
  -- takes items off the front, each of which is due and is told, and leaves the rest, and every start, as it was;
  -- if it returns, all that is left starts later.
  pub process_queue-Taken :
      (q : List ℕ) (w : World)
      → queue_of local w.scheduler ≡ q
      → IsSorted (start_of w) q
      → let (r, v) = process_queue local now q w in Taken local now q w r v
  unfolding process_queue ◌>>=◌ gets modify pure start_of
  process_queue-Taken [] w h s = Taken-nothing [] w h tt
  process_queue-Taken (i ∷ q) w h s = elim (Bool-cases (ltb_ℤ now (start_of w i))) [
    | inl later ↦ rw later (
        Taken-nothing (i ∷ q) w h (
          (ltb_ℤ_iff now (start_of w i)).0 later,
          NotBefore-later (start_of w) now (start_of w i) q ((ltb_ℤ_iff now (start_of w i)).0 later)
              s.0,
        ))
    | inr now_due ↦ rw now_due (
        let x = record w { scheduler = with_queue local q w.scheduler } in
        let v = (schedule_comes_up i x).1 in
        let same = told_Same i x in
        let starts : start_of v ≡ start_of w = fun_ext same.1 in
        Taken-onward i q w v same.0 starts same.2 (told_up i x) (ground (arith, now_due))
          (schedule_comes_up i x).0 (process_queue local now q)
          (process_queue-Taken q v
            (ap (queue_of local) same.0 ∙ queue_of-with_queue local q w.scheduler)
            (subst (λ f. IsSorted f q) (sym starts) s.1)))
  ]
