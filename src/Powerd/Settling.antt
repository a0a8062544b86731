-- ===== src/Powerd/Settling.antt =====
-- The power lock does not get stuck between its states.
use activitymanager.Prelude.{
  ℕ, zero, suc, ◌≡◌, refl, ap, sym, ◌∙◌, Bool, true, false, Option, none, some, List, [], ◌∷◌,
  arith,
}
use activitymanager.Activity.{PowerState, locked, unlocked, unknown}
use activitymanager.Powerd.{
  RemoteCall, creates, debounces, removes, Lock, Notice, power_locked, power_unlocked, new_lock,
  begin, end, answer, begins, ends, times_out, time_out, power_locked_answer, power_unlocked_answer,
  Event, answers, perform, run,
}

abbrev lock_of : PowerState → PowerState → Option RemoteCall → Bool → Lock
lock_of c t k a = record { current = c; target = t; call = k; armed = a }

-- The combinations of states, call in flight and timer.
abbrev pub is_settling : PowerState → PowerState → Option RemoteCall → Bool → Bool
is_settling locked locked none t = true
is_settling unlocked unlocked none false = true
is_settling unknown locked (some creates) false = true
is_settling unknown unlocked (some debounces) false = true
is_settling unknown unlocked (some removes) false = true
is_settling _ _ _ _ = false

-- The lock is where it should be, or a call is in flight that brings it there; the timer runs only while locked.
unfoldable pub IsSettling : Lock → Type 0
IsSettling l = is_settling l.current l.target l.call l.armed ≡ true

step :
    (e : Event) (c t : PowerState) (k : Option RemoteCall) (a : Bool)
    → is_settling c t k a ≡ true
    → IsSettling (perform e (lock_of c t k a)).0
unfolding perform begin end answer time_out power_locked_answer power_unlocked_answer IsSettling
step e c t k a h = ground (arith, h)

perform-IsSettling : (e : Event) (l : Lock) → IsSettling l → IsSettling (perform e l).0
unfolding IsSettling
perform-IsSettling e l h = step e l.current l.target l.call l.armed h

-- What the last Begin or End of a history asked for.
abbrev pub asked : PowerState → List Event → PowerState
asked p [] = p
asked p (begins fails ∷ es) = asked locked es
asked p (ends debounce fails ∷ es) = asked unlocked es
asked p (answers error fails ∷ es) = asked p es
asked p (times_out ∷ es) = asked p es

abbrev asks : PowerState → Event → PowerState
asks p (begins fails) = locked
asks p (ends debounce fails) = unlocked
asks p _ = p

asked_by :
    (e : Event) (c t : PowerState) (k : Option RemoteCall) (a : Bool)
    → is_settling c t k a ≡ true
    → (perform e (lock_of c t k a)).0.target ≡ asks t e
unfolding perform begin end answer time_out power_locked_answer power_unlocked_answer
asked_by e c t k a h = ground (arith, h)

asked-asks : (p : PowerState) (e : Event) (es : List Event) → asked p (e ∷ es) ≡ asked (asks p e) es
asked-asks p (begins fails) es = refl
asked-asks p (ends debounce fails) es = refl
asked-asks p (answers error fails) es = refl
asked-asks p times_out es = refl

runs :
    (es : List Event) (l : Lock)
    → IsSettling l
    → IsSettling (run es l) × ((run es l).target ≡ asked l.target es)
unfolding IsSettling run
runs [] l h = (h, refl)
runs (e ∷ es) l h =
    let later = runs es (perform e l).0 (perform-IsSettling e l h) in
    (
      later.0,
      later.1
          ∙ (ap (λ p. asked p es) (asked_by e l.current l.target l.call l.armed h)
              ∙ sym (asked-asks l.target e es)),
    )

-- After every history of calls, answers and timeouts of a new lock, whichever of them fail: the target is what the
-- last Begin or End asked for, unlocked where there was none; the lock is in that state, or between the states with
-- a call of the right kind in flight; and the timer runs only while it is locked.
pub run-IsSettling :
    (es : List Event)
    → IsSettling (run es new_lock) × ((run es new_lock).target ≡ asked unlocked es)
unfolding IsSettling new_lock
run-IsSettling es = runs es new_lock refl

-- What the Activity is told when the state goes from one to another.
abbrev pub told : PowerState → PowerState → List Notice
told locked locked = []
told unlocked unlocked = []
told _ locked = power_locked ∷ []
told _ unlocked = power_unlocked ∷ []
told _ unknown = []

-- From a state that is settling, whatever happens: the Activity is told that power is locked, or unlocked, exactly
-- when the lock comes into that state, once.
pub perform-told :
    (e : Event) (l : Lock) → IsSettling l → (perform e l).1 ≡ told l.current (perform e l).0.current
unfolding perform begin end answer time_out power_locked_answer power_unlocked_answer IsSettling
perform-told e l h = tells e l.current l.target l.call l.armed h
  where
    tells :
        (e : Event) (c t : PowerState) (k : Option RemoteCall) (a : Bool)
        → is_settling c t k a ≡ true
        → (perform e (lock_of c t k a)).1 ≡ told c (perform e (lock_of c t k a)).0.current
    tells e c t k a h = ground (arith, h)

-- Answers with an error, each of which is followed by a retry.
abbrev pub errors : ℕ → List Event
errors zero = []
errors (suc n) = answers true false ∷ errors n

error_retried :
    (l : Lock) → IsSettling l → l.current ≡ unknown → (perform (answers true false) l).0 ≡ l
unfolding perform answer power_locked_answer power_unlocked_answer IsSettling
error_retried l h u = retries l.current l.target l.call l.armed h u
  where
    retries :
        (c t : PowerState) (k : Option RemoteCall) (a : Bool)
        → is_settling c t k a ≡ true
        → c ≡ unknown
        → (perform (answers true false) (lock_of c t k a)).0 ≡ lock_of c t k a
    retries c t k a h u = ground (arith, h, u)

errors_retried : (n : ℕ) (l : Lock) → IsSettling l → l.current ≡ unknown → run (errors n) l ≡ l
unfolding run
errors_retried zero l h u = refl
errors_retried (suc n) l h u = ap (run (errors n)) (error_retried l h u) ∙ errors_retried n l h u

answered :
    (f : Bool) (l : Lock)
    → IsSettling l
    → l.current ≡ unknown
    → (perform (answers false f) l).0.current ≡ l.target
unfolding perform answer power_locked_answer power_unlocked_answer IsSettling
answered f l h u = reaches l.current l.target l.call l.armed h u
  where
    reaches :
        (c t : PowerState) (k : Option RemoteCall) (a : Bool)
        → is_settling c t k a ≡ true
        → c ≡ unknown
        → (perform (answers false f) (lock_of c t k a)).0.current ≡ t
    reaches c t k a h u = ground (arith, h, u)

-- A settling lock that is between its states reaches the one asked for with the first answer that has no error, and
-- the Activity is told then, however many answers with errors come first, if their retries can be issued.
pub errors_then_answer :
    (n : ℕ) (f : Bool) (l : Lock)
    → IsSettling l
    → l.current ≡ unknown
    → let after = perform (answers false f) (run (errors n) l) in
      (after.0.current ≡ l.target) × (after.1 ≡ told unknown l.target)
errors_then_answer n f l h u = rw (errors_retried n l h u) (
  answered f l h u,
  perform-told (answers false f) l h
      ∙ (ap (λ c. told c (perform (answers false f) l).0.current) u
          ∙ ap (told unknown) (answered f l h u)),
)
