-- ===== src/Manager/Control/Victim.antt =====
-- Which interactive Activity is made to yield: the loop of ActivityManager::InteractiveYieldTimeout.
use activitymanager.Prelude.{
  ℕ, suc, ◌+◌, ◌≤◌, ◌≡◌, arith, Option, none, some, List, [], ◌∷◌, leb, if◌then◌else◌,
}
use activitymanager.Activity.{Activity}
use activitymanager.Manager.Control.{choose_victim}

-- How many yield, and the first that does not.
unfoldable pub count_yielding : (ℕ → Activity) → List ℕ → ℕ
count_yielding acts [] = 0
count_yielding acts (i ∷ is) = (if (acts i).yielding then 1 else 0) + count_yielding acts is

unfoldable pub first_staying : (ℕ → Activity) → List ℕ → Option ℕ
first_staying acts [] = none
first_staying acts (i ∷ is) =
    let rest = first_staying acts is in if (acts i).yielding then rest else some i

abbrev or_else : Option ℕ → Option ℕ → Option ℕ
or_else none y = y
or_else (some x) y = some x

choose_from :
    (acts : ℕ → Activity) (waiting yielding : ℕ) (victim : Option ℕ) (is : List ℕ)
    → suc yielding ≤ waiting
    → choose_victim acts waiting yielding victim is ≡ (
        if leb waiting (yielding + count_yielding acts is)
        then none
        else or_else victim (first_staying acts is))
unfolding choose_victim count_yielding first_staying
choose_from acts waiting yielding none [] h = ground arith
choose_from acts waiting yielding (some v) [] h = ground arith
choose_from acts waiting yielding none (i ∷ is) h = ground (
  arith,
  choose_from acts waiting (yielding + 1) none is,
  choose_from acts waiting yielding (some i) is h,
)
choose_from acts waiting yielding (some v) (i ∷ is) h = ground (
  arith,
  choose_from acts waiting (yielding + 1) (some v) is,
  choose_from acts waiting yielding (some v) is h,
)

-- With Activities waiting, the victim is the first of the running that does not yield yet, unless as many
-- of the running yield as wait; then there is none.
pub choose_victim_lem :
    (acts : ℕ → Activity) (waiting : ℕ) (is : List ℕ)
    → 1 ≤ waiting
    → choose_victim acts waiting 0 none is
      ≡ (if leb waiting (count_yielding acts is) then none else first_staying acts is)
choose_victim_lem acts waiting is h = ground (arith, choose_from acts waiting 0 none is h)
