-- ===== src/Examples/Chains.antt =====
-- The power lock, chains of persist commands, and requirement managers.
use activitymanager.Prelude.{
  ℕ, ◌≡◌, refl, ◌∷◌, [], ◌++◌, true, false, Bool, List, Option, none, some, if◌then◌else◌, ◌==◌,
  arith,
}
use activitymanager.Activity.{unknown, locked, unlocked}
use activitymanager.Powerd
use activitymanager.Powerd.{
  Lock, Event, begins, ends, answers, times_out, run, new_lock, perform, power_locked, creates,
  Notice,
}
use activitymanager.Powerd.Settling.{
  IsSettling, run-IsSettling, errors_then_answer, told, errors, asked,
}
use activitymanager.Persist.{
  Next, append, appended, noop, unissued, Kind, complete, completion, Happening, completes,
  completion_throws, unhooks, asks_database,
}
use activitymanager.Persist.Chain.{
  Follows, append-Follows, append_unseen_loop, complete-rest_of, rest_of,
}
use activitymanager.Requirements.{
  Master, new_master, add_manager, remove_manager, instantiated_by, returns, throws, undefined,
  register_requirements, unregister_requirements,
}
use activitymanager.Requirements.Registering.{
  is_offered, add_manager-instantiated_by, add_manager-remove_manager, unregister-register,
}
use activitymanager.Types.{Text}

-- A lock asked for whose first call is answered with an error; the Activity ends and begins again.
abbrev history : List Event
history =
    begins false
    ∷ answers true false
    ∷ answers false false
    ∷ times_out
    ∷ ends true false
    ∷ begins false
    ∷ []

abbrev waiting_lock : Lock
waiting_lock = record { current = unknown; target = locked; call = some creates; armed = false }

history_runs : run history new_lock ≡ waiting_lock
unfolding run perform new_lock Powerd.begin Powerd.end Powerd.answer Powerd.time_out
    Powerd.power_locked_answer
history_runs = refl

run-IsSettling_example :
    IsSettling (run history new_lock) × ((run history new_lock).target ≡ asked unlocked history)
run-IsSettling_example = run-IsSettling history

waiting_lock-IsSettling : IsSettling waiting_lock
unfolding IsSettling
waiting_lock-IsSettling = refl

errors_then_answer_example :
    let after = perform (answers false false) (run (errors 3) waiting_lock) in
    (after.0.current ≡ locked) × (after.1 ≡ told unknown locked)
errors_then_answer_example = errors_then_answer 3 false waiting_lock waiting_lock-IsSettling refl

-- 1 is followed by 2, and 3 by 4.
abbrev two_chains : Next
two_chains = λ c. if c == 1 then some 2 else if c == 3 then some 4 else none

append-Follows_example :
    (after : Next) × (append 2 1 3 two_chains ≡ appended after)
    × Follows after 1 ((2 ∷ []) ++ 3 ∷ 4 ∷ [])
unfolding Follows
append-Follows_example =
    append-Follows 1 3 two_chains (2 ∷ []) (4 ∷ []) (refl, refl) refl (refl, refl) refl refl

append_unseen_loop_example :
    (after : Next) × (append 1 2 1 two_chains ≡ appended after)
    × ((zs : List ℕ) → ¬ Follows after 1 zs)
unfolding Follows
append_unseen_loop_example =
    append_unseen_loop 2 1 two_chains [] (2 ∷ []) refl refl refl (refl, refl) refl

-- The second command of the chain cannot be issued; unhooking the first appends a third to another.
abbrev kinds : ℕ → Kind
kinds c = if c == 2 then unissued else noop

abbrev link_if_none : Option ℕ → Option ℕ
link_if_none none = some 6
link_if_none (some c) = some c

abbrev adds_a_link : Happening → Next → Next
adds_a_link (unhooks c) next = λ d. if d == 5 then link_if_none (next d) else next d
adds_a_link _ next = next

kept : (b : Bool) (o : Option ℕ) (x : ℕ) → o ≡ some x → (if b then link_if_none o else o) ≡ some x
kept true o x e = rw e refl
kept false o x e = e

adds_a_link_stays :
    (h : Happening) (next : Next) (d x : ℕ) → next d ≡ some x → adds_a_link h next d ≡ some x
adds_a_link_stays (unhooks c) next d x e = kept (d == 5) (next d) x e
adds_a_link_stays (completes c s) next d x e = e
adds_a_link_stays (completion_throws c) next d x e = e
adds_a_link_stays (asks_database c) next d x e = e

adds_a_link_end : (h : Happening) (next : Next) → next 2 ≡ none → adds_a_link h next 2 ≡ none
adds_a_link_end (unhooks c) next e = e
adds_a_link_end (completes c s) next e = e
adds_a_link_end (completion_throws c) next e = e
adds_a_link_end (asks_database c) next e = e

complete-rest_of_example :
    complete (λ c. c == 1) kinds adds_a_link 2 two_chains true 1
    ≡ some (completion (λ c. c == 1) 1 true ∷ unhooks 1 ∷ rest_of (λ c. c == 1) kinds (2 ∷ []))
unfolding Follows
complete-rest_of_example =
    complete-rest_of (λ c. c == 1) kinds adds_a_link adds_a_link_stays two_chains true 1 (2 ∷ []) 2
      adds_a_link_end (refl, refl) (omega arith)

abbrev never_text : Text
never_text = 110 ∷ 101 ∷ 118 ∷ 101 ∷ 114 ∷ []

abbrev offers_never : ℕ → List Text
offers_never m = never_text ∷ []

add_manager-instantiated_by_example :
    (after : Master) × (add_manager offers_never 7 new_master ≡ returns after)
    × (instantiated_by never_text after ≡ (
        if is_offered never_text (offers_never 7)
        then some 7
        else instantiated_by never_text new_master))
    × (add_manager offers_never 7 after ≡ throws after)
unfolding new_master
add_manager-instantiated_by_example =
    add_manager-instantiated_by offers_never 7 new_master never_text refl

add_manager-remove_manager_example :
    (remove_manager offers_never 7 new_master ≡ undefined)
    × ((after : Master) × (add_manager offers_never 7 new_master ≡ returns after)
        × (remove_manager offers_never 7 after ≡ throws after))
unfolding new_master
add_manager-remove_manager_example = add_manager-remove_manager offers_never 7 new_master refl

unregister-register_example :
    instantiated_by never_text (
      unregister_requirements
        (never_text ∷ [])
        7
        (register_requirements (never_text ∷ []) 7 new_master))
    ≡ (if is_offered never_text (never_text ∷ [])
        then none
        else instantiated_by never_text new_master)
unregister-register_example = unregister-register (never_text ∷ []) 7 new_master never_text
