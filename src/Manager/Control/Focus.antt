-- ===== src/Manager/Control/Focus.antt =====
-- Focus: Activity::SetFocus, and ActivityManager's FocusActivity, UnfocusActivity and AddFocus.
use activitymanager.Prelude.{
  ℕ, ◌≡◌, Bool, true, false, arith, ◌&&◌, ◌||◌, not, List, [], ◌∷◌, ◌++◌, ◌==◌, refl, if◌then◌else◌,
  contains, remove, Bool-cases, inl, inr,
}
use activitymanager.Activity.Events.{broadcast_event}
use activitymanager.World.{World, Effect, done, raise, gets, modify, pure, ◌>>=◌, change, set_act}
use activitymanager.Manager.Control.{
  set_focus, unfocus_each, focus_activity, unfocus_activity, add_focus,
}

-- The list of the manager and the flags of the Activities agree.
unfoldable pub FocusAgrees : World → Type 0
FocusAgrees w = (k : ℕ) → (w.acts k).focused ≡ contains k w.focused_activities

set_focus-focused :
    (b : Bool) (j k : ℕ) (w : World)
    → ((set_focus b j w).1.acts k).focused ≡ (if k == j then b else (w.acts k).focused)
unfolding set_focus ◌>>=◌ gets modify pure change set_act broadcast_event
set_focus-focused true j k w = ground arith
set_focus-focused false j k w = ground arith

set_focus-done : (b : Bool) (j : ℕ) (w : World) → (set_focus b j w).0 ≡ done tt
unfolding set_focus ◌>>=◌ gets modify pure
set_focus-done true j w = ground arith
set_focus-done false j w = ground arith

set_focus-list :
    (b : Bool) (j : ℕ) (w : World) → (set_focus b j w).1.focused_activities ≡ w.focused_activities
unfolding set_focus ◌>>=◌ gets modify pure change
set_focus-list true j w = ground arith
set_focus-list false j w = ground arith

-- The world after SetFocus and the call that follows it.
abbrev after_focus : Bool → ℕ → World → World
after_focus b j w =
    let v = (set_focus b j w).1 in
    record v { effects = v.effects ++ (Effect.updates_associations j ∷ []) }

unfocus_each-cons :
    (j : ℕ) (js : List ℕ) (w : World)
    → unfocus_each (j ∷ js) w ≡ unfocus_each js (after_focus false j w)
unfolding unfocus_each ◌>>=◌ modify
unfocus_each-cons j js w = rw (set_focus-done false j w) refl

unfocus_each_lem :
    (js : List ℕ) (w : World)
    → ((unfocus_each js w).0 ≡ done tt)
      × ((unfocus_each js w).1.focused_activities ≡ w.focused_activities)
      × ((k : ℕ)
          → ((unfocus_each js w).1.acts k).focused ≡ ((w.acts k).focused && not (contains k js)))
unfolding unfocus_each pure
unfocus_each_lem [] w = (refl, refl, λ k. ground arith)
unfocus_each_lem (j ∷ js) w =
    let (returns, same, each) = unfocus_each_lem js (after_focus false j w) in
    rw (unfocus_each-cons j js w) (
      returns,
      cc (same, set_focus-list false j w),
      λ k. ground (arith, each k, set_focus-focused false j k w),
    )

contains-remove :
    (i k : ℕ) (xs : List ℕ) → contains k (remove i xs) ≡ (contains k xs && not (i == k))
contains-remove i k [] = refl
contains-remove i k (x ∷ xs) = ground (arith, contains-remove i k xs)

contains-append :
    (k : ℕ) (xs ys : List ℕ) → contains k (xs ++ ys) ≡ (contains k xs || contains k ys)
contains-append k [] ys = refl
contains-append k (x ∷ xs) ys = ground (arith, contains-append k xs ys)

-- The world in which FocusActivity unfocuses the others.
abbrev focused_alone : ℕ → World → World
focused_alone i w = record (after_focus true i w) { focused_activities = i ∷ [] }

focus-unfocuses :
    (i : ℕ) (w : World)
    → (w.acts i).focused ≡ false
    → focus_activity i w ≡ unfocus_each w.focused_activities (focused_alone i w)
unfolding focus_activity ◌>>=◌ gets modify
focus-unfocuses i w h = rw h (rw (set_focus-done true i w) (rw (set_focus-list true i w) refl))

-- FocusActivity on an Activity without focus, while list and flags agree: it returns, and afterwards
-- that Activity is the only one with focus, in the list and by the flags.
pub focus_activity_alone :
    (i : ℕ) (w : World)
    → FocusAgrees w
    → (w.acts i).focused ≡ false
    → let (r, v) = focus_activity i w in
      (r ≡ done tt) × (v.focused_activities ≡ i ∷ []) × ((k : ℕ) → (v.acts k).focused ≡ (k == i))
unfolding FocusAgrees
focus_activity_alone i w agrees h =
    let (returns, same, each) = unfocus_each_lem w.focused_activities (focused_alone i w) in
    rw (focus-unfocuses i w h)
      (returns, same, λ k. ground (arith, each k, set_focus-focused true i k w, agrees k, agrees i))

unfocus_activity-FocusAgrees :
    (i : ℕ) (w : World) → FocusAgrees w → FocusAgrees (unfocus_activity i w).1
unfolding FocusAgrees unfocus_activity ◌>>=◌ gets modify raise
unfocus_activity-FocusAgrees i w agrees = elim (Bool-cases (w.acts i).focused) [
  | inl yes_focused ↦ rw yes_focused (
      rw (set_focus-done false i w) (λ k. ground (
        arith,
        set_focus-focused false i k w,
        agrees k,
        contains-remove i k w.focused_activities,
        set_focus-list false i w,
      )))
  | inr not_focused ↦ rw not_focused agrees
]

add_focus-FocusAgrees : (i j : ℕ) (w : World) → FocusAgrees w → FocusAgrees (add_focus i j w).1
unfolding FocusAgrees add_focus ◌>>=◌ gets modify raise pure
add_focus-FocusAgrees i j w agrees = elim (Bool-cases (w.acts i).focused) [
  | inl yes_focused ↦ elim (Bool-cases (w.acts j).focused) [
    | inl already ↦ rw yes_focused (rw already agrees)
    | inr not_yet ↦ rw yes_focused (
        rw not_yet (
          rw (set_focus-done true j w) (λ k. ground (
            arith,
            set_focus-focused true j k w,
            agrees k,
            contains-append k w.focused_activities (j ∷ []),
            set_focus-list true j w,
          ))))
  ]
  | inr not_focused ↦ rw not_focused agrees
]

focus_activity-FocusAgrees :
    (i : ℕ) (w : World) → FocusAgrees w → FocusAgrees (focus_activity i w).1
unfolding FocusAgrees focus_activity ◌>>=◌ gets pure
focus_activity-FocusAgrees i w agrees = elim (Bool-cases (w.acts i).focused) [
  | inl already ↦ rw already agrees
  | inr not_yet ↦
      let (returns, same, each) = focus_activity_alone i w agrees not_yet in
      λ k. ground (arith, same, each k)
]

-- Focusing, unfocusing and adding focus each keep the manager's list in agreement with the
-- Activities' flags, whether the call succeeds or throws.
pub focus_operations-FocusAgrees :
    (i j : ℕ) (w : World)
    → FocusAgrees w
    → FocusAgrees (focus_activity i w).1
      × FocusAgrees (unfocus_activity i w).1
      × FocusAgrees (add_focus i j w).1
focus_operations-FocusAgrees i j w agrees = (
  focus_activity-FocusAgrees i w agrees,
  unfocus_activity-FocusAgrees i w agrees,
  add_focus-FocusAgrees i j w agrees,
)
