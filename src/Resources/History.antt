-- ===== src/Resources/History.antt =====
-- Histories of calls of MasterResourceManager and Activity::SetFocus.
use activitymanager.Prelude.{
  ℕ, ◌≡◌, refl, sym, ap, ◌⊎◌, inl, inr, Bool, true, false, List, [], ◌∷◌, ◌==◌, contains, All,
  arith, Bool-cases, ==_eq, ◌≤◌, ◌<◌,
}
use mathlib.Core.Path.{subst}
use activitymanager.Types.{BusId, Priority}
use activitymanager.Activity.{Activity}
use activitymanager.Resources.{
  get_priority, is_focused, priority_code, ranks_before, Resources, associate_activity,
  dissociate_activity, set_activity_focus, get_entity, before,
}
use activitymanager.Resources.Order.{IsSorted}
use activitymanager.Resources.Invariant.{
  IsWellFormed, associate_activity-IsWellFormed, dissociate_activity-IsWellFormed,
  get_entity-IsWellFormed,
}
use activitymanager.Resources.Refocus.{set_activity_focus-IsWellFormed}
use activitymanager.Resources.Invariant.{contains-head}

-- The calls, each of one method of MasterResourceManager or of Activity::SetFocus.
pub data Call : Type 0 where
  associates dissociates : ℕ → BusId → Call
  focuses : Bool → ℕ → Call

unfoldable pub perform : Call → Resources → Resources
perform (associates i b) r = let found = get_entity b r in associate_activity i found.0 found.1
perform (dissociates i b) r = let found = get_entity b r in dissociate_activity i found.0 found.1
perform (focuses f i) r = set_activity_focus f i r

unfoldable pub run : List Call → Resources → Resources
run [] r = r
run (c ∷ cs) r = run cs (perform c r)

-- No entity is known yet.
unfoldable pub no_entities : (ℕ → Activity) → Resources
no_entities acts = record { acts = acts; entity = λ e. []; entities = []; next_entity = 0 }

pub perform-IsWellFormed : (c : Call) (r : Resources) → IsWellFormed r → IsWellFormed (perform c r)
unfolding perform
perform-IsWellFormed (associates i b) r w =
    associate_activity-IsWellFormed i _ _ (get_entity-IsWellFormed b r w).0
      (get_entity-IsWellFormed b r w).1
perform-IsWellFormed (dissociates i b) r w =
    dissociate_activity-IsWellFormed i _ _ (get_entity-IsWellFormed b r w).0
      (get_entity-IsWellFormed b r w).1
perform-IsWellFormed (focuses f i) r w = set_activity_focus-IsWellFormed f i r w

-- From a state that is well formed every history of calls leads to one: the associations of each entity are in
-- order of focus and priority and each once, an Activity lists just the entities that list it, and no two
-- identifiers share an entity.
pub run-IsWellFormed : (cs : List Call) (r : Resources) → IsWellFormed r → IsWellFormed (run cs r)
unfolding run
run-IsWellFormed [] r w = w
run-IsWellFormed (c ∷ cs) r w = run-IsWellFormed cs (perform c r) (perform-IsWellFormed c r w)

pub no_entities-IsWellFormed :
    (acts : ℕ → Activity) → ((i : ℕ) → (acts i).associations ≡ []) → IsWellFormed (no_entities acts)
unfolding no_entities
no_entities-IsWellFormed acts h = record {
  sorted = λ e. tt;
  linked = λ i e. ap (contains e) (h i);
  unused = λ e k. refl;
  handed_out = λ b e k. absurd (ground (arith, k));
  distinct = λ b c e k l. absurd (ground (arith, k));
}

All-at : (P : ℕ → Type 0) (i : ℕ) (xs : List ℕ) → All P xs → contains i xs ≡ true → P i
All-at P i [] h k = absurd (ground (arith, k))
All-at P i (x ∷ xs) (h, hs) k = elim (Bool-cases (x == i)) [
  | inl e ↦ subst P (==_eq x i e) h
  | inr e ↦ All-at P i xs hs (ground (arith, k, e))
]

-- The focus as a number.
abbrev pub weight : Bool → ℕ
weight true = 1
weight false = 0

pub first_leads :
    (acts : ℕ → Activity) (i : ℕ) (xs : List ℕ)
    → IsSorted acts xs
    → contains i xs ≡ true
    → ((k : ℕ) × (contains k xs ≡ true)
        × (is_focused acts xs ≡ (acts k).focused)
        × (get_priority acts xs ≡ (acts k).priority))
      × ((weight (acts i).focused < weight (is_focused acts xs))
          ⊎ ((weight (acts i).focused ≡ weight (is_focused acts xs))
              × (priority_code (acts i).priority ≤ priority_code (get_priority acts xs))))
unfolding is_focused get_priority before
first_leads acts i [] s h = absurd (ground (arith, h))
first_leads acts i (x ∷ xs) (b, s) h = (
  (x, contains-head x xs, refl, refl),
  elim (Bool-cases (x == i)) [
    | inl e ↦ inr (
      ap (λ k. weight (acts k).focused) (sym (==_eq x i e)),
      omega (arith, ap (λ k. priority_code (acts k).priority) (==_eq x i e)),
    )
    | inr e ↦
        ranks (acts x).focused (acts i).focused (acts x).priority (acts i).priority
          (All-at (λ y. before acts x y ≡ true) i xs b (ground (arith, h, e)))
  ],
)
  where
    ranks :
        (f g : Bool) (p q : Priority)
        → ranks_before f p x g q i ≡ true
        → (weight g < weight f) ⊎ ((weight g ≡ weight f) × (priority_code q ≤ priority_code p))
    ranks true true p q k = inr (refl, ground (arith, k))
    ranks true false p q k = inl (omega arith)
    ranks false true p q k = absurd (ground (arith, k))
    ranks false false p q k = inr (refl, ground (arith, k))

-- After every history of calls from no entities: an entity with an association has the focus and the priority
-- of one of its Activities, and any Activity of it has less focus, or the same and no higher priority.
pub run-leads :
    (acts : ℕ → Activity)
    → ((i : ℕ) → (acts i).associations ≡ [])
    → (cs : List Call) (e i : ℕ) → contains i ((run cs (no_entities acts)).entity e) ≡ true
    → let r = run cs (no_entities acts) in
      ((k : ℕ) × (contains k (r.entity e) ≡ true)
        × (is_focused r.acts (r.entity e) ≡ (r.acts k).focused)
        × (get_priority r.acts (r.entity e) ≡ (r.acts k).priority))
      × ((weight (r.acts i).focused < weight (is_focused r.acts (r.entity e)))
          ⊎ ((weight (r.acts i).focused ≡ weight (is_focused r.acts (r.entity e)))
              × (priority_code (r.acts i).priority
                  ≤ priority_code (get_priority r.acts (r.entity e)))))
run-leads acts h cs e i m =
    first_leads _ i _
      ((run-IsWellFormed cs (no_entities acts) (no_entities-IsWellFormed acts h)).sorted e) m
