-- ===== src/Containers/Mapping.antt =====
-- ContainerManager::MapContainer as a whole.
use activitymanager.Prelude.{
  ℕ, ◌≡◌, refl, ap, ◌∙◌, ◌||◌, ◌⊎◌, inl, inr, Bool, true, List, [], ◌∷◌, ◌==◌, arith, All,
  Bool-cases, Option-cases, ==_self, some,
}
use activitymanager.Types.{BusId, Text, text_eq, bus_eq}
use activitymanager.Types.BusOrder.{bus_eq_iff}
use activitymanager.Resources.{Resources, get_entity, entity_at}
use activitymanager.Resources.Invariant.{IsWellFormed, get_entity-IsWellFormed}
use activitymanager.Resources.View.{get_entity-takes_part}
use activitymanager.Containers.{
  Containers, get_container, remove_entity, map_entity, map_each, map_container,
}
use activitymanager.Containers.Placement.{
  IsPlaced, is_at, map_entity-IsPlaced, map_entity-is_at, add_entity-place, remove_entity-place,
}

-- An identifier keeps its entity.
get_entity-entity_at :
    (b c : BusId) (e : ℕ) (r : Resources)
    → entity_at c r.entities ≡ some e
    → entity_at c (get_entity b r).1.entities ≡ some e
unfolding get_entity
get_entity-entity_at b c e r h = elim (Option-cases (entity_at b r.entities)) [
  | inr (d, k) ↦ rw k h
  | inl k ↦ rw k (elim (Bool-cases (bus_eq b c)) [
    | inl g ↦
        absurd (ground (arith, h, k, ap (λ x. entity_at x r.entities) ((bus_eq_iff b c).0.0 g)))
    | inr g ↦ rw g h
  ])
]

-- The identifier's entity is in the container.
abbrev pub IsIn : Text → Resources → Containers → BusId → Type 0
IsIn n r c b = (e : ℕ) × (entity_at b r.entities ≡ some e) × (is_at n (c.place e) ≡ true)

map_each-IsIn :
    (n : Text) (bs : List BusId) (r : Resources) (c : Containers) (b : BusId)
    → IsIn n r c b
    → IsIn n (map_each n bs r c).0 (map_each n bs r c).1 b
unfolding map_each
map_each-IsIn n [] r c b h = h
map_each-IsIn n (a ∷ as') r c b (e, k, p) =
    map_each-IsIn n as' (get_entity a r).1 (map_entity (get_entity a r).0 n c) b (
      e,
      get_entity-entity_at a b e r k,
      map_entity-is_at (get_entity a r).0 n c e
          ∙ ap (λ x. (e == (get_entity a r).0) || x) p
          ∙ or_true (e == (get_entity a r).0),
    )
  where
    or_true : (x : Bool) → (x || true) ≡ true
    or_true x = ground arith

map_each-All-IsIn :
    (n : Text) (bs : List BusId) (r : Resources) (c : Containers)
    → IsWellFormed r
    → All (IsIn n (map_each n bs r c).0 (map_each n bs r c).1) bs
unfolding map_each
map_each-All-IsIn n [] r c w = tt
map_each-All-IsIn n (b ∷ bs) r c w = (
  map_each-IsIn n bs (get_entity b r).1 (map_entity (get_entity b r).0 n c) b (
    (get_entity b r).0,
    (get_entity-takes_part b r w).0,
    map_entity-is_at (get_entity b r).0 n c (get_entity b r).0
        ∙ ap (λ x. x || is_at n (c.place (get_entity b r).0)) (==_self (get_entity b r).0),
  ),
  map_each-All-IsIn n bs (get_entity b r).1 (map_entity (get_entity b r).0 n c)
      (get_entity-IsWellFormed b r w).0,
)

-- An entity stays where it is or comes to the name.
map_entity-stays :
    (e : ℕ) (n : Text) (c : Containers) (d : ℕ)
    → ((map_entity e n c).place d ≡ c.place d) ⊎ (is_at n ((map_entity e n c).place d) ≡ true)
unfolding map_entity
map_entity-stays e n c d = elim (Bool-cases (d == e)) [
  | inl de ↦ inr (map_entity-is_at e n c d ∙ ap (λ x. x || is_at n (c.place d)) de)
  | inr de ↦ inl (elim (Option-cases (c.place e)) [
    | inl h ↦ rw h (rw (add_entity-place e n c) (rw de refl))
    | inr (k, h) ↦ rw h (elim (Bool-cases (text_eq k n)) [
      | inl kn ↦ rw kn refl
      | inr kn ↦
          rw kn (
            rw (add_entity-place e n (remove_entity e k c) ∙ remove_entity-place e k c)
              (rw de refl))
    ])
  ])
]

map_each-stays :
    (n : Text) (bs : List BusId) (r : Resources) (c : Containers) (d : ℕ)
    → ((map_each n bs r c).1.place d ≡ c.place d) ⊎ (is_at n ((map_each n bs r c).1.place d) ≡ true)
unfolding map_each
map_each-stays n [] r c d = inl refl
map_each-stays n (b ∷ bs) r c d =
    elim (map_each-stays n bs (get_entity b r).1 (map_entity (get_entity b r).0 n c) d) [
      | inr h ↦ inr h
      | inl h ↦ elim (map_entity-stays (get_entity b r).0 n c d) [
        | inl k ↦ inl (h ∙ k)
        | inr k ↦ inr (ap (is_at n) h ∙ k)
      ]
    ]

map_each-IsPlaced :
    (n : Text) (bs : List BusId) (r : Resources) (c : Containers)
    → IsPlaced c
    → IsPlaced (map_each n bs r c).1
unfolding map_each
map_each-IsPlaced n [] r c p = p
map_each-IsPlaced n (b ∷ bs) r c p =
    map_each-IsPlaced n bs (get_entity b r).1 (map_entity (get_entity b r).0 n c)
      (map_entity-IsPlaced (get_entity b r).0 n c p)

get_container-held : (n : Text) (c : Containers) → (get_container n c).held ≡ c.held
unfolding get_container
get_container-held n c = ground arith

get_container-place : (n : Text) (c : Containers) → (get_container n c).place ≡ c.place
unfolding get_container
get_container-place n c = ground arith

-- From well-formed entities and containers that hold just the entities mapped to them: MapContainer keeps that so,
-- puts the entity of every identifier given into the container named, out of the one it was in, and leaves every
-- entity that does not come into that container where it was.
pub map_container-IsPlaced :
    (n : Text) (bs : List BusId) (r : Resources) (c : Containers)
    → IsWellFormed r
    → IsPlaced c
    → let after = map_container n bs r c in
      IsPlaced after.1
      × All (IsIn n after.0 after.1) bs
      × ((d : ℕ) → (after.1.place d ≡ c.place d) ⊎ (is_at n (after.1.place d) ≡ true))
unfolding map_container
map_container-IsPlaced n bs r c w p = (
  map_each-IsPlaced n bs r (get_container n c)
      (λ e m. rw (get_container-held n c) (rw (get_container-place n c) (p e m))),
  map_each-All-IsIn n bs r (get_container n c) w,
  λ d. elim (map_each-stays n bs r (get_container n c) d) [
    | inl h ↦ inl (h ∙ ap (λ f. f d) (get_container-place n c))
    | inr h ↦ inr h
  ],
)
