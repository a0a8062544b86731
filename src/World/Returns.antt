-- ===== src/World/Returns.antt =====
-- Actions that return: rules as for what actions keep.
use activitymanager.Prelude.{arith, ◌≡◌, refl, Bool, true, false, if◌then◌else◌}
use activitymanager.World.{World, Outcome, done, raised, M, pure, gets, ◌>>=◌, onward, modify}

abbrev pub is_done : {A : Type 0} → Outcome A → Bool
is_done (done a) = true
is_done (raised e) = false

-- From `P`, `m` returns, and `P` holds again.
pub record Returns {A : Type 0} (P : World → Type 0) (m : M A) : Type 0 where
  pub returns : (w : World) → P w → (is_done (m w).0 ≡ true) × P (m w).1

module _ {A : Type 0} {P : World → Type 0} where
  pub Returns-pure : (a : A) → Returns P (pure a)
  unfolding pure
  Returns-pure a = record { returns = λ w h. (refl, h) }

  pub Returns-gets : (f : World → A) → Returns P (gets f)
  unfolding gets
  Returns-gets f = record { returns = λ w h. (refl, h) }

  pub Returns-if :
      (b : Bool) (m n : M A) → Returns P m → Returns P n → Returns P (if b then m else n)
  Returns-if true m n km kn = km
  Returns-if false m n km kn = kn

module _ {P : World → Type 0} where
  pub Returns-modify : (f : World → World) → ((w : World) → P w → P (f w)) → Returns P (modify f)
  unfolding modify
  Returns-modify f h = record { returns = λ w g. (refl, h w g) }

module _ {A B : Type 0} {P : World → Type 0} where
  Returns-onward :
      (r : Outcome A) (f : A → M B)
      → ((a : A) → Returns P (f a))
      → (w : World) → (is_done r ≡ true) × P w
      → (is_done (onward r f w).0 ≡ true) × P (onward r f w).1
  Returns-onward (done a) f kf w h = (kf a).returns w h.1
  Returns-onward (raised e) f kf w h = ground (arith, h.0)

  pub Returns-bind :
      (m : M A) (f : A → M B) → Returns P m → ((a : A) → Returns P (f a)) → Returns P (m >>= f)
  unfolding ◌>>=◌
  Returns-bind m f km kf = record {
    returns = λ w h. Returns-onward (m w).0 f kf (m w).1 (km.returns w h);
  }

pub ruleset returns_rules = (Returns-pure, Returns-gets, Returns-if, Returns-bind, Returns-modify)

module _ {A B : Type 0} where
  onward_done : (r : Outcome A) (k : M B) (v : World) → is_done r ≡ true → onward r (λ _. k) v ≡ k v
  onward_done (done a) k v h = refl
  onward_done (raised e) k v h = ground (arith, h)

  onward_some :
      (r : Outcome A) (f : A → M B) (v : World)
      → is_done r ≡ true
      → (a : A) × (onward r f v ≡ f a v)
  onward_some (done a) f v h = (a, refl)
  onward_some (raised e) f v h = absurd (ground (arith, h))

  -- As below, where what follows takes the result.
  pub bind-done :
      (m : M A) (f : A → M B) (w : World)
      → is_done (m w).0 ≡ true
      → (a : A) × ((m >>= f) w ≡ f a (m w).1)
  unfolding ◌>>=◌
  bind-done m f w h = onward_some (m w).0 f (m w).1 h

  -- What follows an action that returns.
  pub then-done :
      (m : M A) (k : M B) (w : World) → is_done (m w).0 ≡ true → (m >>= λ _. k) w ≡ k (m w).1
  unfolding ◌>>=◌
  then-done m k w h = onward_done (m w).0 k (m w).1 h
