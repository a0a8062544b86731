-- ===== src/World/Keeps.antt =====
-- Invariants of actions: one rule for each way in which an action is built.
use activitymanager.Prelude.{Bool, true, false, if◌then◌else◌}
use activitymanager.World.{
  World, Error, Outcome, done, raised, M, pure, raise, gets, ◌>>=◌, onward, modify,
}

-- `m` keeps `P`, whether it returns or throws.
pub record Keeps {ℓ} {A : Type 0} (P : World → Type ℓ) (m : M A) : Type ℓ where
  pub keeps : (w : World) → P w → P (m w).1

module _ {ℓ} {A : Type 0} {P : World → Type ℓ} where
  pub Keeps-pure : (a : A) → Keeps P (pure a)
  unfolding pure
  Keeps-pure a = record { keeps = λ w h. h }

  pub Keeps-raise : (e : Error) → Keeps P (raise {A = A} e)
  unfolding raise
  Keeps-raise e = record { keeps = λ w h. h }

  pub Keeps-gets : (f : World → A) → Keeps P (gets f)
  unfolding gets
  Keeps-gets f = record { keeps = λ w h. h }

  pub Keeps-if : (b : Bool) (m n : M A) → Keeps P m → Keeps P n → Keeps P (if b then m else n)
  Keeps-if true m n km kn = km
  Keeps-if false m n km kn = kn

module _ {ℓ} {P : World → Type ℓ} where
  pub Keeps-modify : (f : World → World) → ((w : World) → P w → P (f w)) → Keeps P (modify f)
  unfolding modify
  Keeps-modify f h = record { keeps = h }

module _ {ℓ} {A B : Type 0} {P : World → Type ℓ} where
  Keeps-onward :
      (r : Outcome A) (f : A → M B)
      → ((a : A) → Keeps P (f a))
      → (w : World) → P w
      → P (onward r f w).1
  Keeps-onward (done a) f kf w h = (kf a).keeps w h
  Keeps-onward (raised e) f kf w h = h

  pub Keeps-bind :
      (m : M A) (f : A → M B) → Keeps P m → ((a : A) → Keeps P (f a)) → Keeps P (m >>= f)
  unfolding ◌>>=◌
  Keeps-bind m f km kf = record { keeps = λ w h. Keeps-onward (m w).0 f kf (m w).1 (km.keeps w h) }

pub ruleset keeps_rules = (Keeps-pure, Keeps-raise, Keeps-gets, Keeps-if, Keeps-bind, Keeps-modify)

-- From `P`, `m` leads to `Q`, whether it returns or throws.
pub record Leads {ℓ} {A : Type 0} (P Q : World → Type ℓ) (m : M A) : Type ℓ where
  pub leads : (w : World) → P w → Q (m w).1

module _ {ℓ} {A : Type 0} {P : World → Type ℓ} where
  pub Leads-Keeps : {m : M A} → Keeps P m → Leads P P m
  Leads-Keeps k = record { leads = k.keeps }

  pub Keeps-Leads : {m : M A} → Leads P P m → Keeps P m
  Keeps-Leads l = record { keeps = l.leads }

module _ {ℓ} {P Q : World → Type ℓ} where
  pub Leads-modify : (f : World → World) → ((w : World) → P w → Q (f w)) → Leads P Q (modify f)
  unfolding modify
  Leads-modify f h = record { leads = h }

module _ {ℓ} {A : Type 0} {P Q : World → Type ℓ} where
  pub Leads-if : (b : Bool) (m n : M A) → Leads P Q m → Leads P Q n → Leads P Q (if b then m else n)
  Leads-if true m n km kn = km
  Leads-if false m n km kn = kn

module _ {ℓ} {A B : Type 0} {Q R : World → Type ℓ} where
  Leads-onward :
      (r : Outcome A) (f : A → M B)
      → ((a : A) → Leads Q R (f a))
      → ((w : World) → Q w → R w)
      → (w : World) → Q w
      → R (onward r f w).1
  Leads-onward (done a) f kf weaken w h = (kf a).leads w h
  Leads-onward (raised e) f kf weaken w h = weaken w h

module _ {ℓ} {A B : Type 0} {P Q R : World → Type ℓ} where
  -- `Q` holds in between, and is at least as strong as `R`, which holds also where `m` throws.
  pub Leads-bind :
      (m : M A) (f : A → M B)
      → Leads P Q m
      → ((a : A) → Leads Q R (f a))
      → ((w : World) → Q w → R w)
      → Leads P R (m >>= f)
  unfolding ◌>>=◌
  Leads-bind m f km kf weaken = record {
    leads = λ w h. Leads-onward (m w).0 f kf weaken (m w).1 (km.leads w h);
  }
