-- ===== src/Prelude/Keeps.antt =====
-- Invariants of computations, one rule for each way to build one.
use Prim.Native.String.{String}
use mathlib.Core.Bool.{Bool, true, false}
use o2_ims_worker.Prelude.Tests.{if◌then◌else◌}
use o2_ims_worker.Prelude.Exec.{
  Outcome, returns, panics, exits, stalls, Exec, pure, panic, gets, modify, continue, ◌>>=◌, settle,
  defer,
}

-- Run from a state that satisfies `P`, this leaves one that does, however it ends.
pub record Keeps {ℓ κ} {S A : Type ℓ} (P : S → Type κ) (m : Exec S A) : Type (ℓ ⊔ κ) where
  pub at : (s : S) → P s → P (m s).1

module _ {ℓ κ} {S A : Type ℓ} {P : S → Type κ} where
  pub Keeps-pure : (a : A) → Keeps P (pure a)
  Keeps-pure a = record { at = λ s h. h }

  pub Keeps-panic : (msg : String) → Keeps P (panic {A = A} msg)
  Keeps-panic msg = record { at = λ s h. h }

  pub Keeps-gets : (f : S → A) → Keeps P (gets f)
  Keeps-gets f = record { at = λ s h. h }

  pub Keeps-if : (b : Bool) (m n : Exec S A) → Keeps P m → Keeps P n → Keeps P (if b then m else n)
  Keeps-if true m n km kn = km
  Keeps-if false m n km kn = kn

pub Keeps-modify {κ} :
    {S : Type 0} {P : S → Type κ} (f : S → S) → ((s : S) → P s → P (f s)) → Keeps P (modify f)
Keeps-modify f k = record { at = k }

module _ {ℓ κ} {S A B : Type ℓ} {P : S → Type κ} where
  Keeps-continue :
      (o : Outcome A) (f : A → Exec S B) (s : S)
      → P s
      → ((a : A) → Keeps P (f a))
      → P (continue o f s).1
  Keeps-continue (returns a) f s h k = (k a).at s h
  Keeps-continue (panics msg) f s h k = h
  Keeps-continue (exits msg) f s h k = h
  Keeps-continue stalls f s h k = h

  pub Keeps-bind :
      (m : Exec S A) (f : A → Exec S B) → Keeps P m → ((a : A) → Keeps P (f a)) → Keeps P (m >>= f)
  Keeps-bind m f km kf = record { at = λ s h. Keeps-continue (m s).0 f (m s).1 (km.at s h) kf }

module _ {ℓ κ} {S A B : Type ℓ} {P : S → Type κ} where
  settle-keeps :
      (cleanup : Exec S B) (o : Outcome A) (s : S)
      → Keeps P cleanup
      → P s
      → P (settle cleanup o s).1
  settle-keeps cleanup (returns a) s k h =
      (Keeps-bind cleanup (λ _. pure a) k (λ _. Keeps-pure a)).at s h
  settle-keeps cleanup (panics msg) s k h =
      (Keeps-bind cleanup (λ _. panic {A = A} msg) k (λ _. Keeps-panic msg)).at s h
  settle-keeps cleanup (exits msg) s k h = h
  settle-keeps cleanup stalls s k h = h

  pub Keeps-defer :
      (cleanup : Exec S B) (m : Exec S A) → Keeps P cleanup → Keeps P m → Keeps P (defer cleanup m)
  Keeps-defer cleanup m kc km = record {
    at = λ s h. settle-keeps cleanup (m s).0 (m s).1 kc (km.at s h);
  }

pub ruleset keeps_rules = (Keeps-pure, Keeps-panic, Keeps-gets, Keeps-if, Keeps-bind, Keeps-defer)
