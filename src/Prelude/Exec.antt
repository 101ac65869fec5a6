-- ===== src/Prelude/Exec.antt =====
-- Code that reads and writes process state, may panic, may end the process by `log.Fatalf`, and may
-- wait for ever.
-- What was written before a panic stays written, so the state comes back beside the failure.
use Prim.Native.String.{String}
use mathlib.Core.Path.{◌≡◌, refl}

pub data Outcome {ℓ} (A : Type ℓ) : Type ℓ where
  returns : A → Outcome A
  panics : String → Outcome A
  exits : String → Outcome A
  stalls : Outcome A

abbrev pub Exec {ℓ} : Type ℓ → Type ℓ → Type ℓ
Exec S A = S → Outcome A × S

module _ {ℓ} {S A : Type ℓ} where
  abbrev pub pure : A → Exec S A
  pure a s = (returns a, s)

  abbrev pub panic : String → Exec S A
  panic msg s = (panics msg, s)

  abbrev pub fatal : String → Exec S A
  fatal msg s = (exits msg, s)

  abbrev pub stall : Exec S A
  stall s = (stalls, s)

  abbrev pub gets : (S → A) → Exec S A
  gets f s = (returns (f s), s)

abbrev pub modify : {S : Type 0} → (S → S) → Exec S Unit
modify f s = (returns tt, f s)

module _ {ℓ} {S A B : Type ℓ} where
  abbrev pub continue : Outcome A → (A → Exec S B) → Exec S B
  continue (returns a) f s = f a s
  continue (panics msg) f s = (panics msg, s)
  continue (exits msg) f s = (exits msg, s)
  continue stalls f s = (stalls, s)

  infixl 5 ◌>>=◌ ◌>>◌
  abbrev pub ◌>>=◌ : Exec S A → (A → Exec S B) → Exec S B
  ◌>>=◌ m f s = continue (m s).0 f (m s).1

  abbrev pub ◌>>◌ : Exec S A → Exec S B → Exec S B
  m >> n = m >>= λ _. n

-- What a deferred call does after a run: it follows a return and a panic, not `log.Fatalf`, and not
-- a run that never ends.
abbrev pub settle {ℓ} : {S : Type ℓ} {A B : Type ℓ} → Exec S B → Outcome A → S → Outcome A × S
settle cleanup (returns a) s = (cleanup >>= λ _. pure a) s
settle cleanup (panics msg) s = (cleanup >>= λ _. panic msg) s
settle cleanup (exits msg) s = (exits msg, s)
settle cleanup stalls s = (stalls, s)

-- `defer cleanup()`, and the rest of the function.
abbrev pub defer {ℓ} : {S A B : Type ℓ} → Exec S B → Exec S A → Exec S A
defer cleanup body s = settle cleanup (body s).0 (body s).1

-- The run came to its end.
abbrev pub Returns {ℓ} : {A : Type ℓ} → Outcome A → Type 0
Returns (returns a) = Unit
Returns _ = ⊥

-- The run ended the process, or never ended: what it deferred is not called.
abbrev pub SkipsDefers {ℓ} : {A : Type ℓ} → Outcome A → Type 0
SkipsDefers (exits msg) = Unit
SkipsDefers stalls = Unit
SkipsDefers _ = ⊥

abbrev pub Stalls {ℓ} : {A : Type ℓ} → Outcome A → Type 0
Stalls stalls = Unit
Stalls _ = ⊥

-- A run whose continuation never returns does not return.
pub continue-fails {ℓ} :
    {S A B : Type ℓ} (o : Outcome A) (f : A → Exec S B) (s : S)
    → ((a : A) → ¬ Returns (f a s).0)
    → ¬ Returns (continue o f s).0
continue-fails (returns a) f s h = h a
continue-fails (panics msg) f s h = λ r. r
continue-fails (exits msg) f s h = λ r. r
continue-fails stalls f s h = λ r. r

-- What holds of the state before a continuation, and after it whatever it is given, holds.
pub continue-keeps {ℓ κ} :
    {S A B : Type ℓ} (P : S → Type κ) (o : Outcome A) (f : A → Exec S B) (s : S)
    → P s
    → ((a : A) → P (f a s).1)
    → P (continue o f s).1
continue-keeps P (returns a) f s p h = h a
continue-keeps P (panics msg) f s p h = p
continue-keeps P (exits msg) f s p h = p
continue-keeps P stalls f s p h = p

-- A run that does not return is not continued.
pub continue-stops {ℓ} :
    {S A B : Type ℓ} (o : Outcome A) (f : A → Exec S B) (s : S)
    → ¬ Returns o
    → (¬ Returns (continue o f s).0) × ((continue o f s).1 ≡ s)
continue-stops (returns a) f s h = absurd (h tt)
continue-stops (panics msg) f s h = (λ r. r, refl)
continue-stops (exits msg) f s h = (λ r. r, refl)
continue-stops stalls f s h = (λ r. r, refl)

abbrev pub OnReturn {ℓ κ} : {A : Type ℓ} → (A → Type κ) → Outcome A → Type κ
OnReturn R (returns a) = R a
OnReturn R _ = Unit

-- What every continuation returns is returned at the end; a deferred call changes no result.
pub continue-OnReturn {ℓ κ} :
    {S A B : Type ℓ} (R : B → Type κ) (o : Outcome A) (f : A → Exec S B) (s : S)
    → ((a : A) (t : S) → OnReturn R (f a t).0)
    → OnReturn R (continue o f s).0
continue-OnReturn R (returns a) f s h = h a s
continue-OnReturn R (panics msg) f s h = tt
continue-OnReturn R (exits msg) f s h = tt
continue-OnReturn R stalls f s h = tt

pub settle-OnReturn {ℓ κ} :
    {S A B : Type ℓ} (R : A → Type κ) (cleanup : Exec S B) (o : Outcome A) (s : S)
    → OnReturn R o
    → OnReturn R (settle cleanup o s).0
settle-OnReturn R cleanup (returns a) s h =
    continue-OnReturn R (cleanup s).0 (λ _. pure a) (cleanup s).1 (λ _ _. h)
settle-OnReturn {A} R cleanup (panics msg) s h =
    continue-OnReturn R (cleanup s).0 (λ _. panic {A = A} msg) (cleanup s).1 (λ _ _. tt)
settle-OnReturn R cleanup (exits msg) s h = tt
settle-OnReturn R cleanup stalls s h = tt

-- However a run ends, its state satisfies `P`, and what it returns satisfies `R`.
abbrev pub Ends {ℓ κ} : {S A : Type ℓ} → (S → Type κ) → (A → Type κ) → Outcome A × S → Type κ
Ends P R run = P run.1 × OnReturn R run.0

pub continue-Ends {ℓ κ} :
    {S A B : Type ℓ} (P : S → Type κ) (R : B → Type κ) (o : Outcome A) (f : A → Exec S B) (s : S)
    → P s
    → ((a : A) → o ≡ returns a → Ends P R (f a s))
    → Ends P R (continue o f s)
continue-Ends P R (returns a) f s p k = k a refl
continue-Ends P R (panics msg) f s p k = (p, tt)
continue-Ends P R (exits msg) f s p k = (p, tt)
continue-Ends P R stalls f s p k = (p, tt)
