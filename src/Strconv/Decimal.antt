-- ===== src/Strconv/Decimal.antt =====
-- `Atoi` reads back what `Itoa` prints, and never leaves the range of an `int`.
use Prim.Native.Nat.{◌/◌, ◌%◌}
use Prim.Native.String.{[], ◌∷◌}
use native.Mathlib.Nat.{pow-suc}
use text.Mathlib.TextLemmas.{nil-append, cons-append, cons≢nil}
use o2_ims_worker.Prelude.{
  ℕ, zero, suc, ◌+◌, ◌-◌, ◌*◌, ◌^◌, ◌<◌, Char, code, String, ◌<>◌, ◌≡◌, ◌≢◌, refl, sym, ap, Bool,
  true, false, Option, none, some, arith, ltb, nat_eq, Bool-cases, inl, inr, ◌∙◌,
}
use o2_ims_worker.Prelude.Int.{ℤ, pos, negsuc, IsInt64}
use o2_ims_worker.Prelude.Text.{Lacks, Lacks-append}
use o2_ims_worker.Strconv.{
  is_digit, digits_from, magnitude, signed, atoi, digit, show_from, show, itoa,
}

code-digit : (n : ℕ) → n < 10 → code (digit n) ≡ n + b'0'
code-digit zero h = refl
code-digit (suc zero) h = refl
code-digit (suc (suc zero)) h = refl
code-digit (suc (suc (suc zero))) h = refl
code-digit (suc (suc (suc (suc zero)))) h = refl
code-digit (suc (suc (suc (suc (suc zero))))) h = refl
code-digit (suc (suc (suc (suc (suc (suc zero)))))) h = refl
code-digit (suc (suc (suc (suc (suc (suc (suc zero))))))) h = refl
code-digit (suc (suc (suc (suc (suc (suc (suc (suc zero)))))))) h = refl
code-digit (suc (suc (suc (suc (suc (suc (suc (suc (suc zero))))))))) h = refl
code-digit (suc (suc (suc (suc (suc (suc (suc (suc (suc (suc n)))))))))) h = absurd (omega arith)

digits_from-digit :
    (a n : ℕ) (s : String) → n < 10 → digits_from a (digit n ∷ s) ≡ digits_from (a * 10 + n) s
unfolding digits_from
digits_from-digit a n s h =
    let e : code (digit n) - b'0' ≡ n = omega (arith, code-digit n h) in
    let t : is_digit (code (digit n)) ≡ true = ground (arith, code-digit n h) in rw t (rw e refl)

plain : (n : ℕ) → 0 * 10 + n ≡ n
plain n = omega arith

regroup : (n : ℕ) → n / 10 * 10 + n % 10 ≡ n
regroup n = omega arith

below : (fuel n : ℕ) → n < 10 ^ suc fuel → n / 10 < 10 ^ fuel
below fuel n h = omega (arith, pow-suc 10 fuel)

-- Reading what was printed goes on from the printed number.
digits_from-show_from :
    (fuel n : ℕ) (tail : String)
    → n < 10 ^ fuel
    → digits_from 0 (show_from fuel n tail) ≡ digits_from n tail
unfolding show_from
digits_from-show_from zero n tail h = let e : n ≡ 0 = omega arith in rw e refl
digits_from-show_from (suc fuel) n tail h = elim (Bool-cases (ltb n 10)) [
  | inl small ↦
      rw small (digits_from-digit 0 n tail (ground arith) ∙ ap (λ k. digits_from k tail) (plain n))
  | inr large ↦ rw large (
      digits_from-show_from fuel (n / 10) (digit (n % 10) ∷ tail) (below fuel n h)
      ∙ digits_from-digit (n / 10) (n % 10) tail (omega arith)
      ∙ ap (λ k. digits_from k tail) (regroup n))
]

-- What is printed in front of a digit begins with a digit.
show_from-digit :
    (fuel n d : ℕ) (tail : String)
    → d < 10
    → (e : ℕ) × (rest : String) × (e < 10) × (show_from fuel n (digit d ∷ tail) ≡ digit e ∷ rest)
unfolding show_from
show_from-digit zero n d tail h = (d, tail, h, refl)
show_from-digit (suc fuel) n d tail h = elim (Bool-cases (ltb n 10)) [
  | inl small ↦ (n, digit d ∷ tail, ground arith, rw small refl)
  | inr large ↦
      let (e, rest, b, q) = show_from-digit fuel (n / 10) (n % 10) (digit d ∷ tail) (omega arith) in
      (e, rest, b, rw large q)
]

show-digit : (n : ℕ) → (e : ℕ) × (rest : String) × (e < 10) × (show n ≡ digit e ∷ rest)
unfolding show show_from
show-digit n = elim (Bool-cases (ltb n 10)) [
  | inl small ↦ (n, [], ground arith, rw small refl)
  | inr large ↦
      let (e, rest, b, q) = show_from-digit 19 (n / 10) (n % 10) [] (omega arith) in
      (e, rest, b, rw large q)
]

magnitude-cons :
    (s : String) (c : Char) (rest : String) → s ≡ c ∷ rest → magnitude s ≡ digits_from 0 s
unfolding magnitude
magnitude-cons s c rest e = rw e refl

magnitude-show : (n : ℕ) → n < 10 ^ 20 → magnitude (show n) ≡ some n
magnitude-show n h =
    let (e, rest, b, q) = show-digit n in
    magnitude-cons (show n) (digit e) rest q
    ∙ unfold show digits_from in digits_from-show_from 20 n [] h

-- Text that begins with neither sign is read as a magnitude.
atoi-unsigned :
    (s : String) (c : Char) (rest : String)
    → s ≡ c ∷ rest
    → nat_eq (code c) b'-' ≡ false
    → nat_eq (code c) b'+' ≡ false
    → atoi s ≡ signed false (magnitude s)
unfolding atoi
atoi-unsigned s c rest e m p = rw e (rw m (rw p refl))

atoi-negative : (s : String) → atoi ("-" <> s) ≡ signed true (magnitude s)
unfolding atoi
atoi-negative s = rw (cons-append, nil-append) refl

-- Every `int` is read back from its decimal text.
pub atoi-itoa : (z : ℤ) → IsInt64 z → atoi (itoa z) ≡ some z
unfolding itoa
atoi-itoa (pos n) h =
    let (e, rest, b, q) = show-digit n in
    atoi-unsigned (show n) (digit e) rest q (ground (arith, code-digit e b))
      (ground (arith, code-digit e b))
    ∙ ap (signed false) (magnitude-show n (omega arith))
    ∙ ground arith
atoi-itoa (negsuc n) h =
    atoi-negative (show (suc n))
    ∙ ap (signed true) (magnitude-show (suc n) (omega arith))
    ∙ ground arith

signed-IsInt64 : (negative : Bool) (o : Option ℕ) (z : ℤ) → signed negative o ≡ some z → IsInt64 z
signed-IsInt64 true (some zero) z h = ground arith
signed-IsInt64 true (some (suc n)) z h = ground arith
signed-IsInt64 false (some n) z h = ground arith
signed-IsInt64 negative none z h = cc

-- What `Atoi` accepts is a 64-bit `int`.
pub atoi-IsInt64 : (s : String) (z : ℤ) → atoi s ≡ some z → IsInt64 z
unfolding atoi
atoi-IsInt64 [] z h = cc
atoi-IsInt64 (c ∷ s) z h = ground (
  arith,
  signed-IsInt64 true (magnitude s) z,
  signed-IsInt64 false (magnitude s) z,
  signed-IsInt64 false (magnitude (c ∷ s)) z,
)

pub itoa-ne-empty : (z : ℤ) → itoa z ≢ ""
unfolding itoa
itoa-ne-empty (pos n) e = let (d, rest, b, q) = show-digit n in cons≢nil (sym q ∙ e)
itoa-ne-empty (negsuc n) e = cons≢nil (sym (cons-append "-" [] (show (suc n))) ∙ e)

show_from-Lacks :
    (sep fuel n : ℕ) (tail : String)
    → sep < b'0'
    → Lacks sep tail
    → Lacks sep (show_from fuel n tail)
unfolding show_from
show_from-Lacks sep zero n tail low h = h
show_from-Lacks sep (suc fuel) n tail low h = elim (Bool-cases (ltb n 10)) [
  | inl e ↦ rw e (omega (arith, code-digit n (ground (arith, e))), h)
  | inr e ↦ rw e (
      show_from-Lacks sep fuel (n / 10) (digit (n % 10) ∷ tail) low
        (omega (arith, code-digit (n % 10) (omega arith)), h))
]

-- A decimal text holds no character below the digits but the sign.
pub itoa-Lacks : (sep : ℕ) (z : ℤ) → sep < b'0' → sep ≢ b'-' → Lacks sep (itoa z)
unfolding itoa show
itoa-Lacks sep (pos n) low sign = show_from-Lacks sep 20 n [] low tt
itoa-Lacks sep (negsuc n) low sign =
    Lacks-append sep "-" (show (suc n)) (omega arith, tt) (show_from-Lacks sep 20 (suc n) [] low tt)
