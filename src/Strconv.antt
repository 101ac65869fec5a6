-- ===== src/Strconv.antt =====
-- What the program uses of Go's package `strconv`: `ParseBool`, `Atoi` and `Itoa`.
pub mod Decimal
use Prim.Native.Char.{char}
use Prim.Native.Nat.{◌/◌, ◌%◌}
use Prim.Native.String.{[], ◌∷◌}
use o2_ims_worker.Prelude.{
  ℕ, zero, suc, ◌+◌, ◌-◌, ◌*◌, ◌^◌, Char, code, String, ◌<>◌, ◌==◌, Bool, true, false, ◌||◌, ◌&&◌,
  Option, none, some, ltb, leb, nat_eq, if◌then◌else◌,
}
use o2_ims_worker.Prelude.Int.{ℤ, pos, negsuc, negate}

-- `strconv.ParseBool`; `none` is the error.
unfoldable pub parse_bool : String → Option Bool
parse_bool s =
    if s == "1" || s == "t" || s == "T" || s == "TRUE" || s == "true" || s == "True"
    then some true
    else if s == "0" || s == "f" || s == "F" || s == "FALSE" || s == "false" || s == "False"
    then some false
    else none

abbrev pub is_digit : ℕ → Bool
is_digit c = leb b'0' c && leb c b'9'

-- The number that a text of digits continues, `none` at any other character.
unfoldable pub digits_from : ℕ → String → Option ℕ
digits_from n [] = some n
digits_from n (c ∷ s) =
    let rest = digits_from (n * 10 + (code c - b'0')) s in if is_digit (code c) then rest else none

-- A text of at least one digit.
unfoldable pub magnitude : String → Option ℕ
unfolding digits_from
magnitude [] = none
magnitude (c ∷ s) = digits_from 0 (c ∷ s)

-- The range check of a 64-bit `int`.
abbrev pub in_range : Bool → ℕ → Option ℤ
in_range true n = if leb n (2 ^ 63) then some (negate n) else none
in_range false n = if ltb n (2 ^ 63) then some (pos n) else none

abbrev pub signed : Bool → Option ℕ → Option ℤ
signed negative none = none
signed negative (some n) = in_range negative n

-- `strconv.Atoi`; `none` is the error.
unfoldable pub atoi : String → Option ℤ
unfolding magnitude
atoi [] = none
atoi (c ∷ s) =
    if nat_eq (code c) b'-'
    then signed true (magnitude s)
    else if nat_eq (code c) b'+'
    then signed false (magnitude s)
    else signed false (magnitude (c ∷ s))

abbrev pub digit : ℕ → Char
digit zero = "0"
digit (suc zero) = "1"
digit (suc (suc zero)) = "2"
digit (suc (suc (suc zero))) = "3"
digit (suc (suc (suc (suc zero)))) = "4"
digit (suc (suc (suc (suc (suc zero))))) = "5"
digit (suc (suc (suc (suc (suc (suc zero)))))) = "6"
digit (suc (suc (suc (suc (suc (suc (suc zero))))))) = "7"
digit (suc (suc (suc (suc (suc (suc (suc (suc zero)))))))) = "8"
digit (suc (suc (suc (suc (suc (suc (suc (suc (suc n))))))))) = "9"

-- The decimal digits of a number below `10 ^ fuel`, in front of `tail`.
unfoldable pub show_from : ℕ → ℕ → String → String
show_from zero n tail = tail
show_from (suc fuel) n tail =
    let more = show_from fuel (n / 10) (digit (n % 10) ∷ tail) in
    if ltb n 10 then digit n ∷ tail else more

-- Twenty digits are enough for 64 bits.
unfoldable pub show : ℕ → String
show n = show_from 20 n []

-- `strconv.Itoa`
unfoldable pub itoa : ℤ → String
itoa (pos n) = show n
itoa (negsuc n) = "-" <> show (suc n)
