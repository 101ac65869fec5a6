-- ===== src/Prelude/Text/Laws.antt =====
-- Laws of splitting, of the line scanner and of replacement.
use Prim.Native.Nat.{ℕ, ◌+◌, ◌<◌}
use Prim.Native.Char.{Char, code}
use Prim.Native.String.{String, [], ◌∷◌, ◌++◌ as ◌<>◌, len}
use mathlib.Core.Path.{◌≡◌, refl, ap, ap₂}
use mathlib.Core.Logic.{◌≢◌, inl, inr}
use mathlib.Core.Bool.{true, false}
use mathlib.Core.List.{List, ◌++◌}
use native.Mathlib.Omega.{arith}
use text.Mathlib.TextEquality.{Char-path}
use text.Mathlib.TextLemmas.{nil-append, cons-append}
use o2_ims_worker.Prelude.Tests.{nat_eq, if◌then◌else◌, Bool-cases}
use o2_ims_worker.Prelude.Lists.{All, length}
use o2_ims_worker.Prelude.Text.{
  cons_head, split_on, replace_all, drop_cr, drop_last_empty, take_fitting, Lacks,
}

cons_head-append :
    (c : Char) (p : String) (ps qs : List String)
    → cons_head c (List.◌∷◌ p ps ++ qs) ≡ cons_head c (List.◌∷◌ p ps) ++ qs
unfolding cons_head
cons_head-append c p ps qs = refl

pub split_on-cons :
    (sep : ℕ) (s : String) → (p : String) × (ps : List String) × (split_on sep s ≡ List.◌∷◌ p ps)
unfolding split_on
split_on-cons sep [] = ([], List.[], refl)
split_on-cons sep (c ∷ s) = elim (Bool-cases (nat_eq (code c) sep)) [
  | inl h ↦ ([], split_on sep s, rw h)
  | inr h ↦ let (p, ps, e) = split_on-cons sep s in (c ∷ p, ps, rw (h, e))
]

-- A separator in the middle splits a text into the parts of its two sides.
pub split_on-append :
    (sep : ℕ) (c : Char) (s t : String)
    → code c ≡ sep
    → split_on sep (s <> (c ∷ t)) ≡ split_on sep s ++ split_on sep t
unfolding split_on
split_on-append sep c [] t e = rw nil-append (ground arith)
split_on-append sep c (d ∷ s) t e =
    let ih = split_on-append sep c s t e in
    let (p, ps, q) = split_on-cons sep s in
    rw cons-append (elim (Bool-cases (nat_eq (code d) sep)) [
      | inl h ↦ rw h (ap (List.◌∷◌ []) ih)
      | inr h ↦ rw (h, ih, q) refl
    ])

-- The same, with the separator as a text of its own.
pub split_on-append_text :
    (sep : ℕ) (c : Char) (s t : String)
    → code c ≡ sep
    → split_on sep (s <> ((c ∷ []) <> t)) ≡ split_on sep s ++ split_on sep t
split_on-append_text sep c s t e = rw (cons-append, nil-append) (split_on-append sep c s t e)

pub split_on-Lacks : (sep : ℕ) (s : String) → Lacks sep s → split_on sep s ≡ List.◌∷◌ s List.[]
unfolding split_on
split_on-Lacks sep [] h = refl
split_on-Lacks sep (c ∷ s) h = ground (arith, split_on-Lacks sep s h.1)

pub length-split_on-cons :
    (sep : ℕ) (c : Char) (s : String)
    → length (split_on sep (c ∷ s))
      ≡ (if nat_eq (code c) sep then length (split_on sep s) + 1 else length (split_on sep s))
unfolding split_on cons_head
length-split_on-cons sep c s =
    let (p, ps, e) = split_on-cons sep s in
    elim (Bool-cases (nat_eq (code c) sep)) [ inl h ↦ rw h (omega arith) | inr h ↦ rw (h, e) refl ]

one_part : (s : String) → s ≡ [] → length (split_on b',' s) ≡ 1
unfolding split_on
one_part s e = rw e refl

-- Cutting off a carriage return changes no count of commas.
pub length-split_on-drop_cr :
    (s : String) → length (split_on b',' (drop_cr s)) ≡ length (split_on b',' s)
unfolding drop_cr
length-split_on-drop_cr [] = refl
length-split_on-drop_cr (c ∷ []) = elim (Bool-cases (nat_eq (code c) 13)) [
  | inl h ↦ rw h (ground (arith, length-split_on-cons b',' c [], one_part [] refl))
  | inr h ↦ rw h refl
]
length-split_on-drop_cr (c ∷ d ∷ s) =
    rw
      (
        length-split_on-cons b',' c (drop_cr (d ∷ s)),
        length-split_on-cons b',' c (d ∷ s),
        length-split_on-drop_cr (d ∷ s),
      )
      refl

pub drop_last_empty-append :
    (ps : List String) (l : String)
    → drop_last_empty (ps ++ List.◌∷◌ l (List.◌∷◌ [] List.[])) ≡ ps ++ List.◌∷◌ l List.[]
unfolding drop_last_empty
drop_last_empty-append List.[] l = refl
drop_last_empty-append (List.◌∷◌ p List.[]) l = refl
drop_last_empty-append (List.◌∷◌ p (List.◌∷◌ q ps)) l =
    ap (List.◌∷◌ p) (drop_last_empty-append (List.◌∷◌ q ps) l)

-- A line short enough for the scanner's buffer.
abbrev pub Fits : String → Type 0
Fits l = len l < 65536

pub take_fitting-All : (ps : List String) → All Fits ps → take_fitting ps ≡ ps
unfolding take_fitting
take_fitting-All List.[] h = refl
take_fitting-All (List.◌∷◌ p ps) h = let ih = take_fitting-All ps h.1 in ground (arith, ih, h.0)

swapped_back :
    (old new c : Char)
    → code c ≢ code new
    → let d = if nat_eq (code c) (code old) then new else c in
      (if nat_eq (code d) (code new) then old else d) ≡ c
swapped_back old new c h = elim (Bool-cases (nat_eq (code c) (code old))) [
  | inl e ↦
      let same : nat_eq (code new) (code new) ≡ true = ground arith in
      let found : code old ≡ code c = ground arith in rw (e, same) (Char-path old c found)
  | inr e ↦ let other : nat_eq (code c) (code new) ≡ false = ground arith in rw (e, other) refl
]

-- Replacing and replacing back gives the text again, if the new character did not occur in it.
pub replace_all-replace_all :
    (old new : Char) (s : String)
    → Lacks (code new) s
    → replace_all (code new) old (replace_all (code old) new s) ≡ s
unfolding replace_all
replace_all-replace_all old new [] h = refl
replace_all-replace_all old new (c ∷ s) h =
    ap₂ ◌∷◌ (swapped_back old new c h.0) (replace_all-replace_all old new s h.1)

-- The replaced character does not occur in the result, if it is not the new one.
pub replace_all-Lacks :
    (old : ℕ) (new : Char) (s : String) → code new ≢ old → Lacks old (replace_all old new s)
unfolding replace_all
replace_all-Lacks old new [] h = tt
replace_all-Lacks old new (c ∷ s) h = ground (arith, replace_all-Lacks old new s h)

pub replace_all-keeps_Lacks :
    (sep old : ℕ) (new : Char) (s : String)
    → code new ≢ sep
    → Lacks sep s
    → Lacks sep (replace_all old new s)
unfolding replace_all
replace_all-keeps_Lacks sep old new [] n h = tt
replace_all-keeps_Lacks sep old new (c ∷ s) n h = elim (Bool-cases (nat_eq (code c) old)) [
  | inl e ↦ rw e (n, replace_all-keeps_Lacks sep old new s n h.1)
  | inr e ↦ rw e (h.0, replace_all-keeps_Lacks sep old new s n h.1)
]
