-- ===== src/Prelude/Text.antt =====
-- What the program uses of Go's packages `strings` and `bufio`, on texts walked by characters.
pub mod Laws
use Prim.Native.Nat.{ℕ}
use Prim.Native.Char.{Char, code}
use Prim.Native.String.{String, [], ◌∷◌, ◌++◌ as ◌<>◌, len}
use mathlib.Core.Path.{◌≡◌, refl, sym, ap, ◌∙◌}
use mathlib.Core.Logic.{◌≢◌}
use mathlib.Core.Bool.{Bool, true, false, ◌||◌}
use mathlib.Core.List
use mathlib.Core.List.{List, map}
use native.Mathlib.Omega.{arith}
use text.Mathlib.Text.{◌==◌, starts_with}
use text.Mathlib.TextLemmas.{nil-append, cons-append}
use o2_ims_worker.Prelude.Tests.{ltb, nat_eq, if◌then◌else◌}

-- A character put in front of the first part.
unfoldable pub cons_head : Char → List String → List String
cons_head c List.[] = List.◌∷◌ (c ∷ []) List.[]
cons_head c (List.◌∷◌ p ps) = List.◌∷◌ (c ∷ p) ps

-- `strings.Split(s, sep)` for a separator of one character, given by its code.
unfoldable pub split_on : ℕ → String → List String
unfolding cons_head
split_on sep [] = List.◌∷◌ [] List.[]
split_on sep (c ∷ s) =
    let rest = split_on sep s in if nat_eq (code c) sep then List.◌∷◌ [] rest else cons_head c rest

-- `strings.ReplaceAll(s, old, new)` for two texts of one character.
unfoldable pub replace_all : ℕ → Char → String → String
replace_all old new [] = []
replace_all old new (c ∷ s) =
    let rest = replace_all old new s in (if nat_eq (code c) old then new else c) ∷ rest

-- `strings.Contains(s, part)`
unfoldable pub contains : String → String → Bool
contains [] part = starts_with [] part
contains (c ∷ s) part = starts_with (c ∷ s) part || contains s part

-- `bufio.ScanLines` cuts off one carriage return.
unfoldable pub drop_cr : String → String
drop_cr [] = []
drop_cr (c ∷ []) = if nat_eq (code c) 13 then [] else c ∷ []
drop_cr (c ∷ d ∷ s) = c ∷ drop_cr (d ∷ s)

-- What follows the last newline is a line only if it is not empty.
unfoldable pub drop_last_empty : List String → List String
drop_last_empty List.[] = List.[]
drop_last_empty (List.◌∷◌ p List.[]) = if p == "" then List.[] else List.◌∷◌ p List.[]
drop_last_empty (List.◌∷◌ p (List.◌∷◌ q ps)) = List.◌∷◌ p (drop_last_empty (List.◌∷◌ q ps))

-- A `Scanner` stops for good at a line that does not fit its buffer of 64 KiB.
unfoldable pub take_fitting : List String → List String
take_fitting List.[] = List.[]
take_fitting (List.◌∷◌ p ps) =
    let rest = take_fitting ps in if ltb (len p) 65536 then List.◌∷◌ p rest else List.[]

-- The texts that a loop `for scanner.Scan() { … scanner.Text() … }` sees.
unfoldable pub scan_lines : String → List String
unfolding drop_cr drop_last_empty take_fitting split_on
scan_lines s = map drop_cr (take_fitting (drop_last_empty (split_on 10 s)))

-- No character of the text has the code `sep`.
abbrev pub Lacks : ℕ → String → Type 0
Lacks sep [] = Unit
Lacks sep (c ∷ s) = (code c ≢ sep) × Lacks sep s

pub Lacks-append : (sep : ℕ) (s t : String) → Lacks sep s → Lacks sep t → Lacks sep (s <> t)
Lacks-append sep [] t h k = rw nil-append k
Lacks-append sep (c ∷ s) t h k = rw cons-append (h.0, Lacks-append sep s t h.1 k)
