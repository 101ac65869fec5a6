-- ===== src/Prelude/Paths/Laws.antt =====
-- Laws of paths: where they lead, and how they are put together.
use Prim.Native.Nat.{ℕ}
use Prim.Native.Char.{Char, code}
use Prim.Native.String.{String, [] as empty, ◌∷◌ as ◌::◌, ◌++◌ as ◌<>◌}
use mathlib.Core.Path.{◌≡◌, refl, sym, ap, ◌∙◌}
use mathlib.Core.Logic.{◌≢◌, ◌⊎◌, inl, inr}
use mathlib.Core.List.{List, [], ◌∷◌, ◌++◌}
use native.Mathlib.Omega.{arith}
use text.Mathlib.TextEquality.{eq_iff}
use text.Mathlib.TextLemmas.{append_assoc, cons-append}
use o2_ims_worker.Prelude.Lists.{All}
use o2_ims_worker.Prelude.Text.{split_on, Lacks}
use o2_ims_worker.Prelude.Text.Laws.{split_on-append_text, split_on-Lacks}
use o2_ims_worker.Prelude.Paths.{enter, enter_all, resolve, join_onto, file_name, file_at}

pub enter_all-append :
    (stack xs ys : List String) → enter_all stack (xs ++ ys) ≡ enter_all (enter_all stack xs) ys
unfolding enter_all
enter_all-append stack [] ys = refl
enter_all-append stack (x ∷ xs) ys = enter_all-append (enter stack x) xs ys

-- A stack with `base` at its bottom.
abbrev pub IsUnder : List String → List String → Type 0
IsUnder base stack = (inner : List String) × (stack ≡ inner ++ base)

enter_plain :
    (stack : List String) (part : String)
    → part ≢ ".."
    → (enter stack part ≡ stack) ⊎ (enter stack part ≡ part ∷ stack)
unfolding enter
enter_plain stack part h = ground (arith, eq_iff part "..")

pub enter_all-IsUnder :
    (base : List String) (parts inner : List String)
    → All (λ part. part ≢ "..") parts
    → IsUnder base (enter_all (inner ++ base) parts)
unfolding enter_all
enter_all-IsUnder base [] inner h = (inner, refl)
enter_all-IsUnder base (part ∷ parts) inner h = elim (enter_plain (inner ++ base) part h.0) [
  | inl stays ↦ rw stays (enter_all-IsUnder base parts inner h.1)
  | inr goes ↦ rw goes (enter_all-IsUnder base parts (part ∷ inner) h.1)
]

abbrev pub head_code : String → ℕ
head_code empty = 0
head_code (c :: s) = code c

pub enter_plain-name :
    (c : Char) (name id : String) (stack : List String)
    → code c ≢ 0
    → code c ≢ b'.'
    → enter stack ((c :: name) <> id) ≡ ((c :: name) <> id) ∷ stack
unfolding enter
enter_plain-name c name id stack n d = ground (
  arith,
  eq_iff ((c :: name) <> id) "",
  eq_iff ((c :: name) <> id) ".",
  eq_iff ((c :: name) <> id) "..",
  ne "" n,
  ne "." d,
  ne ".." d,
)
  where
    ne : (other : String) → code c ≢ head_code other → (c :: name) <> id ≢ other
    ne other k e = k (sym (ap head_code (cons-append c name id)) ∙ ap head_code e)

-- Pieces put together from the left and from the right.
abbrev pub flat : String → List String → String
flat start [] = start
flat start (piece ∷ pieces) = flat (start <> piece) pieces

abbrev pub joined : List String → String → String
joined [] last = last
joined (piece ∷ pieces) last = piece <> joined pieces last

pub flat-joined :
    (start : String) (pieces : List String) (last : String)
    → flat start pieces <> last ≡ start <> joined pieces last
flat-joined start [] last = refl
flat-joined start (piece ∷ pieces) last =
    flat-joined (start <> piece) pieces last ∙ append_assoc start piece (joined pieces last)

pub split_on-folder :
    (folder rest : String)
    → Lacks b'/' folder
    → split_on b'/' (folder <> ("/" <> rest)) ≡ folder ∷ split_on b'/' rest
split_on-folder folder rest h =
    split_on-append_text b'/' "/" folder rest refl
    ∙ ap (λ parts. parts ++ split_on b'/' rest) (split_on-Lacks b'/' folder h)

-- A path whose parts are none of them "..".
abbrev pub StaysInside : String → Type 0
StaysInside path = All (λ part. part ≢ "..") (split_on b'/' path)

pub StaysInside-folder :
    (folder rest : String)
    → Lacks b'/' folder
    → folder ≢ ".."
    → StaysInside rest
    → StaysInside (folder <> ("/" <> rest))
StaysInside-folder folder rest h n inside = rw (split_on-folder folder rest h) (n, inside)

pub StaysInside-last : (name : String) → Lacks b'/' name → name ≢ ".." → StaysInside name
StaysInside-last name h n = rw (split_on-Lacks b'/' name h) (n, tt)

join_onto-assets :
    (inner : List String) (tail : String)
    → head_code (join_onto tail (inner ++ "assets" ∷ [])) ≡ b'a'
join_onto-assets [] tail = ap head_code (cons-append "a" "ssets" ("/" <> tail))
join_onto-assets (part ∷ inner) tail = join_onto-assets inner (part <> "/" <> tail)

file_name-assets : (inner : List String) → head_code (file_name (inner ++ "assets" ∷ [])) ≡ b'a'
file_name-assets [] = refl
file_name-assets (part ∷ inner) = join_onto-assets inner part

enter_assets : enter [] "assets" ≡ "assets" ∷ []
unfolding enter
enter_assets = refl

-- A path below assets/ leads to a file whose name begins like that folder's.
pub file_at-assets :
    (rest : String) → StaysInside rest → head_code (file_at ("assets/" <> rest)) ≡ b'a'
unfolding resolve enter_all
file_at-assets rest inside =
    let (inner, under) = enter_all-IsUnder ("assets" ∷ []) (split_on b'/' rest) [] inside in
    ap (λ path. head_code (file_at path)) (append_assoc "assets" "/" rest)
    ∙ ap (λ parts. head_code (file_name (enter_all [] parts)))
        (split_on-folder "assets" rest (omega arith))
    ∙ ap (λ stack. head_code (file_name (enter_all stack (split_on b'/' rest)))) enter_assets
    ∙ ap (λ stack. head_code (file_name stack)) under
    ∙ file_name-assets inner

pub prefixed-ne-parent : (c : Char) (name id : String) → code c ≢ b'.' → (c :: name) <> id ≢ ".."
prefixed-ne-parent c name id d e = d (sym (ap head_code (cons-append c name id)) ∙ ap head_code e)
