-- ===== src/Prelude/Dict.antt =====
-- Go's maps with string keys, as association lists. The order of the entries stands for the order
-- in which a `range` over the map visits them.
use Prim.Native.String.{String}
use mathlib.Core.Path.{◌≡◌, refl}
use mathlib.Core.Option.{Option, none, some}
use mathlib.Core.List.{List, [], ◌∷◌}
use native.Mathlib.Omega.{arith}
use text.Mathlib.Text.{◌==◌}
use text.Mathlib.TextEquality.{eq_iff}
use text.Mathlib.TextPositions.{eq_refl}
use o2_ims_worker.Prelude.Tests.{if◌then◌else◌}
use o2_ims_worker.Prelude.Lists.{All}

abbrev pub Dict {ℓ} : Type ℓ → Type ℓ
Dict V = List (String × V)

module _ {ℓ} {V : Type ℓ} where
  -- `v, ok := m[k]`
  unfoldable pub lookup : String → Dict V → Option V
  lookup k [] = none
  lookup k ((j, v) ∷ d) = if j == k then some v else lookup k d

  -- `m[k] = v`
  unfoldable pub insert : String → V → Dict V → Dict V
  insert k v [] = (k, v) ∷ []
  insert k v ((j, w) ∷ d) = if j == k then (k, v) ∷ d else (j, w) ∷ insert k v d

  -- `delete(m, k)`
  unfoldable pub remove : String → Dict V → Dict V
  remove k [] = []
  remove k ((j, v) ∷ d) = let rest = remove k d in if j == k then rest else (j, v) ∷ rest

  pub lookup-nil : (k : String) → lookup k [] ≡ none
  unfolding lookup
  lookup-nil k = refl

  pub lookup-insert :
      (k j : String) (v : V) (d : Dict V)
      → lookup j (insert k v d) ≡ (if k == j then some v else lookup j d)
  unfolding lookup insert
  lookup-insert k j v [] = refl
  lookup-insert k j v ((i, w) ∷ d) =
      ground (arith, eq_iff k j, eq_iff i k, eq_iff i j, lookup-insert k j v d)

  pub lookup-insert_self : (k : String) (v : V) (d : Dict V) → lookup k (insert k v d) ≡ some v
  lookup-insert_self k v d = simp (lookup-insert, eq_refl)

  pub lookup-remove :
      (k j : String) (d : Dict V) → lookup j (remove k d) ≡ (if k == j then none else lookup j d)
  unfolding lookup remove
  lookup-remove k j [] = ground arith
  lookup-remove k j ((i, w) ∷ d) =
      ground (arith, eq_iff k j, eq_iff i k, eq_iff i j, lookup-remove k j d)

  pub lookup-remove_self : (k : String) (d : Dict V) → lookup k (remove k d) ≡ none
  lookup-remove_self k d = simp (lookup-remove, eq_refl)

module _ {ℓ κ} {V : Type ℓ} (P : String → V → Type κ) where
  -- Every entry satisfies `P`.
  abbrev pub Each : Dict V → Type κ
  Each = All (λ e. P e.0 e.1)

  pub Each-insert : (k : String) (v : V) (d : Dict V) → P k v → Each d → Each (insert k v d)
  unfolding insert
  Each-insert k v [] p h = (p, tt)
  Each-insert k v ((j, w) ∷ d) p h = ground (arith, Each-insert k v d p)

  pub Each-lookup : (k : String) (v : V) (d : Dict V) → Each d → lookup k d ≡ some v → P k v
  unfolding lookup
  Each-lookup k v [] h e = cc
  Each-lookup k v ((j, w) ∷ d) h e = ground (arith, eq_iff j k, Each-lookup k v d)
