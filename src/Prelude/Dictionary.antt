-- ===== src/Prelude/Dictionary.antt =====
-- A Python dict with text keys, in insertion order.
use Prim.Native.String.{String}
use mathlib.Core.Path.{◌≡◌, refl}
use mathlib.Core.Option.{Option, none, some}
use mathlib.Core.List.{List, [], ◌∷◌}
use native.Mathlib.Omega.{arith}
use text.Mathlib.TextEquality.{eq_iff}
use recall_select.Prelude.Tests.{◌==◌, if◌then◌else◌}

abbrev pub Dict {ℓ} : Type ℓ → Type ℓ
Dict V = List (String × V)

module _ {ℓ} {V : Type ℓ} where
  -- `d.get(k)`
  abbrev pub lookup : String → Dict V → Option V
  lookup k [] = none
  lookup k ((j, v) ∷ d) = if j == k then some v else lookup k d

  -- `d[k] = v`: a key that is there keeps its place.
  abbrev pub insert : String → V → Dict V → Dict V
  insert k v [] = (k, v) ∷ []
  insert k v ((j, w) ∷ d) = if j == k then (j, v) ∷ d else (j, w) ∷ insert k v d

  pub lookup-insert :
      (k j : String) (v : V) (d : Dict V)
      → lookup j (insert k v d) ≡ (if k == j then some v else lookup j d)
  lookup-insert k j v [] = refl
  lookup-insert k j v ((i, w) ∷ d) =
      ground (arith, eq_iff k j, eq_iff i k, eq_iff i j, lookup-insert k j v d)

  -- `d.pop(k, None)`
  abbrev pub dropped : String → Dict V → Dict V
  dropped k [] = []
  dropped k ((j, v) ∷ d) = if j == k then dropped k d else (j, v) ∷ dropped k d

  pub lookup-dropped :
      (k : String) (d : Dict V) (m : String)
      → lookup m (dropped k d) ≡ (if k == m then none else lookup m d)
  lookup-dropped k [] m = ground arith
  lookup-dropped k ((j, v) ∷ d) m =
      ground (arith, eq_iff j k, eq_iff k m, eq_iff j m, lookup-dropped k d m)
