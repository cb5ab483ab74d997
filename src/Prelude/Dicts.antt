-- ===== src/Prelude/Dicts.antt =====
-- Plain objects with text keys (`Record<string, V>`) as association lists in insertion order.
use Prim.Native.String.{String}
use mathlib.Core.Path.{◌≡◌, refl}
use mathlib.Core.Option.{Option, none, some}
use mathlib.Core.List.{List, [], ◌∷◌}
use native.Mathlib.Omega.{arith}
use text.Mathlib.Text.{◌==◌}
use text.Mathlib.TextEquality.{eq_iff}
use procovar_notify.Prelude.Tests.{if◌then◌else◌}

abbrev pub Dict {ℓ} : Type ℓ → Type ℓ
Dict V = List (String × V)

module _ {ℓ} {V : Type ℓ} where
  -- The value under a key, with `none` for undefined.
  unfoldable pub lookup : String → Dict V → Option V
  lookup key [] = none
  lookup key ((name, value) ∷ rest) = if name == key then some value else lookup key rest

  -- `{ ...entries, [key]: value }`: a key that is there keeps its place.
  unfoldable pub insert : String → V → Dict V → Dict V
  insert key value [] = (key, value) ∷ []
  insert key value ((name, old) ∷ rest) =
      let later = insert key value rest in
      if name == key then (name, value) ∷ rest else (name, old) ∷ later

  -- Only the inserted key changes its value.
  pub lookup-insert :
      (key : String) (value : V) (other : String) (entries : Dict V)
      → lookup other (insert key value entries)
        ≡ (if key == other then some value else lookup other entries)
  unfolding insert lookup
  lookup-insert key value other [] = refl
  lookup-insert key value other ((name, old) ∷ rest) =
      let hyp = lookup-insert key value other rest in
      ground (arith, hyp, eq_iff name key, eq_iff name other, eq_iff key other)
