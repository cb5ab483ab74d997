-- ===== src/Prelude/Texts.antt =====
-- `startsWith` together with the `slice` behind it, over the characters of a text.
use Prim.Native.Char.{code}
use Prim.Native.String
use Prim.Native.String.{String, [], ◌∷◌}
use mathlib.Core.Path.{◌≡◌}
use mathlib.Core.Option.{Option, none, some}
use native.Mathlib.Omega.{arith}
use text.Mathlib.TextLemmas.{nil-append, cons-append}
use procovar_notify.Prelude.Tests.{eqb, if◌then◌else◌}

-- `t.startsWith(p) ? t.slice(p.length) : undefined`
unfoldable pub strip_prefix : String → String → Option String
strip_prefix [] t = some t
strip_prefix (c ∷ p) [] = none
strip_prefix (c ∷ p) (d ∷ t) = if eqb (code c) (code d) then strip_prefix p t else none

pub strip_prefix-append : (p t : String) → strip_prefix p (String.◌++◌ p t) ≡ some t
unfolding strip_prefix
strip_prefix-append [] t = rw nil-append
strip_prefix-append (c ∷ p) t = rw cons-append (ground (arith, strip_prefix-append p t))
