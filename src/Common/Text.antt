-- ===== src/Common/Text.antt =====
-- Texts: `strings.HasPrefix` with `strings.TrimPrefix`.
use Prim.Native.String
use Prim.Native.String.append
use Prim.Native.Char.{code}
use mathlib.Core.Path.{◌≡◌, ap, ◌∙◌}
use mathlib.Core.Option.{Option, none, some}
use service_oriented_hw.Common.Tests.{◌==◌, if◌then◌else◌, ==_refl}

-- The text behind a prefix, if it has the prefix.
unfoldable pub strip_prefix : String.String → String.String → Option String.String
strip_prefix String.[] text = some text
strip_prefix (String.◌∷◌ c prefix) String.[] = none
strip_prefix (String.◌∷◌ c prefix) (String.◌∷◌ d text) =
    if code c == code d then strip_prefix prefix text else none

pub strip_prefix-append :
    (prefix text : String.String) → strip_prefix prefix (String.◌++◌ prefix text) ≡ some text
unfolding strip_prefix
strip_prefix-append String.[] text = ap some (append.nil text)
strip_prefix-append (String.◌∷◌ c prefix) text =
    ap (strip_prefix (String.◌∷◌ c prefix)) (append.cons c prefix text)
    ∙ rw (==_refl (code c)) (strip_prefix-append prefix text)
