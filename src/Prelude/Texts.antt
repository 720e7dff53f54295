-- ===== src/Prelude/Texts.antt =====
-- Strings that are told apart by their characters.
use Prim.Native.String.{String}
use mathlib.Core.Path.{◌≡◌}
use mathlib.Core.Logic.{◌≢◌}
use mathlib.Core.Bool.{false}
use text.Mathlib.Text.{◌==◌ as str_eq}
use text.Mathlib.TextEquality.{eq_iff}

pub texts_apart : (a b : String) → str_eq a b ≡ false → a ≢ b
texts_apart a b h e = absurd (cc (h, (eq_iff a b).1 e))
