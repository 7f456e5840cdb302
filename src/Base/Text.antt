-- ===== src/Base/Text.antt =====
-- Texts as the source uses them: truth of a text, equality, and `trim`.
use Prim.Native.Nat.{ℕ}
use Prim.Native.Char.{code}
use Prim.Native.String.{String}
use mathlib.Core.Bool.{Bool, true, false, not, ◌&&◌, ◌||◌}
use iuh_exchange_be.Base.Tests.{◌==◌, if◌then◌else◌}
pub use text.Mathlib.Text.{◌==◌ as str_eq}
pub use Prim.Native.String.{◌++◌ as str_append}
pub use text.Mathlib.TextEquality.{eq_iff}
pub use text.Mathlib.TextPositions.{eq_refl}

-- `Boolean(text)`
abbrev pub truthy : String → Bool
truthy String.[] = false
truthy (String.◌∷◌ _ _) = true

-- `a || b`
abbrev pub or_text : String → String → String
or_text a b = if truthy a then a else b

-- The white space of `String.prototype.trim`, up to U+00A0.
abbrev pub is_space : ℕ → Bool
is_space c = c == 32 || c == 9 || c == 10 || c == 11 || c == 12 || c == 13 || c == 160

trim_end : String → String
trim_end String.[] = String.[]
trim_end (String.◌∷◌ c s) =
    let rest = trim_end s in
    if not (truthy rest) && is_space (code c) then String.[] else String.◌∷◌ c rest

trim_start : String → String
trim_start String.[] = String.[]
trim_start (String.◌∷◌ c s) =
    let rest = trim_start s in if is_space (code c) then rest else String.◌∷◌ c s

unfoldable pub trim : String → String
unfolding trim_start trim_end
trim s = trim_end (trim_start s)
