-- ===== src/Prelude/Text.antt =====
-- `String.prototype.includes`.
use Prim.Native.String.{String}
use mathlib.Core.Bool.{Bool, ◌||◌}
use text.Mathlib.Text.{starts_with}

unfoldable pub includes : String → String → Bool
includes String.[] needle = starts_with "" needle
includes (String.◌∷◌ c s) needle = starts_with (String.◌∷◌ c s) needle || includes s needle
