-- ===== src/Prelude/Text.antt =====
-- Names: whole texts that are only compared, as by strcmp.
use Prim.Native.String.{String}
use text.Mathlib.Text
use text.Mathlib.TextEquality.{eq_iff}
use mathlib.Core.Path.{◌≡◌}
use mathlib.Core.Logic.{◌↔◌}
use mathlib.Core.Bool.{Bool, true}

abbrev pub same_name : String → String → Bool
same_name a b = Text.◌==◌ a b

pub same_name_iff : (a b : String) → (same_name a b ≡ true) ↔ (a ≡ b)
same_name_iff a b = eq_iff a b
