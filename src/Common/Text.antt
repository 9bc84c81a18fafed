-- ===== src/Common/Text.antt =====
-- Text values, which the code only compares, and maps from texts to texts.
use Prim.Native.String.{String}
use text.Mathlib.Text.{◌==◌ as text_beq}
use text.Mathlib.TextEquality.{eq_iff}
use mathlib.Core.Path.{◌≡◌}
use mathlib.Core.Logic.{◌↔◌}
use mathlib.Core.Bool.{Bool, true}
use mathlib.Core.Option.{Option, none, some}
use mathlib.Core.List.{List}
use censor_pulse_cli.Common.Maps.{Eq, find}

abbrev pub str_eq : String → String → Bool
str_eq = text_beq

pub str_eq_iff : (s t : String) → (str_eq s t ≡ true) ↔ (s ≡ t)
str_eq_iff s t = eq_iff s t

instance abbrev pub string_key : Eq String
string_key = record { beq = str_eq; beq_iff = str_eq_iff }

-- map[string]string
abbrev pub Details : Type 0
Details = List (String × String)

abbrev pub text_or : Option String → String
text_or none = ""
text_or (some s) = s

-- d[key], the empty text where it is not there.
unfoldable pub detail_at : Details → String → String
detail_at d key = text_or (find key d)
