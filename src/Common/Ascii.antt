-- ===== src/Common/Ascii.antt =====
-- The case map of the ASCII letters, for tests.
use Prim.Native.Char.{Char, code}
use Prim.Native.String.{String}
use legator.Common.Tests.{◌==◌, if◌then◌else◌}

lower_by : String → String → Char → Char
lower_by (String.◌∷◌ u us) (String.◌∷◌ l ls) c = if code u == code c then l else lower_by us ls c
lower_by _ _ c = c

unfoldable pub ascii_lower : Char → Char
unfolding lower_by
ascii_lower = lower_by "ABCDEFGHIJKLMNOPQRSTUVWXYZ" "abcdefghijklmnopqrstuvwxyz"
