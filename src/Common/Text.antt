-- ===== src/Common/Text.antt =====
-- toLowerCase and trim of texts. Letters other than A to Z are taken as they are by toLowerCase.
use Prim.Native.Char.{Char, code}
use Prim.Native.String.{char_at}
use proof_stell_backend.Common.{◌-◌, String, Bool, if◌then◌else◌, leb, ◌==◌, ◌===◌, ◌&&◌, ◌||◌}

-- c.toLowerCase() of an ASCII letter
unfoldable pub lower_char : Char → Char
lower_char c =
    if leb 65 (code c) && leb (code c) 90
    then char_at "abcdefghijklmnopqrstuvwxyz" (code c - 65)
    else c

unfoldable pub to_lower_case : String → String
to_lower_case String.[] = String.[]
to_lower_case (String.◌∷◌ c s) = String.◌∷◌ (lower_char c) (to_lower_case s)

-- The white space and the line terminators of JavaScript
unfoldable pub is_white : Char → Bool
is_white c =
    let n = code c in
    (leb 9 n && leb n 13)
    || (n == 32)
    || (n == 160)
    || (n == 5760)
    || (leb 8192 n && leb n 8202)
    || (n == 8232)
    || (n == 8233)
    || (n == 8239)
    || (n == 8287)
    || (n == 12288)
    || (n == 65279)

unfoldable pub trim_start : String → String
trim_start String.[] = String.[]
trim_start (String.◌∷◌ c s) = let rest = trim_start s in if is_white c then rest else String.◌∷◌ c s

unfoldable pub trim_end : String → String
trim_end String.[] = String.[]
trim_end (String.◌∷◌ c s) =
    let rest = trim_end s in if is_white c && rest === "" then String.[] else String.◌∷◌ c rest

unfoldable pub trim : String → String
trim s = trim_end (trim_start s)
