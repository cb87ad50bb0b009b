-- ===== src/Db/Text.antt =====
-- `str::trim`, and the emptiness of a trimmed text.
use Prim.Native.Char.{Char, code}
use vexa_vm.Common.{ℕ, String, Bool, true, ◌&&◌, ◌||◌, leb, ◌==◌, if◌then◌else◌, str_append}
use vexa_vm.Error.{AppResult, ok, err, validation}

-- `char::is_whitespace`.
unfoldable pub is_whitespace : ℕ → Bool
is_whitespace c =
    (leb 0x09 c && leb c 0x0d)
    || c == 0x20
    || c == 0x85
    || c == 0xa0
    || c == 0x1680
    || (leb 0x2000 c && leb c 0x200a)
    || c == 0x2028
    || c == 0x2029
    || c == 0x202f
    || c == 0x205f
    || c == 0x3000

-- `value.trim().is_empty()`.
unfoldable pub is_blank : String → Bool
unfolding is_whitespace
is_blank String.[] = true
is_blank (String.◌∷◌ c s) = is_whitespace (code c) && is_blank s

unfoldable pub validate_non_empty : String → String → AppResult (Unit {0})
validate_non_empty label value =
    if is_blank value then err (validation (str_append label " cannot be empty")) else ok tt

abbrev trim_start : String → String
trim_start String.[] = ""
trim_start (String.◌∷◌ c s) =
    let rest = trim_start s in if is_whitespace (code c) then rest else String.◌∷◌ c s

-- `s` if it is empty, and the character in front of it otherwise.
abbrev cons_end : Char → String → String
cons_end c String.[] = if is_whitespace (code c) then "" else String.◌∷◌ c ""
cons_end c s = String.◌∷◌ c s

abbrev trim_end : String → String
trim_end String.[] = ""
trim_end (String.◌∷◌ c s) = cons_end c (trim_end s)

-- `str::trim`.
unfoldable pub trim : String → String
unfolding is_whitespace
trim s = trim_start (trim_end s)
