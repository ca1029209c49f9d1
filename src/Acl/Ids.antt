-- ===== src/Acl/Ids.antt =====
-- `ACLLib.normalizeId`, on ASCII text: a character outside ASCII becomes `_`, whatever its upper case.
use current_dao_contracts.Base.{◌-◌, leb, eqb, String, ◌==◌, Bool, ◌&&◌, ◌||◌, if◌then◌else◌}
use Prim.Native.Char.{Char, code}
use Prim.Native.String
use Prim.Native.String.{slice}

-- The white space of `trim` below 128.
unfoldable pub is_space : Char → Bool
is_space c = leb 9 (code c) && leb (code c) 13 || eqb (code c) 32

unfoldable pub trim_start : String → String
unfolding is_space
trim_start String.[] = ""
trim_start (String.◌∷◌ c s) = let rest = trim_start s in if is_space c then rest else String.◌∷◌ c s

unfoldable pub trim_end : String → String
unfolding is_space
trim_end String.[] = ""
trim_end (String.◌∷◌ c s) =
    let rest = trim_end s in if is_space c && rest == "" then "" else String.◌∷◌ c rest

-- `toUpperCase` of a character, and `_` for what is not in [A-Z0-9_*:].
unfoldable pub normal_char : Char → String
normal_char c =
    let n = code c in
    if leb 97 n && leb n 122
    then slice "ABCDEFGHIJKLMNOPQRSTUVWXYZ" (n - 97) (n - 96)
    else if leb 65 n && leb n 90 || leb 48 n && leb n 58 || eqb n 42
    then String.◌∷◌ c ""
    else "_"

unfoldable pub normal_chars : String → String
unfolding normal_char
normal_chars String.[] = ""
normal_chars (String.◌∷◌ c s) = String.◌++◌ (normal_char c) (normal_chars s)

unfoldable pub normalize_id : String → String
unfolding trim_start trim_end normal_chars
normalize_id value = normal_chars (trim_end (trim_start value))
