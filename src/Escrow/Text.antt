-- ===== src/Escrow/Text.antt =====
-- The text functions of EscrowLib: the form of an address and the cleaning of a text.
use current_dao_contracts.Base.{
  ℕ, zero, suc, ◌+◌, ltb, leb, eqb, String, ◌==◌, concat, show_number, pos, length, slice_to,
  text_length, Bool, true, false, not, ◌&&◌, ◌||◌, Option, none, some, List, [], ◌∷◌, if◌then◌else◌,
  Outcome, ok, throws,
}
use Prim.Native.Char.{Char, code}

-- `s.slice(n)`
unfoldable pub drop_text : ℕ → String → String
drop_text zero s = s
drop_text (suc n) String.[] = ""
drop_text (suc n) (String.◌∷◌ c s) = drop_text n s

-- `[a-fA-F0-9]`
unfoldable pub is_hex : Char → Bool
is_hex c = let n = code c in leb 48 n && leb n 57 || leb 65 n && leb n 70 || leb 97 n && leb n 102

-- `n` hexadecimal digits and no more.
unfoldable pub is_hex_text : ℕ → String → Bool
unfolding is_hex
is_hex_text zero s = s == ""
is_hex_text (suc n) String.[] = false
is_hex_text (suc n) (String.◌∷◌ c s) = is_hex c && is_hex_text n s

-- `/^0x[a-fA-F0-9]{40}$/`
unfoldable pub is_valid_address : String → Bool
unfolding is_hex_text drop_text
is_valid_address address = slice_to 2 address == "0x" && is_hex_text 40 (drop_text 2 address)

-- `replace(/[\x00-\x1F\x7F]/g, '')`
unfoldable pub without_control : String → String
without_control String.[] = ""
without_control (String.◌∷◌ c s) =
    let rest = without_control s in
    if ltb (code c) 32 || eqb (code c) 127 then rest else String.◌∷◌ c rest

-- The two characters are one but for the case of an ASCII letter; the first is a small one.
same_letter : Char → Char → Bool
same_letter small c =
    let n = code c in eqb (code small) (if leb 65 n && leb n 90 then n + 32 else n)

starts_like : String → String → Bool
unfolding same_letter
starts_like String.[] s = true
starts_like (String.◌∷◌ p ps) String.[] = false
starts_like (String.◌∷◌ p ps) (String.◌∷◌ c s) = same_letter p c && starts_like ps s

-- `\b` after a letter: no `\w` follows.
ends_word : String → Bool
ends_word String.[] = true
ends_word (String.◌∷◌ c s) =
    let n = code c in
    not (leb 48 n && leb n 57 || leb 65 n && leb n 90 || leb 97 n && leb n 122 || eqb n 95)

-- What follows the first `</script>`.
after_close : String → Option String
unfolding starts_like drop_text
after_close String.[] = none
after_close (String.◌∷◌ c s) =
    let later = after_close s in
    if starts_like "</script>" (String.◌∷◌ c s) then some (drop_text 9 (String.◌∷◌ c s)) else later

-- `replace(/<script\b[^<]*(?:(?!<\/script>)<[^<]*)*<\/script>/gi, '')`: from a `<script` that ends a
-- word to the next `</script>`. Each round takes a character or more.
unfoldable pub strip_scripts : ℕ → String → String
unfolding starts_like ends_word after_close drop_text
strip_scripts zero s = s
strip_scripts (suc fuel) String.[] = ""
strip_scripts (suc fuel) (String.◌∷◌ c s) =
    let kept = String.◌∷◌ c (strip_scripts fuel s) in
    let inside = drop_text 6 s in
    let closed : String = elim (after_close inside) [
      | none ↦ kept
      | some rest ↦ strip_scripts fuel rest
    ] in
    if starts_like "<script" (String.◌∷◌ c s) && ends_word inside then closed else kept

-- The white space of `trim`.
is_space : Char → Bool
is_space c =
    let n = code c in
    leb 9 n && leb n 13
    || eqb n 32
    || eqb n 160
    || eqb n 5760
    || leb 8192 n && leb n 8202
    || eqb n 8232
    || eqb n 8233
    || eqb n 8239
    || eqb n 8287
    || eqb n 12288
    || eqb n 65279

trim_start : String → String
unfolding is_space
trim_start String.[] = ""
trim_start (String.◌∷◌ c s) = let rest = trim_start s in if is_space c then rest else String.◌∷◌ c s

trim_end : String → String
unfolding is_space
trim_end String.[] = ""
trim_end (String.◌∷◌ c s) =
    let rest = trim_end s in if is_space c && rest == "" then "" else String.◌∷◌ c rest

-- `s.trim()`
unfoldable pub trim : String → String
unfolding trim_start trim_end
trim s = trim_end (trim_start s)

-- `EscrowLib.sanitizeString`
unfoldable pub sanitize_string : String → ℕ → Outcome String
unfolding without_control strip_scripts trim
sanitize_string input max_length =
    let clean = without_control input in
    if ltb max_length (text_length input)
    then throws
        (concat ("EscrowLib: Input exceeds maximum length of " ∷ show_number (pos max_length) ∷ []))
    else ok (trim (strip_scripts (text_length clean) clean))

unfoldable pub sanitize_all : List String → Outcome (List String)
sanitize_all [] = ok []
sanitize_all (item ∷ evidence) = elim (sanitize_string item 2000) [
  | throws e ↦ throws e
  | ok s ↦ elim (sanitize_all evidence) [ throws e ↦ throws e | ok ss ↦ ok (s ∷ ss) ]
]

-- `EscrowLib.sanitizeEvidence`
unfoldable pub sanitize_evidence : List String → Outcome (List String)
unfolding sanitize_all
sanitize_evidence evidence =
    if ltb 50 (length evidence)
    then throws "EscrowLib: Too many evidence items"
    else sanitize_all evidence
