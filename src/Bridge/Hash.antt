-- ===== src/Bridge/Hash.antt =====
-- `BridgeLib.generateTxHash`: a 32-bit hash of the text of a transaction.
use current_dao_contracts.Base.{
  ℕ, zero, suc, ◌+◌, ◌-◌, ◌*◌, ◌/◌, ◌%◌, ltb, eqb, ℤ, String, concat, show_number, [], ◌∷◌,
  if◌then◌else◌,
}
use Prim.Native.String.{slice}
use Prim.Native.Char.{code}

-- The loop over the characters. The hash is a 32-bit integer, here by its residue below 2 ^ 32:
-- `((hash << 5) - hash) + char` is 31 times the hash and the character, and `hash & hash` wraps it.
unfoldable pub hash_text : ℕ → String → ℕ
hash_text h String.[] = h
hash_text h (String.◌∷◌ c s) = hash_text ((31 * h + code c) % 4294967296) s

-- `Math.abs` of the signed value: a residue from 2 ^ 31 on is a negative number.
unfoldable pub magnitude : ℕ → ℕ
magnitude h = if ltb h 2147483648 then h else 4294967296 - h

-- The hexadecimal digits of `n` before `rest`; `fuel` is more than they are.
unfoldable pub hex_digits : ℕ → ℕ → String → String
hex_digits zero n rest = rest
hex_digits (suc fuel) n rest =
    let text = concat (slice "0123456789abcdef" (n % 16) (n % 16 + 1) ∷ rest ∷ []) in
    let more = hex_digits fuel (n / 16) text in if eqb (n / 16) 0 then text else more

-- A magnitude is at most 2 ^ 31 and has at most eight digits.
unfoldable pub hash_name : String → String
unfolding hash_text magnitude hex_digits
hash_name payload = concat ("hash_" ∷ hex_digits 8 (magnitude (hash_text 0 payload)) "" ∷ [])

unfoldable pub generate_tx_hash : ℤ → String → String → String → String → String → ℤ → String
unfolding hash_name
generate_tx_hash nonce origin dest token sender recipient amount = hash_name (
    concat (
      show_number nonce
      ∷ ":"
      ∷ origin
      ∷ ":"
      ∷ dest
      ∷ ":"
      ∷ token
      ∷ ":"
      ∷ sender
      ∷ ":"
      ∷ recipient
      ∷ ":"
      ∷ show_number amount
      ∷ []))
