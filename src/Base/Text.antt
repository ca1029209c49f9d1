-- ===== src/Base/Text.antt =====
-- Strings. A JavaScript string is read as its characters, so a length or a slice counts characters
-- where JavaScript counts UTF-16 units; the two agree on text of the basic plane.
use Prim.Native.Nat.{ℕ, zero, suc, ◌+◌, ◌/◌, ◌%◌}
use Prim.Native.String
use Prim.Native.String.{String, slice}
use mathlib.Core.List.{List, [], ◌∷◌}
use current_dao_contracts.Base.Tests.{eqb, if◌then◌else◌}
use current_dao_contracts.Base.Int.{ℤ, pos, negsuc}
pub use text.Mathlib.Text.{◌==◌}
pub use text.Mathlib.TextPositions.{eq_refl as str_eq_refl}

-- `s.slice(0, n)`
abbrev pub slice_to : ℕ → String → String
slice_to zero s = ""
slice_to (suc n) String.[] = ""
slice_to (suc n) (String.◌∷◌ c s) = String.◌∷◌ c (slice_to n s)

-- Template literals: the parts, joined.
abbrev pub concat : List String → String
concat [] = ""
concat (s ∷ ss) = String.◌++◌ s (concat ss)

-- The decimal digits of `n`, least first, before `rest`; `n` rounds are more than it has digits.
show_digits : ℕ → ℕ → String → String
show_digits zero n rest = rest
show_digits (suc fuel) n rest =
    let text = String.◌++◌ (slice "0123456789" (n % 10) (n % 10 + 1)) rest in
    let more = show_digits fuel (n / 10) text in if eqb (n / 10) 0 then text else more

unfoldable pub show_number : ℤ → String
unfolding show_digits
show_number (pos n) = show_digits (n + 1) n ""
show_number (negsuc n) = String.◌++◌ "-" (show_digits (n + 2) (n + 1) "")

-- `s.length`
unfoldable pub text_length : String → ℕ
text_length String.[] = 0
text_length (String.◌∷◌ c s) = text_length s + 1
