-- ===== src/Bridge/Watt.antt =====
-- WattToken as a token of the bridge.
use current_dao_contracts.Base.{
  ℤ, pos, ◌+ℤ◌, ◌-ℤ◌, ◌≤ℤ◌, +ℤ_parts, ◌≡◌, ◌≢◌, sym, String, eq_iff, Bool, true, arith, ok, throws,
  set, get-set_self, get-set_ne,
}
use current_dao_contracts.Token.{Token, balance_of, allowance, transfer_from, execute_transfer}
use current_dao_contracts.Bridge.Interface.{Erc20, IsErc20, Moved}

-- A call on the token reads the clock, here at `now`.
abbrev pub watt : ℤ → Erc20 Token
watt now = record {
  balance_of = balance_of;
  allowance = allowance;
  transfer_from = transfer_from now;
  execute_transfer = execute_transfer now;
}

execute-Moved :
    (now : ℤ) (s r : String) (a : ℤ) (t : Token) (q : Bool)
    → s ≢ r
    → (execute_transfer now s r a t).0 ≡ ok q
    → Moved (watt now) s r a t (execute_transfer now s r a t).1
unfolding execute_transfer
execute-Moved now s r a t q apart done =
    let paid = balance_of s t -ℤ a in
    let m = set s paid t.balances in
    let received = balance_of r t +ℤ a in
    ground (
      arith,
      eq_iff s "",
      eq_iff r "",
      get-set_ne s r paid t.balances apart,
      get-set_self s paid t.balances,
      get-set_ne r s received m (λ e. apart (sym e)),
      get-set_self r received m,
    )

execute_keeps :
    (now : ℤ) (s r who e : String) (a : ℤ) (t : Token)
    → pos 0 ≤ℤ a
    → (execute_transfer now s r a t).0 ≡ throws e
    → balance_of who (execute_transfer now s r a t).1 ≡ balance_of who t
unfolding execute_transfer
execute_keeps now s r who e a t positive threw =
    let paid = balance_of s t -ℤ a in
    let later : Token = record t { balances = set s paid t.balances } in
    ground (arith, eq_iff s "", eq_iff r "", +ℤ_parts (balance_of r later) a)

-- WattToken keeps what the bridge assumes of a token: between two accounts a transfer that returns moves
-- the amount, and one that throws moves nothing, for an amount that is not negative.
pub watt-IsErc20 : (now : ℤ) → IsErc20 (watt now)
unfolding transfer_from
watt-IsErc20 now = record {
  transfer_from-Moved = λ s r a t apart done. execute-Moved now s r a t true apart done;
  execute_transfer-Moved = execute-Moved now;
  execute_transfer_keeps = execute_keeps now;
}
