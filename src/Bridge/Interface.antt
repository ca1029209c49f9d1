-- ===== src/Bridge/Interface.antt =====
-- What the bridge uses of code that is not in the repository: `scripts/IERC20`, the tokens, and
-- `scripts/SafeMath`. Both are parameters; the laws are what an ERC-20 token documents.
use current_dao_contracts.Base.{
  ℤ, ◌+ℤ◌, ◌-ℤ◌, ◌≡◌, ◌≢◌, String, true, Outcome, ok, throws, Call, pos, ◌≤ℤ◌, Bool,
}

-- `execute_transfer` throws where the token has no `executeTransfer`.
pub record Erc20 (T : Type 0) : Type 0 where
  pub balance_of : String → T → ℤ
  pub allowance : String → String → T → ℤ
  pub transfer_from : String → String → ℤ → Call T Bool
  pub execute_transfer : String → String → ℤ → Call T Bool

-- The amount has moved from the one account to the other.
abbrev pub Moved : {T : Type 0} → Erc20 T → String → String → ℤ → T → T → Type 0
Moved token sender recipient amount t t' =
    (token.balance_of sender t' ≡ token.balance_of sender t -ℤ amount)
    × (token.balance_of recipient t' ≡ token.balance_of recipient t +ℤ amount)

-- Between two accounts, a `transferFrom` that returns true moves the amount, and so does an
-- `executeTransfer` that returns; an `executeTransfer` that throws moves nothing, if the amount is not
-- negative.
pub record IsErc20 {T : Type 0} (token : Erc20 T) : Type 0 where
  pub transfer_from-Moved :
      (sender recipient : String) (amount : ℤ) (t : T)
      → sender ≢ recipient
      → (token.transfer_from sender recipient amount t).0 ≡ ok true
      → Moved token sender recipient amount t (token.transfer_from sender recipient amount t).1
  pub execute_transfer-Moved :
      (sender recipient : String) (amount : ℤ) (t : T) (r : Bool)
      → sender ≢ recipient
      → (token.execute_transfer sender recipient amount t).0 ≡ ok r
      → Moved token sender recipient amount t (token.execute_transfer sender recipient amount t).1
  pub execute_transfer_keeps :
      (sender recipient who e : String) (amount : ℤ) (t : T)
      → pos 0 ≤ℤ amount
      → (token.execute_transfer sender recipient amount t).0 ≡ throws e
      → token.balance_of who (token.execute_transfer sender recipient amount t).1
        ≡ token.balance_of who t

-- The arithmetic of the fee; each operation may throw.
pub record SafeMath : Type 0 where
  pub add : ℤ → ℤ → Outcome ℤ
  pub mul : ℤ → ℤ → Outcome ℤ
  pub div : ℤ → ℤ → Outcome ℤ
