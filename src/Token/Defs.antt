-- ===== src/Token/Defs.antt =====
-- contracts/token/WattToken.ts, method by method, and contracts/token/libraries/SafeMath.ts.
use current_dao_contracts.Base.{
  ⊤, ℤ, pos, ◌+ℤ◌, ◌-ℤ◌, ltb_ℤ, String, ◌==◌, Bool, true, false, not, ◌&&◌, ◌||◌, List, [], ◌∷◌,
  ◌++◌, Dict, get, set, Set, has, add, ok, throws, Call, pure, gets, throw_if, modify, ◌>>=◌, ◌>>◌,
  if◌then◌else◌, get_or,
}

-- `SafeMath.add`: the check for overflow throws when the sum is below the first summand.
unfoldable pub safe_add : {S : Type 0} → ℤ → ℤ → Call S ℤ
safe_add a b s = (if ltb_ℤ (a +ℤ b) a then throws "SafeMath: addition overflow" else ok (a +ℤ b), s)

-- `SafeMath.sub`
unfoldable pub safe_sub : {S : Type 0} → ℤ → ℤ → Call S ℤ
safe_sub a b s = (if ltb_ℤ a b then throws "SafeMath: subtraction overflow" else ok (a -ℤ b), s)

-- The events by name, with their data.
pub data EventData : Type 0 where
  initialized : String → EventData
  was_paused : String → EventData
  was_unpaused : String → EventData
  role_granted : String → String → EventData
  transferred : String → String → ℤ → EventData
  energy_minted : String → ℤ → EventData
  energy_consumed : String → ℤ → EventData
  approval : String → String → ℤ → EventData

pub record Event : Type 0 where
  pub timestamp : ℤ
  pub info : EventData

pub record Token : Type 0 where
  pub total_supply : ℤ
  pub balances : Dict ℤ
  pub allowances : Dict (Dict ℤ)
  pub admin : String
  pub minters : Set
  pub burners : Set
  pub paused : Bool
  pub events : List Event

module _ (now : ℤ) where
  unfoldable pub emit_event : EventData → Call Token ⊤
  emit_event info =
      modify λ t. record t { events = t.events ++ (record { timestamp = now; info = info } ∷ []) }

  unfoldable pub new : String → Token
  new admin_address = record {
    total_supply = pos 0;
    balances = [];
    allowances = [];
    admin = admin_address;
    minters = [];
    burners = [];
    paused = false;
    events = record { timestamp = now; info = initialized admin_address } ∷ [];
  }

unfoldable pub when_not_paused : Call Token ⊤
when_not_paused = do throw_if (← gets (λ t. t.paused)) "Pausable: paused"

unfoldable pub only_admin : String → Call Token ⊤
only_admin caller = do
  throw_if (← gets (λ t. not (caller == t.admin))) "AccessControl: caller is not an admin"

-- `this.balances.get(account) || 0`
unfoldable pub balance_of : String → Token → ℤ
balance_of account t = get_or (get account t.balances) (pos 0)

unfoldable pub set_balance : String → ℤ → Call Token ⊤
set_balance account v = modify λ t. record t { balances = set account v t.balances }

unfoldable pub set_supply : ℤ → Call Token ⊤
set_supply v = modify λ t. record t { total_supply = v }

unfoldable pub allowance : String → String → Token → ℤ
allowance owner spender t = get_or (get spender (get_or (get owner t.allowances) [])) (pos 0)

module _ (now : ℤ) where
  unfoldable pub pause : String → Call Token ⊤
  unfolding only_admin emit_event
  pause caller = do
    only_admin caller
    modify (λ t. record t { paused = true })
    emit_event now (was_paused caller)

  unfoldable pub unpause : String → Call Token ⊤
  unfolding only_admin emit_event
  unpause caller = do
    only_admin caller
    modify (λ t. record t { paused = false })
    emit_event now (was_unpaused caller)

  unfoldable pub grant_minter_role : String → String → Call Token ⊤
  unfolding only_admin emit_event
  grant_minter_role caller account = do
    only_admin caller
    modify (λ t. record t { minters = add account t.minters })
    emit_event now (role_granted "MINTER" account)

  unfoldable pub grant_burner_role : String → String → Call Token ⊤
  unfolding only_admin emit_event
  grant_burner_role caller account = do
    only_admin caller
    modify (λ t. record t { burners = add account t.burners })
    emit_event now (role_granted "BURNER" account)

  unfoldable pub mint : String → String → ℤ → Call Token Bool
  unfolding when_not_paused safe_add balance_of set_balance set_supply emit_event
  mint caller to amount = do
    when_not_paused
    throw_if (← gets (λ t. not (has caller t.minters) && not (caller == t.admin)))
        "AccessControl: caller is not a minter"
    throw_if (to == "") "ERC20: mint to the zero address"
    total ← gets (λ t. t.total_supply)
    set_supply (← safe_add total amount)
    current_balance ← gets (balance_of to)
    set_balance to (← safe_add current_balance amount)
    emit_event now (transferred "0x0" to amount)
    emit_event now (energy_minted to amount)
    pure true

  unfoldable pub burn : String → String → ℤ → Call Token Bool
  unfolding when_not_paused safe_sub balance_of set_balance set_supply emit_event
  burn caller owner amount = do
    when_not_paused
    throw_if (← gets (λ t. not (has caller t.burners) && not (caller == owner)))
        "AccessControl: caller is not a burner or owner"
    account_balance ← gets (balance_of owner)
    set_balance owner (← safe_sub account_balance amount)
    total ← gets (λ t. t.total_supply)
    set_supply (← safe_sub total amount)
    emit_event now (transferred owner "0x0" amount)
    emit_event now (energy_consumed owner amount)
    pure true

  -- `_transfer`, with `executeTransfer` and `transferFrom`, which only call it.
  unfoldable pub execute_transfer : String → String → ℤ → Call Token Bool
  unfolding when_not_paused safe_add safe_sub balance_of set_balance emit_event
  execute_transfer sender recipient amount = do
    when_not_paused
    throw_if (sender == "" || recipient == "") "ERC20: transfer from/to the zero address"
    sender_balance ← gets (balance_of sender)
    set_balance sender (← safe_sub sender_balance amount)
    recipient_balance ← gets (balance_of recipient)
    set_balance recipient (← safe_add recipient_balance amount)
    emit_event now (transferred sender recipient amount)
    pure true

  unfoldable pub transfer_from : String → String → ℤ → Call Token Bool
  unfolding execute_transfer
  transfer_from sender recipient amount = execute_transfer sender recipient amount

  unfoldable pub transfer : String → ℤ → Call Token Bool
  unfolding execute_transfer
  transfer recipient amount = execute_transfer "mock_caller" recipient amount

  unfoldable pub approve : String → ℤ → String → Call Token Bool
  unfolding when_not_paused emit_event
  approve spender amount caller = do
    when_not_paused
    modify λ t. record t {
      allowances =
          set caller (set spender amount (get_or (get caller t.allowances) [])) t.allowances;
    }
    emit_event now (approval caller spender amount)
    pure true
