-- ===== src/Token/Supply.antt =====
-- The supply: what minting, burning and moving tokens do to the sum of the balances.
use current_dao_contracts.Base.{
  ⊤, ℤ, pos, ◌+ℤ◌, ◌-ℤ◌, ◌≤ℤ◌, int_laws, +ℤ_parts, ◌≡◌, refl, ◌∙◌, String, arith, set,
}
use current_dao_contracts.Token.Defs.{
  Token, balance_of, new, pause, unpause, grant_minter_role, grant_burner_role, mint, burn,
  execute_transfer, transfer_from, transfer, approve,
}
use current_dao_contracts.Token.Total.{sum, sum-set, IsNonneg, set-IsNonneg, get_nonneg, get-le-sum}

-- The balances are not negative, and add up to the total supply.
pub record IsValid (t : Token) : Type 0 where
  pub nonneg : IsNonneg t.balances
  pub total : sum t.balances ≡ t.total_supply

-- One write to the table of balances, beside a new total supply.
write-IsValid :
    (k : String) (v total' : ℤ) (t : Token)
    → IsValid t
    → pos 0 ≤ℤ v
    → total' +ℤ balance_of k t ≡ t.total_supply +ℤ v
    → IsNonneg (set k v t.balances) × (sum (set k v t.balances) ≡ total')
unfolding balance_of
write-IsValid k v total' t h p e =
    (set-IsNonneg k v t.balances h.nonneg p, grind (int_laws, sum-set k v t.balances))

credit-IsValid :
    (k : String) (amount : ℤ) (t : Token)
    → IsValid t
    → pos 0 ≤ℤ amount
    → IsNonneg (set k (balance_of k t +ℤ amount) t.balances)
      × (sum (set k (balance_of k t +ℤ amount) t.balances) ≡ t.total_supply +ℤ amount)
unfolding balance_of
credit-IsValid k amount t h p =
    write-IsValid k (balance_of k t +ℤ amount) (t.total_supply +ℤ amount) t h
      (omega (int_laws, get_nonneg k t.balances h.nonneg)) (omega int_laws)

debit-IsValid :
    (k : String) (amount : ℤ) (t : Token)
    → IsValid t
    → amount ≤ℤ balance_of k t
    → IsNonneg (set k (balance_of k t -ℤ amount) t.balances)
      × (sum (set k (balance_of k t -ℤ amount) t.balances) ≡ t.total_supply -ℤ amount)
unfolding balance_of
debit-IsValid k amount t h p =
    write-IsValid k (balance_of k t -ℤ amount) (t.total_supply -ℤ amount) t h (omega int_laws)
      (omega int_laws)

abbrev pub debited : String → ℤ → Token → Token
debited k amount t = record t { balances = set k (balance_of k t -ℤ amount) t.balances }

move-IsValid :
    (sender recipient : String) (amount : ℤ) (t : Token)
    → IsValid t
    → pos 0 ≤ℤ amount
    → amount ≤ℤ balance_of sender t
    → let t' = debited sender amount t in
      let m = set recipient (balance_of recipient t' +ℤ amount) t'.balances in
      IsNonneg m × (sum m ≡ t.total_supply)
unfolding balance_of
move-IsValid sender recipient amount t h p q =
    let t' = record (debited sender amount t) { total_supply = t.total_supply -ℤ amount } in
    let (nonneg, total) = debit-IsValid sender amount t h q in
    let moved = credit-IsValid recipient amount t' (record { nonneg = nonneg; total = total }) p in
    (moved.0, moved.1 ∙ omega int_laws)

-- Every balance is covered by the supply.
balance_bounds :
    (k : String) (t : Token)
    → IsValid t
    → (pos 0 ≤ℤ balance_of k t) × (balance_of k t ≤ℤ t.total_supply)
unfolding balance_of
balance_bounds k t h =
    (get_nonneg k t.balances h.nonneg, rw (← h.total) (get-le-sum k t.balances h.nonneg))

module _ (now : ℤ) where
  mint-IsValid :
      (caller to : String) (amount : ℤ) (t : Token)
      → IsValid t
      → IsValid (mint now caller to amount t).1
  unfolding mint
  mint-IsValid caller to amount t h = ground (
    arith,
    +ℤ_parts t.total_supply amount,
    +ℤ_parts (balance_of to t) amount,
    get_nonneg to t.balances h.nonneg,
    credit-IsValid to amount t h,
  )

  burn-IsValid :
      (caller owner : String) (amount : ℤ) (t : Token)
      → IsValid t
      → IsValid (burn now caller owner amount t).1
  unfolding burn
  burn-IsValid caller owner amount t h =
      ground (arith, debit-IsValid owner amount t h, balance_bounds owner t h)

  execute_transfer-IsValid :
      (sender recipient : String) (amount : ℤ) (t : Token)
      → pos 0 ≤ℤ amount
      → IsValid t
      → IsValid (execute_transfer now sender recipient amount t).1
  unfolding execute_transfer
  execute_transfer-IsValid sender recipient amount t p h = ground (
    arith,
    move-IsValid sender recipient amount t h p,
    +ℤ_parts (balance_of recipient (debited sender amount t)) amount,
  )

-- A call of a method that writes. `pauses` and `grants` are the calls of the administrator.
pub data Method : Type 0 where
  pauses unpauses : Method
  grants_minter grants_burner : String → Method
  mints burns : String → ℤ → Method
  transfers transfers_from : String → String → ℤ → Method
  transfers_mock : String → ℤ → Method
  approves : String → ℤ → Method

-- The token after the call, whether it returned or threw.
unfoldable pub after : ℤ → String → Method → Token → Token
after now caller pauses t = (pause now caller t).1
after now caller unpauses t = (unpause now caller t).1
after now caller (grants_minter account) t = (grant_minter_role now caller account t).1
after now caller (grants_burner account) t = (grant_burner_role now caller account t).1
after now caller (mints to amount) t = (mint now caller to amount t).1
after now caller (burns owner amount) t = (burn now caller owner amount t).1
after now caller (transfers sender recipient amount) t =
    (execute_transfer now sender recipient amount t).1
after now caller (transfers_from sender recipient amount) t =
    (transfer_from now sender recipient amount t).1
after now caller (transfers_mock recipient amount) t = (transfer now recipient amount t).1
after now caller (approves spender amount) t = (approve now spender amount caller t).1

-- A transfer is given an amount that is not negative. The other methods take any.
abbrev pub IsFair : Method → Type 0
IsFair (transfers _ _ amount) = pos 0 ≤ℤ amount
IsFair (transfers_from _ _ amount) = pos 0 ≤ℤ amount
IsFair (transfers_mock _ amount) = pos 0 ≤ℤ amount
IsFair _ = ⊤

-- The tokens that calls by anybody, at any times, lead to from a new one.
pub data Reach : Token → Type 0 where
  start : (now : ℤ) (admin : String) → Reach (new now admin)
  step :
      {t : Token} (now : ℤ) (caller : String) (m : Method)
      → Reach t
      → IsFair m
      → Reach (after now caller m t)

after-IsValid :
    (now : ℤ) (caller : String) (m : Method) (t : Token)
    → IsFair m
    → IsValid t
    → IsValid (after now caller m t)
unfolding after pause unpause grant_minter_role grant_burner_role approve transfer_from transfer
after-IsValid now caller pauses t p h = ground arith
after-IsValid now caller unpauses t p h = ground arith
after-IsValid now caller (grants_minter account) t p h = ground arith
after-IsValid now caller (grants_burner account) t p h = ground arith
after-IsValid now caller (mints to amount) t p h = mint-IsValid now caller to amount t h
after-IsValid now caller (burns owner amount) t p h = burn-IsValid now caller owner amount t h
after-IsValid now caller (transfers sender recipient amount) t p h =
    execute_transfer-IsValid now sender recipient amount t p h
after-IsValid now caller (transfers_from sender recipient amount) t p h =
    execute_transfer-IsValid now sender recipient amount t p h
after-IsValid now caller (transfers_mock recipient amount) t p h =
    execute_transfer-IsValid now "mock_caller" recipient amount t p h
after-IsValid now caller (approves spender amount) t p h = ground arith

Reach-IsValid : {t : Token} → Reach t → IsValid t
unfolding new sum
Reach-IsValid (start now admin) = record { nonneg = tt; total = refl }
Reach-IsValid (step {t} now caller m r p) = after-IsValid now caller m t p (Reach-IsValid r)

-- In every token that calls lead to from a new one, with no transfer of a negative amount, the
-- balances add up to the total supply, and each lies between 0 and the total supply. Calls that
-- throw are counted in, with what they had written before.
pub Reach-conserves :
    {t : Token} (account : String)
    → Reach t
    → (sum t.balances ≡ t.total_supply)
      × (pos 0 ≤ℤ balance_of account t)
      × (balance_of account t ≤ℤ t.total_supply)
Reach-conserves {t} account r =
    let h = Reach-IsValid r in
    let bounds = balance_bounds account t h in (h.total, bounds.0, bounds.1)
