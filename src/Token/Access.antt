-- ===== src/Token/Access.antt =====
-- Who may do what: the pause, the roles and the supply.
use current_dao_contracts.Base.{ℤ, ◌≡◌, ◌≢◌, ◌⊎◌, String, true, false, arith, eq_iff, throws, has}
use current_dao_contracts.Token.Defs.{
  Token, mint, burn, execute_transfer, transfer_from, transfer, approve, pause, unpause,
  grant_minter_role, grant_burner_role,
}
use current_dao_contracts.Token.Supply.{Method, pauses, mints, burns, after}

-- While the token is paused, no account can mint, burn, transfer or approve: each call throws the
-- same error, and the token stays as it is.
pub paused_blocks :
    (now : ℤ) (caller from to : String) (amount : ℤ) (t : Token)
    → t.paused ≡ true
    → (mint now caller to amount t ≡ (throws "Pausable: paused", t))
      × (burn now caller from amount t ≡ (throws "Pausable: paused", t))
      × (execute_transfer now from to amount t ≡ (throws "Pausable: paused", t))
      × (transfer_from now from to amount t ≡ (throws "Pausable: paused", t))
      × (transfer now to amount t ≡ (throws "Pausable: paused", t))
      × (approve now to amount caller t ≡ (throws "Pausable: paused", t))
unfolding mint burn transfer_from transfer approve
paused_blocks now caller from to amount t h =
    (ground arith, ground arith, ground arith, ground arith, ground arith, ground arith)

-- The caller may change the supply by this method.
abbrev pub MaySupply : String → Method → Token → Type 0
MaySupply caller (mints _ _) t = (has caller t.minters ≡ true) ⊎ (caller ≡ t.admin)
MaySupply caller (burns owner _) t = (has caller t.burners ≡ true) ⊎ (caller ≡ owner)
MaySupply _ _ _ = ⊥

-- A call that changes the total supply is a mint by a minter or the administrator, or a burn by a
-- burner or the owner of the tokens; and the token was not paused.
pub supply_change_authorised :
    (now : ℤ) (caller : String) (m : Method) (t : Token)
    → (after now caller m t).total_supply ≢ t.total_supply
    → (t.paused ≡ false) × MaySupply caller m t
unfolding after pause unpause grant_minter_role grant_burner_role mint burn approve transfer_from
    transfer
supply_change_authorised now caller (mints to amount) t h = ground (arith, eq_iff caller t.admin)
supply_change_authorised now caller (burns owner amount) t h = ground (arith, eq_iff caller owner)
supply_change_authorised now caller _ t h = ground arith

-- A call by anybody but the administrator leaves the roles, the pause and the administrator as they
-- are.
pub only_admin_governs :
    (now : ℤ) (caller : String) (m : Method) (t : Token)
    → caller ≢ t.admin
    → let t' = after now caller m t in
      (t'.minters ≡ t.minters)
      × (t'.burners ≡ t.burners)
      × (t'.paused ≡ t.paused)
      × (t'.admin ≡ t.admin)
unfolding after pause unpause grant_minter_role grant_burner_role mint burn approve transfer_from
    transfer
only_admin_governs now caller pauses t h = ground (arith, eq_iff caller t.admin)
only_admin_governs now caller _ t h = ground (arith, eq_iff caller t.admin)
