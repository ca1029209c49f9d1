-- ===== src/MultiSig/Quorum.antt =====
-- What it takes to execute a transaction, and whether the threshold can be met.
use current_dao_contracts.Base.{
  ⊤, length, ℤ, pos, ◌+ℤ◌, ◌-ℤ◌, ◌≤ℤ◌, ◌<ℤ◌, -ℤ_parts, ◌≡◌, ◌≢◌, inl, inr, refl, String, true,
  false, some, [], ◌∷◌, arith, eq_iff, get, has_key, get-set_ne, IsKeyed, has, ok, Option-cases,
  add_all, length-add, length-remove, remove,
}
use mathlib.Core.Path.{subst}
use current_dao_contracts.MultiSig.Defs.{
  MultiSig, Transaction, new, hash, submitted, submit_transaction, confirm_transaction,
  execute_transaction, revoke_confirmation, update_threshold, add_owner, remove_owner,
  confirmations_of,
}
use current_dao_contracts.MultiSig.Counts.{
  Method, submits, confirms, executes, revokes, updates_threshold, adds_owner, removes_owner, after,
  Reach, confirmations_counted, execute_writes,
}

-- The threshold is at least 1, and there are as many owners.
abbrev pub IsLive : MultiSig → Type 0
IsLive s =
    (pos 1 ≤ℤ s.num_confirmations_required)
    × (s.num_confirmations_required ≤ℤ pos (length s.owners))

-- Once there are as many owners as the threshold, every call keeps it so: the threshold is not
-- raised above the number of owners, and no owner is removed that it needs.
pub after-IsLive :
    (now : ℤ) (sender : String) (m : Method) (s : MultiSig)
    → IsLive s
    → IsLive (after now sender m s)
unfolding after submit_transaction confirm_transaction execute_transaction revoke_confirmation
    update_threshold add_owner remove_owner
after-IsLive now sender (submits to value payload) s h = ground arith
after-IsLive now sender (confirms id) s h = ground arith
after-IsLive now sender (executes id) s h = ground arith
after-IsLive now sender (revokes id) s h = ground arith
after-IsLive now sender (updates_threshold n) s h = ground arith
after-IsLive now sender (adds_owner o) s h = ground (arith, length-add o s.owners)
after-IsLive now sender (removes_owner o) s h =
    ground (arith, length-remove o s.owners, -ℤ_parts (pos (length s.owners)) (pos 1))

-- The constructor counts the names that it is given, not the owners: one name given twice passes for
-- two owners, and the threshold of 2 is above the number of owners.
pub repeated_owner_locks :
    (o : String)
    → (s : MultiSig) × (new (o ∷ o ∷ []) (pos 2) ≡ ok s)
      × (s.owners ≡ o ∷ [])
      × (pos (length s.owners) <ℤ s.num_confirmations_required)
unfolding new add_all
repeated_owner_locks o = (
  record {
    transactions = [];
    confirmations = [];
    owners = o ∷ [];
    num_confirmations_required = pos 2;
    transaction_count = pos 0;
  },
  ground (arith, eq_iff o o),
  refl,
  omega arith,
)

-- In every multisig that calls lead to: the call that executes a transaction comes from an owner, not
-- after the deadline, and finds at least as many stored confirmations of it, each from another
-- account, as the threshold asks.
pub executed_with_quorum :
    (now : ℤ) (sender id : String) (s : MultiSig) (tx tx' : Transaction)
    → Reach s
    → get id s.transactions ≡ some tx
    → tx.executed ≡ false
    → get id (execute_transaction now id sender s).1.transactions ≡ some tx'
    → tx'.executed ≡ true
    → (has sender s.owners ≡ true)
      × (now ≤ℤ tx.deadline)
      × IsKeyed (confirmations_of id s)
      × (s.num_confirmations_required ≤ℤ pos (length (confirmations_of id s)))
executed_with_quorum now sender id s tx tx' r at before e done =
    let (keyed, counted) = confirmations_counted id tx r at in
    elim (execute_writes now id sender s tx at) [
      | inl same ↦ absurd (cc (same, at, e, before, done))
      | inr (owner, quorum, intime, wrote) ↦
          (owner, intime, keyed, subst (λ n. s.num_confirmations_required ≤ℤ n) counted quorum)
    ]

-- A submission does not come out at the id `id`.
abbrev pub IsApart : ℤ → Method → String → MultiSig → Type 0
IsApart now (submits to value payload) id s = hash now to value payload s.transaction_count ≢ id
IsApart _ _ _ _ = ⊤

confirm_settled :
    (now : ℤ) (sender id key : String) (s : MultiSig) (tx : Transaction)
    → get id s.transactions ≡ some tx
    → tx.executed ≡ true
    → get id (confirm_transaction now key sender s).1.transactions ≡ some tx
unfolding confirm_transaction
confirm_settled now sender id key s tx at done = elim (Option-cases (get key s.transactions)) [
  | inl absent ↦ ground arith
  | inr (found, at') ↦ ground (
    arith,
    eq_iff key id,
    get-set_ne key id (record found { num_confirmations = found.num_confirmations +ℤ pos 1 })
        s.transactions,
  )
]

revoke_settled :
    (sender id key : String) (s : MultiSig) (tx : Transaction)
    → get id s.transactions ≡ some tx
    → tx.executed ≡ true
    → get id (revoke_confirmation key sender s).1.transactions ≡ some tx
unfolding revoke_confirmation
revoke_settled sender id key s tx at done = elim (Option-cases (get key s.transactions)) [
  | inl absent ↦ ground arith
  | inr (found, at') ↦ ground (
    arith,
    eq_iff key id,
    get-set_ne key id (record found { num_confirmations = found.num_confirmations -ℤ pos 1 })
        s.transactions,
  )
]

execute_settled :
    (now : ℤ) (sender id key : String) (s : MultiSig) (tx : Transaction)
    → get id s.transactions ≡ some tx
    → tx.executed ≡ true
    → get id (execute_transaction now key sender s).1.transactions ≡ some tx
unfolding execute_transaction
execute_settled now sender id key s tx at done = elim (Option-cases (get key s.transactions)) [
  | inl absent ↦ ground arith
  | inr (found, at') ↦
      ground
        (arith, eq_iff key id, get-set_ne key id (record found { executed = true }) s.transactions)
]

-- A transaction that is executed stays stored as it is: it cannot be confirmed, revoked or executed
-- again. Only a submission whose id comes out the same is left aside.
pub executed_stays :
    (now : ℤ) (sender id : String) (m : Method) (s : MultiSig) (tx : Transaction)
    → get id s.transactions ≡ some tx
    → tx.executed ≡ true
    → IsApart now m id s
    → get id (after now sender m s).transactions ≡ some tx
unfolding after submit_transaction update_threshold add_owner remove_owner
executed_stays now sender id (submits to value payload) s tx at done apart =
    let key = hash now to value payload s.transaction_count in
    ground (arith, get-set_ne key id (submitted now key to value payload) s.transactions apart)
executed_stays now sender id (confirms key) s tx at done apart =
    confirm_settled now sender id key s tx at done
executed_stays now sender id (executes key) s tx at done apart =
    execute_settled now sender id key s tx at done
executed_stays now sender id (revokes key) s tx at done apart =
    revoke_settled sender id key s tx at done
executed_stays now sender id (updates_threshold n) s tx at done apart = ground arith
executed_stays now sender id (adds_owner o) s tx at done apart = ground arith
executed_stays now sender id (removes_owner o) s tx at done apart = ground arith

-- The removal of an owner leaves that owner's confirmations in force: a transaction that the owner
-- confirmed, with a counter just at the threshold, keeps the confirmation and can still be executed by
-- another owner.
pub removed_owner_counts :
    (now : ℤ) (gone sender id : String) (s : MultiSig) (tx : Transaction)
    → get id s.transactions ≡ some tx
    → tx.executed ≡ false
    → now ≤ℤ tx.deadline
    → has_key gone (confirmations_of id s) ≡ true
    → tx.num_confirmations ≡ s.num_confirmations_required
    → has gone s.owners ≡ true
    → s.num_confirmations_required <ℤ pos (length s.owners)
    → has sender (remove gone s.owners) ≡ true
    → let (r, s') = remove_owner gone "0xSelf" s in
      (r ≡ ok tt)
      × (s'.owners ≡ remove gone s.owners)
      × (has_key gone (confirmations_of id s') ≡ true)
      × ((execute_transaction now id sender s').0 ≡ ok tt)
unfolding remove_owner execute_transaction
removed_owner_counts now gone sender id s tx at before intime confirmed counted owner spare other =
    ground (arith, -ℤ_parts (pos (length s.owners)) (pos 1))
