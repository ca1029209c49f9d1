-- ===== src/MultiSig/Counts.antt =====
-- The counter of a transaction is the number of owners who have confirmed it, each counted once.
use current_dao_contracts.Base.{
  length, ℤ, pos, ◌+ℤ◌, ◌-ℤ◌, ◌≤ℤ◌, int_laws, ◌≡◌, ◌≢◌, ◌⊎◌, inl, inr, refl, sym, ap, ◌∙◌, String,
  ◌==◌, true, none, some, List, [], arith, eq_iff, Dict, get, set, delete, has_key, get-set_self,
  get-set_ne, IsKeyed, set-IsKeyed, delete-IsKeyed, length-set_new, length-delete, has, ok,
  Bool-cases, Option-cases,
}
use mathlib.Core.Path.{subst}
use current_dao_contracts.MultiSig.Defs.{
  MultiSig, Transaction, AggregatedSignature, new, hash, submitted, submit_transaction,
  confirm_transaction, execute_transaction, revoke_confirmation, update_threshold, add_owner,
  remove_owner, confirmations_of,
}

pub data Method : Type 0 where
  submits : String → ℤ → String → Method
  confirms executes revokes : String → Method
  updates_threshold : ℤ → Method
  adds_owner removes_owner : String → Method

-- The multisig after the call, whether it returned or threw.
unfoldable pub after : ℤ → String → Method → MultiSig → MultiSig
after now sender (submits to value payload) s = (submit_transaction now to value payload sender s).1
after now sender (confirms id) s = (confirm_transaction now id sender s).1
after now sender (executes id) s = (execute_transaction now id sender s).1
after now sender (revokes id) s = (revoke_confirmation id sender s).1
after now sender (updates_threshold n) s = (update_threshold n sender s).1
after now sender (adds_owner o) s = (add_owner o sender s).1
after now sender (removes_owner o) s = (remove_owner o sender s).1

-- The multisigs that calls by anybody, at any times, lead to from a new one.
pub data Reach : MultiSig → Type 0 where
  start :
      {s : MultiSig} (owners : List String) (threshold : ℤ) → new owners threshold ≡ ok s → Reach s
  step :
      {s : MultiSig} (now : ℤ) (sender : String) (m : Method)
      → Reach s
      → Reach (after now sender m s)

abbrev pub IsCounted : MultiSig → Type 0
IsCounted s =
    (id : String) (tx : Transaction)
    → get id s.transactions ≡ some tx
    → IsKeyed (confirmations_of id s)
      × (tx.num_confirmations ≡ pos (length (confirmations_of id s)))

-- A transaction and its confirmations, written together under `key`.
abbrev write : String → Transaction → Dict AggregatedSignature → MultiSig → MultiSig
write key tx m s = record s {
  transactions = set key tx s.transactions;
  confirmations = set key m s.confirmations;
}

write-IsCounted :
    (key : String) (tx : Transaction) (m : Dict AggregatedSignature) (s : MultiSig)
    → IsCounted s
    → IsKeyed m
    → tx.num_confirmations ≡ pos (length m)
    → IsCounted (write key tx m s)
write-IsCounted key tx m s h keyed counted id tx' e = elim (Bool-cases (key == id)) [
  | inl here ↦
      let k : key ≡ id = (eq_iff key id).0 here in
      let w = get-set_self id m s.confirmations in
      let t : tx ≡ tx' = cc (e, k, get-set_self id tx s.transactions) in
      rw (k, w) (keyed, ap (λ (x : Transaction). x.num_confirmations) (sym t) ∙ counted)
  | inr elsewhere ↦
      let apart : key ≢ id = λ k. cc (elsewhere, (eq_iff key id).1 k) in
      rw (get-set_ne key id m s.confirmations apart)
        (h id tx' (sym (get-set_ne key id tx s.transactions apart) ∙ e))
]

-- What `confirmTransaction` and `revokeConfirmation` may have made of the multisig.
confirm_writes :
    (now : ℤ) (id sender : String) (s : MultiSig) (tx : Transaction)
    → get id s.transactions ≡ some tx
    → ((confirm_transaction now id sender s).1 ≡ s)
      ⊎ (get sender (confirmations_of id s) ≡ none)
        × ((confirm_transaction now id sender s).1
            ≡ write id
                (record tx { num_confirmations = tx.num_confirmations +ℤ pos 1 })
                (set sender
                  (record { voter = sender; confirmed = true; timestamp = now })
                  (confirmations_of id s))
                s)
unfolding confirm_transaction
confirm_writes now id sender s tx e = ground arith

revoke_writes :
    (id sender : String) (s : MultiSig) (tx : Transaction)
    → get id s.transactions ≡ some tx
    → ((revoke_confirmation id sender s).1 ≡ s)
      ⊎ (has_key sender (confirmations_of id s) ≡ true)
        × ((revoke_confirmation id sender s).1
            ≡ write id
                (record tx { num_confirmations = tx.num_confirmations -ℤ pos 1 })
                (delete sender (confirmations_of id s))
                s)
unfolding revoke_confirmation
revoke_writes id sender s tx e = ground arith

confirm_absent :
    (now : ℤ) (id sender : String) (s : MultiSig)
    → get id s.transactions ≡ none
    → (confirm_transaction now id sender s).1 ≡ s
unfolding confirm_transaction
confirm_absent now id sender s e = ground arith

revoke_absent :
    (id sender : String) (s : MultiSig)
    → get id s.transactions ≡ none
    → (revoke_confirmation id sender s).1 ≡ s
unfolding revoke_confirmation
revoke_absent id sender s e = ground arith

confirm-IsCounted :
    (now : ℤ) (id sender : String) (s : MultiSig)
    → IsCounted s
    → IsCounted (confirm_transaction now id sender s).1
confirm-IsCounted now id sender s h = elim (Option-cases (get id s.transactions)) [
  | inl absent ↦ subst IsCounted (sym (confirm_absent now id sender s absent)) h
  | inr (tx, at) ↦ elim (confirm_writes now id sender s tx at) [
    | inl same ↦ subst IsCounted (sym same) h
    | inr (fresh, wrote) ↦
        let m = confirmations_of id s in
        let sig : AggregatedSignature = record {
          voter = sender;
          confirmed = true;
          timestamp = now;
        } in
        subst IsCounted (sym wrote) (
          write-IsCounted id (record tx { num_confirmations = tx.num_confirmations +ℤ pos 1 })
            (set sender sig m) s h (set-IsKeyed sender sig m (h id tx at).0)
            (rw (h id tx at).1 (omega (int_laws, length-set_new sender sig m fresh))))
  ]
]

revoke-IsCounted :
    (id sender : String) (s : MultiSig)
    → IsCounted s
    → IsCounted (revoke_confirmation id sender s).1
revoke-IsCounted id sender s h = elim (Option-cases (get id s.transactions)) [
  | inl absent ↦ subst IsCounted (sym (revoke_absent id sender s absent)) h
  | inr (tx, at) ↦ elim (revoke_writes id sender s tx at) [
    | inl same ↦ subst IsCounted (sym same) h
    | inr (there, wrote) ↦
        let m = confirmations_of id s in
        subst IsCounted (sym wrote) (
          write-IsCounted id (record tx { num_confirmations = tx.num_confirmations -ℤ pos 1 })
            (delete sender m) s h (delete-IsKeyed sender m (h id tx at).0)
            (rw (h id tx at).1 (omega (int_laws, length-delete sender m there))))
  ]
]

submit_writes :
    (now : ℤ) (to : String) (value : ℤ) (payload sender : String) (s : MultiSig)
    → let id = hash now to value payload s.transaction_count in
      ((submit_transaction now to value payload sender s).1 ≡ s)
      ⊎ ((submit_transaction now to value payload sender s).1
          ≡ write id
              (submitted now id to value payload)
              []
              (record s { transaction_count = s.transaction_count +ℤ pos 1 }))
unfolding submit_transaction
submit_writes now to value payload sender s = ground arith

submit-IsCounted :
    (now : ℤ) (to : String) (value : ℤ) (payload sender : String) (s : MultiSig)
    → IsCounted s
    → IsCounted (submit_transaction now to value payload sender s).1
unfolding submitted
submit-IsCounted now to value payload sender s h =
    let id = hash now to value payload s.transaction_count in
    elim (submit_writes now to value payload sender s) [
      | inl same ↦ subst IsCounted (sym same) h
      | inr wrote ↦ subst IsCounted (sym wrote) (
          write-IsCounted id (submitted now id to value payload) []
            (record s { transaction_count = s.transaction_count +ℤ pos 1 }) h tt refl)
    ]

pub execute_writes :
    (now : ℤ) (id sender : String) (s : MultiSig) (tx : Transaction)
    → get id s.transactions ≡ some tx
    → ((execute_transaction now id sender s).1 ≡ s)
      ⊎ ((has sender s.owners ≡ true)
          × (s.num_confirmations_required ≤ℤ tx.num_confirmations)
          × (now ≤ℤ tx.deadline)
          × ((execute_transaction now id sender s).1
              ≡ record s { transactions = set id (record tx { executed = true }) s.transactions }))
unfolding execute_transaction
execute_writes now id sender s tx e = ground arith

execute_absent :
    (now : ℤ) (id sender : String) (s : MultiSig)
    → get id s.transactions ≡ none
    → (execute_transaction now id sender s).1 ≡ s
unfolding execute_transaction
execute_absent now id sender s e = ground arith

-- Marking a transaction leaves its counter alone.
marked-IsCounted :
    (id : String) (tx : Transaction) (s : MultiSig)
    → get id s.transactions ≡ some tx
    → IsCounted s
    → IsCounted (record s { transactions = set id (record tx { executed = true }) s.transactions })
marked-IsCounted key tx s at h id tx' e =
    let marked : Transaction = record tx { executed = true } in
    elim (Bool-cases (key == id)) [
      | inl here ↦
          let k : key ≡ id = (eq_iff key id).0 here in
          let t : marked ≡ tx' = cc (e, k, get-set_self id marked s.transactions) in
          (
            (h id tx (sym (ap (λ j. get j s.transactions) k) ∙ at)).0,
            ap (λ (x : Transaction). x.num_confirmations) (sym t)
                ∙ (h id tx (sym (ap (λ j. get j s.transactions) k) ∙ at)).1,
          )
      | inr elsewhere ↦
          let apart : key ≢ id = λ k. cc (elsewhere, (eq_iff key id).1 k) in
          h id tx' (sym (get-set_ne key id marked s.transactions apart) ∙ e)
    ]

execute-IsCounted :
    (now : ℤ) (id sender : String) (s : MultiSig)
    → IsCounted s
    → IsCounted (execute_transaction now id sender s).1
execute-IsCounted now id sender s h = elim (Option-cases (get id s.transactions)) [
  | inl absent ↦ subst IsCounted (sym (execute_absent now id sender s absent)) h
  | inr (tx, at) ↦ elim (execute_writes now id sender s tx at) [
    | inl same ↦ subst IsCounted (sym same) h
    | inr (_, _, _, wrote) ↦ subst IsCounted (sym wrote) (marked-IsCounted id tx s at h)
  ]
]

tables-IsCounted :
    (s s' : MultiSig)
    → (s'.transactions ≡ s.transactions) × (s'.confirmations ≡ s.confirmations)
    → IsCounted s
    → IsCounted s'
tables-IsCounted s s' (t, c) h id tx e = rw c (h id tx (subst (λ m. get id m ≡ some tx) t e))

after-IsCounted :
    (now : ℤ) (sender : String) (m : Method) (s : MultiSig)
    → IsCounted s
    → IsCounted (after now sender m s)
unfolding after update_threshold add_owner remove_owner
after-IsCounted now sender (submits to value payload) s h =
    submit-IsCounted now to value payload sender s h
after-IsCounted now sender (confirms id) s h = confirm-IsCounted now id sender s h
after-IsCounted now sender (executes id) s h = execute-IsCounted now id sender s h
after-IsCounted now sender (revokes id) s h = revoke-IsCounted id sender s h
after-IsCounted now sender (updates_threshold n) s h =
    tables-IsCounted s (after now sender (updates_threshold n) s) (ground arith) h
after-IsCounted now sender (adds_owner o) s h =
    tables-IsCounted s (after now sender (adds_owner o) s) (ground arith) h
after-IsCounted now sender (removes_owner o) s h =
    tables-IsCounted s (after now sender (removes_owner o) s) (ground arith) h

start-IsCounted :
    {s : MultiSig} (owners : List String) (threshold : ℤ)
    → new owners threshold ≡ ok s
    → IsCounted s
unfolding new
start-IsCounted owners threshold e id tx at = ground arith

-- In every multisig that calls lead to, the counter of a stored transaction is the number of its
-- stored confirmations, and no owner has confirmed it twice.
pub confirmations_counted :
    {s : MultiSig} (id : String) (tx : Transaction)
    → Reach s
    → get id s.transactions ≡ some tx
    → IsKeyed (confirmations_of id s)
      × (tx.num_confirmations ≡ pos (length (confirmations_of id s)))
confirmations_counted id tx (start owners threshold e) = start-IsCounted owners threshold e id tx
confirmations_counted id tx (step {s} now sender m r) =
    after-IsCounted now sender m s (λ i t. confirmations_counted i t r) id tx
