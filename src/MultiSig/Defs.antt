-- ===== src/MultiSig/Defs.antt =====
-- contracts/multisig/DAOMultiSig.ts, method by method, with MultiSigLib and the structures.
-- `getTransactionCount` reads a field, and `triggerEmergencyRecovery` writes a line to the console and
-- nothing else.
use current_dao_contracts.Base.{
  ⊤, length, ℤ, pos, ◌+ℤ◌, ◌-ℤ◌, ltb_ℤ, leb_ℤ, String, ◌==◌, concat, slice_to, show_number, Bool,
  true, false, not, ◌&&◌, ◌||◌, none, some, List, [], ◌∷◌, Dict, get, set, delete, has_key, Set,
  map, has, add, add_all, remove, Outcome, ok, throws, Call, pure, gets, throw_if, or_throw, modify,
  ◌>>=◌, ◌>>◌, if◌then◌else◌, get_or,
}

pub record Transaction : Type 0 where
  pub id : String
  pub to : String
  pub value : ℤ
  pub payload : String  -- `data`
  pub executed : Bool
  pub num_confirmations : ℤ
  pub timestamp : ℤ
  pub deadline : ℤ

pub record AggregatedSignature : Type 0 where
  pub voter : String
  pub confirmed : Bool
  pub timestamp : ℤ

-- `MultiSigLib.isReady`
unfoldable pub is_ready : Transaction → ℤ → Bool
is_ready transaction threshold =
    leb_ℤ threshold transaction.num_confirmations && not transaction.executed

-- `MultiSigLib.isValid`
unfoldable pub is_valid : Transaction → ℤ → Bool
is_valid transaction current_time =
    leb_ℤ current_time transaction.deadline && not transaction.executed

-- `MultiSigLib.hash`; `data` takes no part in it.
unfoldable pub hash : ℤ → String → ℤ → String → ℤ → String
unfolding show_number
hash now to value payload nonce = concat (
    "MS_TX_"
    ∷ slice_to 6 to
    ∷ "_"
    ∷ show_number value
    ∷ "_"
    ∷ show_number nonce
    ∷ "_"
    ∷ show_number now
    ∷ [])

pub record MultiSig : Type 0 where
  pub transactions : Dict Transaction
  pub confirmations : Dict (Dict AggregatedSignature)
  pub owners : Set
  pub num_confirmations_required : ℤ
  pub transaction_count : ℤ

-- The constructor throws on a threshold that is below 1 or above the number of names given.
unfoldable pub new : List String → ℤ → Outcome MultiSig
new initial_owners initial_threshold =
    if ltb_ℤ (pos (length initial_owners)) initial_threshold || ltb_ℤ initial_threshold (pos 1)
    then throws "MultiSig: invalid parameters"
    else ok (record {
      transactions = [];
      confirmations = [];
      owners = add_all initial_owners [];
      num_confirmations_required = initial_threshold;
      transaction_count = pos 0;
    })

unfoldable pub only_owners : String → Call MultiSig ⊤
only_owners sender = do
  throw_if (← gets (λ s. not (has sender s.owners))) "MultiSig: caller is not an owner"

-- `onlyMultiSigRequirement`
unfoldable pub only_self : String → Call MultiSig ⊤
only_self sender =
    throw_if (not (sender == "0xSelf")) "MultiSig: can only be called by multisig itself"

-- `7 * 24 * 60 * 60 * 1000`
abbrev pub lifetime : ℤ
lifetime = pos 604800000

-- The transaction that `submitTransaction` stores.
unfoldable pub submitted : ℤ → String → String → ℤ → String → Transaction
submitted now id to value payload = record {
  id = id;
  to = to;
  value = value;
  payload = payload;
  executed = false;
  num_confirmations = pos 0;
  timestamp = now;
  deadline = now +ℤ lifetime;
}

unfoldable pub submit_transaction : ℤ → String → ℤ → String → String → Call MultiSig String
unfolding only_owners submitted
submit_transaction now to value payload sender = do
  only_owners sender
  tx_id ← gets (λ s. hash now to value payload s.transaction_count)
  modify λ s. record s { transaction_count = s.transaction_count +ℤ pos 1 }
  modify λ s. record s {
    transactions = set tx_id (submitted now tx_id to value payload) s.transactions;
  }
  modify λ s. record s { confirmations = set tx_id [] s.confirmations }
  pure tx_id

-- `this.confirmations.get(id)!`: it is there for every transaction (`Counts`).
abbrev pub confirmations_of : String → MultiSig → Dict AggregatedSignature
confirmations_of id s = get_or (get id s.confirmations) []

unfoldable pub confirm_transaction : ℤ → String → String → Call MultiSig ⊤
unfolding only_owners
confirm_transaction now id sender = do
  only_owners sender
  tx ← or_throw (← gets (λ s. get id s.transactions)) "MultiSig: transaction not found"
  throw_if tx.executed "MultiSig: transaction already executed"
  throw_if (← gets (λ s. has_key sender (confirmations_of id s))) "MultiSig: already confirmed"
  modify λ s. record s {
    confirmations =
        set id
          (set sender (record { voter = sender; confirmed = true; timestamp = now })
            (confirmations_of id s))
          s.confirmations;
  }
  modify λ s. record s {
    transactions =
        set id (record tx { num_confirmations = tx.num_confirmations +ℤ pos 1 }) s.transactions;
  }

unfoldable pub execute_transaction : ℤ → String → String → Call MultiSig ⊤
unfolding only_owners is_valid
execute_transaction now id sender = do
  only_owners sender
  tx ← or_throw (← gets (λ s. get id s.transactions)) "MultiSig: transaction not found"
  throw_if tx.executed "MultiSig: transaction already executed"
  throw_if (← gets (λ s. ltb_ℤ tx.num_confirmations s.num_confirmations_required))
      "MultiSig: insufficient confirmations"
  throw_if (not (is_valid tx now)) "MultiSig: transaction expired"
  modify λ s. record s { transactions = set id (record tx { executed = true }) s.transactions }

unfoldable pub revoke_confirmation : String → String → Call MultiSig ⊤
unfolding only_owners
revoke_confirmation id sender = do
  only_owners sender
  tx ← or_throw (← gets (λ s. get id s.transactions)) "MultiSig: transaction not found"
  throw_if tx.executed "MultiSig: transaction already executed"
  throw_if (← gets (λ s. not (has_key sender (confirmations_of id s)))) "MultiSig: not confirmed"
  modify λ s. record s {
    confirmations = set id (delete sender (confirmations_of id s)) s.confirmations;
  }
  modify λ s. record s {
    transactions =
        set id (record tx { num_confirmations = tx.num_confirmations -ℤ pos 1 }) s.transactions;
  }

unfoldable pub update_threshold : ℤ → String → Call MultiSig ⊤
unfolding only_self
update_threshold new_threshold sender = do
  only_self sender
  throw_if
      (← gets (λ s. ltb_ℤ (pos (length s.owners)) new_threshold || ltb_ℤ new_threshold (pos 1)))
      "MultiSig: invalid threshold"
  modify λ s. record s { num_confirmations_required = new_threshold }

unfoldable pub add_owner : String → String → Call MultiSig ⊤
unfolding only_self
add_owner new_owner sender = do
  only_self sender
  throw_if (← gets (λ s. has new_owner s.owners)) "MultiSig: already an owner"
  modify λ s. record s { owners = add new_owner s.owners }

unfoldable pub remove_owner : String → String → Call MultiSig ⊤
unfolding only_self
remove_owner owner sender = do
  only_self sender
  throw_if (← gets (λ s. not (has owner s.owners))) "MultiSig: not an owner"
  throw_if (← gets (λ s. ltb_ℤ (pos (length s.owners) -ℤ pos 1) s.num_confirmations_required))
      "MultiSig: cannot remove owner, threshold would be impossible"
  modify λ s. record s { owners = remove owner s.owners }

-- `isConfirmed`; a comparison with `undefined` is false.
unfoldable pub is_confirmed : String → MultiSig → Bool
is_confirmed id s = elim (get id s.transactions) [
  | none ↦ false
  | some tx ↦ leb_ℤ s.num_confirmations_required tx.num_confirmations
]

unfoldable pub get_owners : MultiSig → Set
get_owners s = s.owners

unfoldable pub get_transaction : String → Call MultiSig Transaction
get_transaction id = do
  found ← gets (λ s. get id s.transactions)
  or_throw found "MultiSig: transaction not found"

unfoldable pub get_confirmations : String → MultiSig → List AggregatedSignature
get_confirmations id s = map (λ e. e.1) (confirmations_of id s)
