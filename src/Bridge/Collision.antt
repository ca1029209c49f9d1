-- ===== src/Bridge/Collision.antt =====
-- Different transactions with one hash.
use Prim.Native.String
use Prim.Native.Char.{code}
use text.Mathlib.TextLemmas.{nil-append, cons-append}
use current_dao_contracts.Base.{
  ℕ, ◌+◌, ◌*◌, ◌%◌, ◌≡◌, ◌≢◌, refl, sym, ap, ◌∙◌, inl, inr, ℤ, String, concat, show_number, List,
  [], ◌∷◌, ◌++◌, arith, Bool, false, has, Outcome, ok, Outcome-cases,
}
use current_dao_contracts.Bridge.Interface.{Erc20}
use current_dao_contracts.Bridge.Defs.{
  Bridge, Validator, BridgeTransaction, ValidationProof, validate_proof, emit_event,
  when_not_paused, finalize_bridge, tx_hash_of,
}
use current_dao_contracts.Bridge.Methods.{Reach}
use current_dao_contracts.Bridge.Replay.{IsProcessed, validated, Reach-keeps}
use current_dao_contracts.Bridge.Hash.{
  hash_text, magnitude, hex_digits, hash_name, generate_tx_hash,
}

hash_text-append :
    (h : ℕ) (s u : String) → hash_text h (String.◌++◌ s u) ≡ hash_text (hash_text h s) u
unfolding hash_text
hash_text-append h String.[] u = rw (nil-append u) refl
hash_text-append h (String.◌∷◌ c s) u =
    rw (cons-append c s u) (hash_text-append ((31 * h + code c) % 4294967296) s u)

-- The two texts bring any hash to the same value.
abbrev Collide : String → String → Type 0
Collide u v = (h : ℕ) → hash_text h u ≡ hash_text h v

Collide-pair : Collide "Aa" "BB"
unfolding hash_text
Collide-pair h = omega arith

Collide-after : (s u v : String) → Collide u v → Collide (String.◌++◌ s u) (String.◌++◌ s v)
Collide-after s u v same h =
    hash_text-append h s u ∙ same (hash_text h s) ∙ sym (hash_text-append h s v)

Collide-before : (s u v : String) → Collide u v → Collide (String.◌++◌ u s) (String.◌++◌ v s)
Collide-before s u v same h =
    hash_text-append h u s ∙ ap (λ k. hash_text k s) (same h) ∙ sym (hash_text-append h v s)

Collide-concat :
    (l xs ys : List String)
    → Collide (concat xs) (concat ys)
    → Collide (concat (l ++ xs)) (concat (l ++ ys))
Collide-concat [] xs ys same = same
Collide-concat (s ∷ l) xs ys same = Collide-after s _ _ (Collide-concat l xs ys same)

-- The hash of two transactions whose recipients end in "Aa" and "BB", and which agree otherwise.
same_hash :
    (nonce : ℤ) (origin dest token sender r : String) (amount : ℤ)
    → generate_tx_hash nonce origin dest token sender (concat (r ∷ "Aa" ∷ [])) amount
      ≡ generate_tx_hash nonce origin dest token sender (concat (r ∷ "BB" ∷ [])) amount
unfolding generate_tx_hash hash_name
same_hash nonce origin dest token sender r amount =
    let rest = ":" ∷ show_number amount ∷ [] in
    let ends = Collide-before (concat rest) _ _ (Collide-after r "Aa" "BB" Collide-pair) in
    let all =
      Collide-concat
        (show_number nonce ∷ ":" ∷ origin ∷ ":" ∷ dest ∷ ":" ∷ token ∷ ":" ∷ sender ∷ ":" ∷ [])
        (concat (r ∷ "Aa" ∷ []) ∷ rest) (concat (r ∷ "BB" ∷ []) ∷ rest) ends in
    ap (λ n. concat ("hash_" ∷ hex_digits 8 (magnitude n) "" ∷ [])) (all 0)

-- The transaction with another recipient.
abbrev pub paid_to : String → BridgeTransaction → BridgeTransaction
paid_to recipient tx = record tx { recipient = recipient }

module _ {T : Type 0} where
  -- A finalization that returns had a hash that was not recorded, and records it.
  finalized :
      (now : ℤ) (tx : BridgeTransaction) (proof : ValidationProof) (b : Bridge T) {x : Bool}
      → (finalize_bridge now tx proof b).0 ≡ ok x
      → (has (tx_hash_of tx) b.validator.processed_hashes ≡ false)
        × IsProcessed (tx_hash_of tx) (finalize_bridge now tx proof b).1.validator
  unfolding finalize_bridge when_not_paused emit_event
  finalized now tx proof b done =
      let v : Outcome Bool × Validator =
        validate_proof (tx_hash_of tx) tx.origin_chain proof b.validator in
      elim (Outcome-cases v.0) [
        | inl (r, valid) ↦
            let (fresh, recorded, _) =
              validated (tx_hash_of tx) tx.origin_chain proof b.validator valid in
            (fresh, ground arith)
        | inr (_, refused) ↦ absurd (ground arith)
      ]

module _ {T : Type 0} ⦃token : Erc20 T⦄ where
  -- Two transactions whose recipients end in "Aa" and "BB", and which agree otherwise, have one hash;
  -- so after the first of them is finalized, no call finalizes the second, with whatever proof and
  -- whatever is called between.
  pub recipients_collide :
      (now later : ℤ) (tx : BridgeTransaction) (r : String) (proof proof' : ValidationProof)
      (b c : Bridge T) (x y : Bool)
      → let first = paid_to (concat (r ∷ "Aa" ∷ [])) tx in
        let second = paid_to (concat (r ∷ "BB" ∷ [])) tx in
        (finalize_bridge now first proof b).0 ≡ ok x
        → Reach (finalize_bridge now first proof b).1 c
        → (tx_hash_of first ≡ tx_hash_of second)
          × ((finalize_bridge later second proof' c).0 ≢ ok y)
  unfolding tx_hash_of
  recipients_collide now later tx r proof proof' b c x y done between =
      let first = paid_to (concat (r ∷ "Aa" ∷ [])) tx in
      let second = paid_to (concat (r ∷ "BB" ∷ [])) tx in
      let same : tx_hash_of first ≡ tx_hash_of second =
        same_hash tx.nonce tx.origin_chain tx.destination_chain tx.token_address tx.sender r
          tx.amount in
      let kept = Reach-keeps (tx_hash_of first) between (finalized now first proof b done).1 in
      (
        same,
        λ again. let (fresh, _) = finalized later second proof' c again in cc (fresh, kept, same),
      )
