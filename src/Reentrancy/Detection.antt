-- ===== src/Reentrancy/Detection.antt =====
-- Which calls the detector refuses, and what a refused call leaves behind.
use current_dao_contracts.Base.{
  ℤ, ◌≡◌, refl, ap, String, str_eq_refl, true, false, [], ◌∷◌, arith, throws, Call, concat,
}
use mathlib.Core.Path.{subst}
use current_dao_contracts.Reentrancy.Defs.{
  Guard, Detector, ReentrancyType, same_function, type_name, call_hash, inspect_stack, is_found,
  handle_detection, enter_call, protect, reset_guard,
}
use current_dao_contracts.Reentrancy.Nesting.{refused, enter_pushes}

-- The message of a refusal.
abbrev pub attack_of : ReentrancyType → String
attack_of kind = concat ("REENTRANCY_ATTACK_PREVENTED: Detected type " ∷ type_name kind ∷ [])

enter_detected :
    (now : ℤ) (caller target selector : String) (kind : ReentrancyType) (d : Detector)
    → d.config.block_on_attack ≡ true
    → inspect_stack (call_hash caller target selector ∷ d.call_stack) ≡ kind
    → is_found kind ≡ true
    → (enter_call now caller target selector d).0 ≡ throws (attack_of kind)
unfolding enter_call handle_detection
enter_detected now caller target selector kind d blocking seen found =
    subst
      (λ k. is_found k ≡ true → (enter_call now caller target selector d).0 ≡ throws (attack_of k))
      seen (λ f. rw (f, blocking) refl) found

protect-refused :
    {A : Type 0}
    → (now : ℤ) (body : Call Guard A) (caller target selector : String) (e : String) (g : Guard)
    → g.paused ≡ false
    → (enter_call now caller target selector g.detector).0 ≡ throws e
    → protect now body caller target selector g ≡ (throws e, refused now caller target selector g)
unfolding protect refused
protect-refused now body caller target selector e g running threw = ground arith

-- A call of a running, blocking guard in which the stack inspection finds a reentrancy throws its kind,
-- whatever its body: the body does not run and the lock is as before.
pub detected_call_refused :
    {A : Type 0}
    → (now : ℤ) (body : Call Guard A) (caller target selector : String) (kind : ReentrancyType)
      (g : Guard)
    → g.paused ≡ false
    → g.detector.config.block_on_attack ≡ true
    → inspect_stack (call_hash caller target selector ∷ g.detector.call_stack) ≡ kind
    → is_found kind ≡ true
    → ((protect now body caller target selector g).0 ≡ throws (attack_of kind))
      × ((protect now body caller target selector g).1.lock_count ≡ g.lock_count)
unfolding refused
detected_call_refused now body caller target selector kind g running blocking seen found =
    let out =
      protect-refused now body caller target selector (attack_of kind) g running
        (enter_detected now caller target selector kind g.detector blocking seen found) in
    (ap (λ r. r.0) out, ap (λ r. r.1.lock_count) out)

-- Once the detector of a running, blocking guard has refused a call, for whatever reason, it refuses
-- the same call again as a reentrancy, also when nothing else is active and after `resetGuard`.
pub refusal_sticks :
    {A : Type 0}
    → (now later : ℤ) (body again : Call Guard A) (caller target selector e : String) (g : Guard)
    → g.paused ≡ false
    → g.detector.config.block_on_attack ≡ true
    → (enter_call now caller target selector g.detector).0 ≡ throws e
    → (protect later again caller target selector
        (reset_guard (protect now body caller target selector g).1)).0
      ≡ throws "REENTRANCY_ATTACK_PREVENTED: Detected type SAME_FUNCTION"
unfolding refused reset_guard inspect_stack
refusal_sticks now later body again caller target selector e g running blocking threw =
    let call = call_hash caller target selector in
    let (pushed, kept) = enter_pushes now caller target selector g.detector in
    let out = protect-refused now body caller target selector e g running threw in
    let h = reset_guard (refused now caller target selector g) in
    let seen : inspect_stack (call ∷ h.detector.call_stack) ≡ same_function =
      rw pushed (rw (str_eq_refl call) refl) in
    rw out
      (detected_call_refused later again caller target selector same_function h running
        (rw kept blocking) seen refl).0
