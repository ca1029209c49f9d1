-- ===== src/Reentrancy/Nesting.antt =====
-- Nested protected calls: what `protect` does to the lock and to the two stacks.
use current_dao_contracts.Base.{
  Outcome-cases, ⊤, ap, ℕ, ◌+◌, length, ℤ, pos, ltb_ℤ, ◌≡◌, refl, sym, ◌∙◌, ◌⊎◌, inl, inr, String,
  Bool, true, false, ◌∷◌, arith, ok, throws, Call, pure, throw, ◌>>◌, ◌&&◌, Bool-cases,
}
use current_dao_contracts.Reentrancy.Defs.{
  Guard, Monitor, Detector, call_hash, handle_detection, enter_call, ReentrancyType, exit_call,
  push_monitor, pop_monitor, unlock, leave, try_finally, protect,
}

-- `enter_call` pushes one entry, whatever it then decides.
pub enter_pushes :
    (now : ℤ) (caller target selector : String) (d : Detector)
    → let d' = (enter_call now caller target selector d).1 in
      (d'.call_stack ≡ call_hash caller target selector ∷ d.call_stack) × (d'.config ≡ d.config)
unfolding enter_call handle_detection
enter_pushes now caller target selector d = ground arith

-- The guard as the body of a protected call finds it.
unfoldable pub entered : ℤ → String → String → String → Guard → Guard
entered now caller target selector g = record g {
  monitor = push_monitor (call_hash caller target selector) g.monitor;
  detector = (enter_call now caller target selector g.detector).1;
  lock_count = g.lock_count + 1;
}

-- The guard after a call that the detector refused.
unfoldable pub refused : ℤ → String → String → String → Guard → Guard
refused now caller target selector g = record g {
  monitor = push_monitor (call_hash caller target selector) g.monitor;
  detector = (enter_call now caller target selector g.detector).1;
}

-- A call that the detector lets in is within the depth limit.
enter_depth :
    (now : ℤ) (caller target selector : String) (kind : ReentrancyType) (d : Detector)
    → (enter_call now caller target selector d).0 ≡ ok kind
    → ltb_ℤ d.config.max_depth (pos (1 + length d.call_stack)) ≡ false
unfolding enter_call handle_detection
enter_depth now caller target selector kind d = ground arith

-- The three ways a protected call goes: the guard is paused, the detector refuses, or the body runs.
pub protect_cases :
    {A : Type 0}
    → (now : ℤ) (body : Call Guard A) (caller target selector : String) (g : Guard)
    → ((g.paused ≡ true)
        × (protect now body caller target selector g
            ≡ (throws "REENTRANCY_GUARD_PAUSED: Emergency control active", g)))
      ⊎ ((g.paused ≡ false)
          × ((e : String) × ((enter_call now caller target selector g.detector).0 ≡ throws e)
              × (protect now body caller target selector g
                  ≡ (throws e, refused now caller target selector g))))
      ⊎ ((g.paused ≡ false)
          × (ltb_ℤ g.detector.config.max_depth (pos (1 + length g.detector.call_stack)) ≡ false)
          × (protect now body caller target selector g
              ≡ try_finally body (entered now caller target selector g)))
unfolding protect entered refused
protect_cases now body caller target selector g = elim (Bool-cases g.paused) [
  | inl p ↦ inl (p, ground arith)
  | inr p ↦
      let d = (enter_call now caller target selector g.detector) in
      elim (Outcome-cases d.0) [
        | inl (kind, e) ↦
            inr (inr (p, enter_depth now caller target selector kind g.detector e, ground arith))
        | inr (message, e) ↦ inr (inl (p, (message, e, ground arith)))
      ]
]

-- What a body does: it returns, throws, makes a protected call with a body of its own and goes on, or
-- makes calls whose error it catches and goes on.
pub data Body : Type 0 where
  returns : Body
  fails : String → Body
  enters : ℤ → String → String → String → Body → Body → Body
  catches : Body → Body → Body

-- Runs a body on the guard.
unfoldable pub run : Body → Call Guard ⊤
unfolding protect
run returns = pure tt
run (fails e) = throw e
run (enters now caller target selector inner rest) =
    protect now (run inner) caller target selector >> run rest
run (catches inner rest) = λ g. run rest (run inner g).1

unlock_suc : (n : ℕ) → unlock (n + 1) ≡ n
unfolding unlock
unlock_suc n = ground arith

then_lock :
    (m k : Call Guard ⊤) (g : Guard)
    → (m g).1.lock_count ≡ g.lock_count
    → ((h : Guard) → (k h).1.lock_count ≡ h.lock_count)
    → ((m >> k) g).1.lock_count ≡ g.lock_count
then_lock m k g first next = elim (Outcome-cases (m g).0) [
  | inl (_, returned) ↦ let s = next (m g).1 in ground arith
  | inr (_, threw) ↦ ground arith
]

protect-keeps_lock :
    (now : ℤ) (body : Call Guard ⊤) (caller target selector : String) (g : Guard)
    → ((h : Guard) → (body h).1.lock_count ≡ h.lock_count)
    → (protect now body caller target selector g).1.lock_count ≡ g.lock_count
unfolding leave entered refused
protect-keeps_lock now body caller target selector g keeps =
    let inside = keeps (entered now caller target selector g) in
    elim (protect_cases now body caller target selector g) [
      | inl (_, out) ↦ ap (λ r. r.1.lock_count) out
      | inr (inl (_, (_, _, out))) ↦ ap (λ r. r.1.lock_count) out
      | inr (inr (_, _, out)) ↦ ap (λ r. r.1.lock_count) out ∙ rw inside (unlock_suc g.lock_count)
    ]

-- Protected calls leave the lock as they find it, however they nest and whatever throws or is caught.
pub locks_balanced : (body : Body) (g : Guard) → (run body g).1.lock_count ≡ g.lock_count
unfolding run
locks_balanced returns g = refl
locks_balanced (fails e) g = refl
locks_balanced (enters now caller target selector inner rest) g =
    then_lock (protect now (run inner) caller target selector) (run rest) g
      (protect-keeps_lock now (run inner) caller target selector g (locks_balanced inner))
      (locks_balanced rest)
locks_balanced (catches inner rest) g = locks_balanced rest (run inner g).1 ∙ locks_balanced inner g

-- Whether a body lets every error through.
unfoldable pub catches_nothing : Body → Bool
catches_nothing (enters now caller target selector inner rest) =
    catches_nothing inner && catches_nothing rest
catches_nothing (catches inner rest) = false
catches_nothing _ = true

-- The guard has the same entries on its stacks.
abbrev pub SameStacks : Guard → Guard → Type 0
SameStacks g h = (g.monitor ≡ h.monitor) × (g.detector.call_stack ≡ h.detector.call_stack)

pop-push : (call : String) (m : Monitor) → pop_monitor (push_monitor call m) ≡ m
unfolding pop_monitor push_monitor
pop-push call m = ground arith

leave-SameStacks :
    (now : ℤ) (caller target selector : String) (g h : Guard)
    → SameStacks h (entered now caller target selector g)
    → SameStacks (leave h) g
unfolding leave exit_call entered
leave-SameStacks now caller target selector g h (m, s) =
    let pushed = (enter_pushes now caller target selector g.detector).0 in
    (rw m (pop-push (call_hash caller target selector) g.monitor), rw (s ∙ pushed) refl)

protect-SameStacks :
    (now : ℤ) (body : Call Guard ⊤) (caller target selector : String) (g : Guard)
    → ((h : Guard) → (body h).0 ≡ ok tt → SameStacks (body h).1 h)
    → (protect now body caller target selector g).0 ≡ ok tt
    → SameStacks (protect now body caller target selector g).1 g
protect-SameStacks now body caller target selector g keeps returned =
    let g' = entered now caller target selector g in
    elim (protect_cases now body caller target selector g) [
      | inl (_, out) ↦ ground (arith, out, returned)
      | inr (inl (_, (_, _, out))) ↦ ground (arith, out, returned)
      | inr (inr (_, _, out)) ↦ rw out (
          leave-SameStacks now caller target selector g (body g').1
            (keeps g' (sym (ap (λ r. r.0) out) ∙ returned)))
    ]

then_returned :
    (m k : Call Guard ⊤) (g : Guard)
    → ((m >> k) g).0 ≡ ok tt
    → ((m g).0 ≡ ok tt) × ((k (m g).1).0 ≡ ok tt) × ((m >> k) g ≡ k (m g).1)
then_returned m k g returned = elim (Outcome-cases (m g).0) [
  | inl (tt, e) ↦ ground arith
  | inr (_, threw) ↦ ground arith
]

-- When a body that catches nothing returns, its protected calls have left both stacks as they found
-- them.
pub stacks_restored :
    (body : Body) (g : Guard)
    → catches_nothing body ≡ true
    → (run body g).0 ≡ ok tt
    → SameStacks (run body g).1 g
unfolding run catches_nothing
stacks_restored returns g _ _ = (refl, refl)
stacks_restored (fails e) g _ r = ground arith
stacks_restored (enters now caller target selector inner rest) g strict r =
    let both : (catches_nothing inner ≡ true) × (catches_nothing rest ≡ true) = ground arith in
    let call = protect now (run inner) caller target selector in
    let (first, second, whole) = then_returned call (run rest) g r in
    let (m, s) =
      protect-SameStacks now (run inner) caller target selector g
        (λ h. stacks_restored inner h both.0) first in
    let (m', s') = stacks_restored rest (call g).1 both.1 second in rw whole (m' ∙ m, s' ∙ s)
stacks_restored (catches inner rest) g strict _ = ground arith
