-- ===== src/Reentrancy/Defs.antt =====
-- The guard and the three objects that it holds. A stack is a list with its top first, where the
-- source has an array with its top last. The snapshots of StateProtection hold values of any type,
-- which nothing reads, and are left out.
use current_dao_contracts.Base.{
  ⊤, ℕ, ◌+◌, ◌-◌, ltb, eqb, length, ℤ, pos, ltb_ℤ, eqb_ℤ, String, concat, show_number, Bool, true,
  false, Option, none, some, List, [], ◌∷◌, ◌++◌, map, has, Call, pure, gets, throw_if, modify,
  zoom, ◌>>=◌, ◌>>◌, if◌then◌else◌,
}
use Prim.Native.Char.{code}

pub record GuardConfig : Type 0 where
  pub max_depth : ℤ
  pub detection_threshold : ℤ
  pub logging_enabled : Bool
  pub block_on_attack : Bool

-- CROSS_CONTRACT is never found.
pub data ReentrancyType : Type 0 where
  nothing same_function cross_function cross_contract : ReentrancyType

-- `ReentrancyType[type]`
abbrev pub type_name : ReentrancyType → String
type_name nothing = "NONE"
type_name same_function = "SAME_FUNCTION"
type_name cross_function = "CROSS_FUNCTION"
type_name cross_contract = "CROSS_CONTRACT"

abbrev pub is_found : ReentrancyType → Bool
is_found nothing = false
is_found _ = true

pub record ReentrancyEvent : Type 0 where
  pub kind : ReentrancyType
  pub timestamp : ℤ
  pub caller : String
  pub target : String
  pub depth : ℕ
  pub stack_trace : List String

-- `ReentrancyLib.generateCallHash`
unfoldable pub call_hash : String → String → String → String
call_hash caller target selector = concat (caller ∷ ":" ∷ target ∷ ":" ∷ selector ∷ [])

-- `call.split(":")[0]`
unfoldable pub before_colon : String → String
before_colon String.[] = ""
before_colon (String.◌∷◌ c s) =
    let rest = String.◌∷◌ c (before_colon s) in if eqb (code c) b':' then "" else rest

-- `ReentrancyLib.inspectStack`
unfoldable pub inspect_stack : List String → ReentrancyType
unfolding before_colon
inspect_stack [] = nothing
inspect_stack (current ∷ previous) =
    if has current previous
    then same_function
    else if has (before_colon current) (map before_colon previous)
    then cross_function
    else nothing

pub record Detector : Type 0 where
  pub config : GuardConfig
  pub call_stack : List String
  pub logs : List ReentrancyEvent

abbrev pub new_detector : GuardConfig → Detector
new_detector config = record { config = config; call_stack = []; logs = [] }

-- `ReentrancyDetector.handleDetection`
unfoldable pub handle_detection : ℤ → ReentrancyType → String → String → Call Detector ⊤
handle_detection now kind caller target = do
  modify λ d. record d {
    logs =
        if d.config.logging_enabled
        then d.logs
          ++ (record {
            kind = kind;
            timestamp = now;
            caller = caller;
            target = target;
            depth = length d.call_stack;
            stack_trace = d.call_stack;
          }
              ∷ [])
        else d.logs;
  }
  throw_if (← gets (λ d. d.config.block_on_attack))
      (concat ("REENTRANCY_ATTACK_PREVENTED: Detected type " ∷ type_name kind ∷ []))

-- `ReentrancyDetector.enterCall`
unfoldable pub enter_call : ℤ → String → String → String → Call Detector ReentrancyType
unfolding handle_detection
enter_call now caller target selector = do
  modify λ d. record d { call_stack = call_hash caller target selector ∷ d.call_stack }
  kind ← gets (λ d. inspect_stack d.call_stack)
  if is_found kind then handle_detection now kind caller target else pure tt
  limit ← gets (λ d. d.config.max_depth)
  throw_if (← gets (λ d. ltb_ℤ limit (pos (length d.call_stack))))
      (concat ("MAX_CALL_DEPTH_EXCEEDED: Depth limit is " ∷ show_number limit ∷ []))
  pure kind

abbrev pub pop : List String → List String
pop [] = []
pop (_ ∷ rest) = rest

-- `ReentrancyDetector.exitCall`
unfoldable pub exit_call : Detector → Detector
exit_call d = record d { call_stack = pop d.call_stack }

pub record Monitor : Type 0 where
  pub depth : ℕ
  pub stack_trace : List String

-- `CallStackMonitor.push`
unfoldable pub push_monitor : String → Monitor → Monitor
push_monitor call m = record { depth = m.depth + 1; stack_trace = call ∷ m.stack_trace }

-- `CallStackMonitor.pop`
unfoldable pub pop_monitor : Monitor → Monitor
pop_monitor m =
    if ltb 0 m.depth then record { depth = m.depth - 1; stack_trace = pop m.stack_trace } else m

pub record Guard : Type 0 where
  pub config : GuardConfig
  pub detector : Detector
  pub lock_count : ℕ  -- of `stateProtection`
  pub monitor : Monitor
  pub paused : Bool

-- `value || standard`, for a number that may be undefined.
abbrev or_standard : Option ℤ → ℤ → ℤ
or_standard none standard = standard
or_standard (some n) standard = if eqb_ℤ n (pos 0) then standard else n

abbrev or_true : Option Bool → Bool
or_true none = true
or_true (some b) = b

unfoldable pub new : Option ℤ → Option ℤ → Option Bool → Option Bool → Guard
new max_depth detection_threshold logging_enabled block_on_attack =
    let config : GuardConfig = record {
      max_depth = or_standard max_depth (pos 10);
      detection_threshold = or_standard detection_threshold (pos 1);
      logging_enabled = or_true logging_enabled;
      block_on_attack = or_true block_on_attack;
    } in
    record {
      config = config;
      detector = new_detector config;
      lock_count = 0;
      monitor = record { depth = 0; stack_trace = [] };
      paused = false;
    }

-- `StateProtection.unlock`
unfoldable pub unlock : ℕ → ℕ
unlock n = if ltb 0 n then n - 1 else n

-- `locked`, by `StateProtection.isProtected`
unfoldable pub locked : Guard → Bool
locked g = ltb 0 g.lock_count

-- The `finally` block of `protect`.
unfoldable pub leave : Guard → Guard
unfolding unlock exit_call pop_monitor
leave g = record g {
  lock_count = unlock g.lock_count;
  detector = exit_call g.detector;
  monitor = pop_monitor g.monitor;
}

-- `try { return body() } finally { … }`
abbrev pub try_finally : {A : Type 0} → Call Guard A → Call Guard A
try_finally body g = let (r, g') = body g in (r, leave g')

-- The body runs to its end before any other call, whether it returns or throws.
unfoldable pub protect : {A : Type 0} → ℤ → Call Guard A → String → String → String → Call Guard A
unfolding push_monitor enter_call leave
protect now body caller target selector = do
  throw_if (← gets (λ g. g.paused)) "REENTRANCY_GUARD_PAUSED: Emergency control active"
  modify λ g. record g { monitor = push_monitor (call_hash caller target selector) g.monitor }
  zoom (λ (g : Guard). g.detector) (λ d g. record g { detector = d })
      (enter_call now caller target selector)
  modify λ g. record g { lock_count = g.lock_count + 1 }
  try_finally body

unfoldable pub non_reentrant : Call Guard ⊤
unfolding locked
non_reentrant = do throw_if (← gets locked) "REENTRANCY_ATTEMPT_DETECTED"

abbrev pub reset_monitor : Monitor
reset_monitor = record { depth = 0; stack_trace = [] }

-- The detector's stack stays as it is.
abbrev pub clear_logs : Detector → Detector
clear_logs d = record d { logs = [] }

unfoldable pub reset_guard : Guard → Guard
unfolding unlock
reset_guard g = record g {
  lock_count = unlock g.lock_count;
  monitor = reset_monitor;
  detector = clear_logs g.detector;
}

unfoldable pub configure : GuardConfig → Guard → Guard
configure config g = record g { config = config; detector = new_detector config }

unfoldable pub emergency_pause : Guard → Guard
emergency_pause g = record g { paused = true }

unfoldable pub emergency_unpause : Guard → Guard
emergency_unpause g = record g { paused = false }
