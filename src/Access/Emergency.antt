-- ===== src/Access/Emergency.antt =====
-- AccessControlList: the roles of a subject and the emergency actions.
use current_dao_contracts.Base.{
  ℕ, ⊤, ℤ, String, ◌==◌, Bool, true, false, not, ◌||◌, Option, none, some, [], ◌∷◌, ◌++◌, filter,
  is_some, has, Call, gets, throw_if, modify, zoom, ◌>>=◌, ◌>>◌, if◌then◌else◌,
}
use current_dao_contracts.Acl.{seconds, normalize_id}
use current_dao_contracts.Roles.{
  RoleManager, RoleAssignment, get_assigned_roles, get_effective_role_ids, merge_permissions,
}
use current_dao_contracts.Roles
use current_dao_contracts.Access.Defs.{
  EmergencyState, AccessControlList, role_assigned, role_revoked, emergency_action_executed,
  log_audit, or_subject, build_permission_key,
}

unfoldable pub assign_role :
    ℕ → String → String → String → Option String → Option ℤ → Call AccessControlList ⊤
assign_role now subject role_id actor reason expires_at = do
  assignment ←
      zoom (λ s. s.role_manager) (λ m s. record s { role_manager = m })
        (Roles.assign_role now subject role_id actor reason expires_at)
  log_audit (record {
    action = role_assigned;
    actor = actor;
    success = true;
    reason = or_subject reason "Role assigned";
    timestamp = seconds now;
    subject = some subject;
    contract_id = none;
    function_name = none;
    target_id = some assignment.role_id;
  })

unfoldable pub revoke_role : ℕ → String → String → String → Option String → Call AccessControlList ⊤
revoke_role now subject role_id actor reason = do
  revoked ←
      zoom (λ s. s.role_manager) (λ m s. record s { role_manager = m })
        (Roles.revoke_role subject role_id)
  log_audit (record {
    action = role_revoked;
    actor = actor;
    success = is_some revoked;
    reason =
        or_subject reason (if is_some revoked then "Role revoked" else "Role assignment not found");
    timestamp = seconds now;
    subject = some subject;
    contract_id = none;
    function_name = none;
    target_id = some (normalize_id role_id);
  })

pub data EmergencyActionType : Type 0 where
  enable_global_lockdown disable_global_lockdown lock_function unlock_function : EmergencyActionType
  emergency_grant_role emergency_revoke_role : EmergencyActionType

-- An empty text and a missing one are the same to every test of the source.
pub record EmergencyActionPayload : Type 0 where
  pub action : EmergencyActionType
  pub subject : String
  pub role_id : String
  pub contract_id : String
  pub function_name : String
  pub reason : String

abbrev pub is_emergency_authorized : ℕ → String → AccessControlList → Bool
is_emergency_authorized now actor s =
    has actor s.emergency_council
    || has "SECURITY_ADMIN" (get_effective_role_ids now actor s.role_manager)

-- A lockdown, on or off.
abbrev pub set_lockdown : Bool → ℕ → EmergencyActionPayload → String → Call AccessControlList ⊤
set_lockdown on now payload actor = modify λ s. record s {
  emergency_state = record (s.emergency_state) {
    active = on;
    activated_by = some actor;
    activated_at = some (seconds now);
    reason = some payload.reason;
  };
}

-- `if (!functionKey) throw`
abbrev pub require_function : EmergencyActionPayload → Call AccessControlList ⊤
require_function payload =
    throw_if (payload.contract_id == "" || payload.function_name == "")
      "FUNCTION_IDENTIFIER_REQUIRED"

abbrev pub require_role : EmergencyActionPayload → Call AccessControlList ⊤
require_role payload =
    throw_if (payload.subject == "" || payload.role_id == "") "ROLE_AND_SUBJECT_REQUIRED"

abbrev pub key_of : EmergencyActionPayload → String
key_of payload = build_permission_key payload.contract_id payload.function_name

-- The `switch` of `executeEmergencyAction`.
unfoldable pub act :
    EmergencyActionType → ℕ → EmergencyActionPayload → String → Call AccessControlList ⊤
act enable_global_lockdown now payload actor = set_lockdown true now payload actor
act disable_global_lockdown now payload actor = set_lockdown false now payload actor
act lock_function now payload actor = do
  require_function payload
  modify λ s. record s {
    emergency_state = record (s.emergency_state) {
      locked_functions =
          if has (key_of payload) s.emergency_state.locked_functions
          then s.emergency_state.locked_functions
          else s.emergency_state.locked_functions ++ (key_of payload ∷ []);
    };
  }
act unlock_function now payload actor = do
  require_function payload
  modify λ s. record s {
    emergency_state = record (s.emergency_state) {
      locked_functions = filter (λ f. not (f == key_of payload)) s.emergency_state.locked_functions;
    };
  }
act emergency_grant_role now payload actor = do
  require_role payload
  assign_role now payload.subject payload.role_id actor (some payload.reason) none
act emergency_revoke_role now payload actor = do
  require_role payload
  revoke_role now payload.subject payload.role_id actor (some payload.reason)

unfoldable pub execute_emergency_action :
    ℕ → EmergencyActionPayload → String → Call AccessControlList EmergencyState
execute_emergency_action now payload actor = do
  throw_if (← gets (λ s. not (is_emergency_authorized now actor s))) "ACCESS_DENIED"
  act payload.action now payload actor
  log_audit (record {
    action = emergency_action_executed;
    actor = actor;
    success = true;
    reason = payload.reason;
    timestamp = seconds now;
    subject = if payload.subject == "" then none else some payload.subject;
    contract_id = none;
    function_name = none;
    target_id =
        if not (payload.role_id == "")
        then some payload.role_id
        else if payload.contract_id == "" || payload.function_name == ""
        then none
        else some (key_of payload);
  })
  gets (λ s. s.emergency_state)
