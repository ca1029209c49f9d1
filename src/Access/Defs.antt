-- ===== src/Access/Defs.antt =====
-- AccessControlList: the decision on an access. The
-- clock is in milliseconds. The random identifier and the metadata of an audit entry, which nothing
-- reads, are left out, as are the handlers of events, which are taken to return.
use current_dao_contracts.Base.{
  ℕ, ⊤, ◌+◌, ltb, length, ℤ, pos, String, ◌==◌, concat, show_number, Bool, true, false, not, ◌||◌,
  Option, none, some, List, [], ◌∷◌, ◌++◌, filter, any, map, has, add_all, Call, pure, gets,
  throw_if, modify, ◌>>=◌, ◌>>◌, if◌then◌else◌,
}
use current_dao_contracts.Acl.{seconds}
use current_dao_contracts.Roles.{
  RoleManager, RoleAssignment, get_assigned_roles, get_effective_role_ids, merge_permissions,
}
use current_dao_contracts.Permissions.{
  AccessEffect, allow, deny, PermissionManager, PermissionDefinition, DirectPermissionGrant,
  get_direct_grants, get_permission, permission_matches, match_permissions,
  estimate_access_check_gas,
}

pub data AuditAction : Type 0 where
  access_check role_assigned role_revoked emergency_action_executed : AuditAction

pub record AuditLogEntry : Type 0 where
  pub action : AuditAction
  pub actor : String
  pub success : Bool
  pub reason : String
  pub timestamp : ℤ
  pub subject : Option String
  pub contract_id : Option String
  pub function_name : Option String
  pub target_id : Option String

pub record EmergencyState : Type 0 where
  pub active : Bool
  pub activated_by : Option String
  pub reason : Option String
  pub activated_at : Option ℤ
  pub locked_functions : List String

pub record AccessMeasurement : Type 0 where
  pub gas_estimate : ℕ
  pub timestamp : ℤ

pub record AccessRequest : Type 0 where
  pub subject : String
  pub contract_id : String
  pub function_name : String
  pub actor : Option String

pub record AccessDecision : Type 0 where
  pub allowed : Bool
  pub reason : String
  pub matched_permissions : List String
  pub inherited_via_roles : List String
  pub gas_estimate : ℕ

pub record AccessControlList : Type 0 where
  pub role_manager : RoleManager
  pub permission_manager : PermissionManager
  pub max_access_check_gas : ℕ
  pub emergency_council : List String
  pub emergency_state : EmergencyState
  pub audit_trail : List AuditLogEntry
  pub access_measurements : List AccessMeasurement

-- `ACLLib.buildPermissionKey`
abbrev pub build_permission_key : String → String → String
build_permission_key contract_id function_name = concat (contract_id ∷ "::" ∷ function_name ∷ [])

-- `directMatches`, by their grants.
unfoldable pub direct_matches :
    List DirectPermissionGrant → AccessRequest → PermissionManager → List DirectPermissionGrant
direct_matches [] q m = []
direct_matches (g ∷ grants) q m =
    let rest = direct_matches grants q m in
    elim (get_permission g.permission_id m) [
      | none ↦ rest
      | some p ↦ if permission_matches p q.contract_id q.function_name then g ∷ rest else rest
    ]

abbrev pub is_deny : AccessEffect → Bool
is_deny effect = elim effect [ deny ↦ true | allow ↦ false ]

-- `some(({ grant }) => grant.effect === DENY)`, and of ALLOW.
abbrev pub any_grant_denies : List DirectPermissionGrant → Bool
any_grant_denies grants = any (λ (g : DirectPermissionGrant). is_deny g.effect) grants

abbrev pub any_grant_allows : List DirectPermissionGrant → Bool
any_grant_allows grants = any (λ (g : DirectPermissionGrant). not (is_deny g.effect)) grants

abbrev pub any_role_denies : List PermissionDefinition → Bool
any_role_denies permissions = any (λ (p : PermissionDefinition). is_deny p.effect) permissions

abbrev pub any_role_allows : List PermissionDefinition → Bool
any_role_allows permissions = any (λ (p : PermissionDefinition). not (is_deny p.effect)) permissions

-- The matches of the permissions that the roles of the subject give.
abbrev pub role_matches : ℕ → AccessRequest → AccessControlList → List PermissionDefinition
role_matches now q s =
    match_permissions
      (merge_permissions (get_effective_role_ids now q.subject s.role_manager) s.role_manager.roles
        [])
      q.contract_id q.function_name s.permission_manager

abbrev pub grant_matches : ℕ → AccessRequest → AccessControlList → List DirectPermissionGrant
grant_matches now q s =
    direct_matches (get_direct_grants now q.subject s.permission_manager) q s.permission_manager

abbrev pub is_locked : AccessRequest → AccessControlList → Bool
is_locked q s =
    has (build_permission_key q.contract_id q.function_name) s.emergency_state.locked_functions
    || has (build_permission_key q.contract_id "*") s.emergency_state.locked_functions

abbrev pub is_assigned : String → List RoleAssignment → Bool
is_assigned role_id [] = false
is_assigned role_id (a ∷ assignments) = a.role_id == role_id || is_assigned role_id assignments

-- `inheritedRoleIds`
abbrev pub inherited_role_ids : ℕ → String → RoleManager → List String
inherited_role_ids now subject m =
    filter (λ role_id. not (is_assigned role_id (get_assigned_roles now subject m)))
      (get_effective_role_ids now subject m)

unfoldable pub gas_of : ℕ → AccessRequest → AccessControlList → ℕ
gas_of now q s =
    estimate_access_check_gas (length (get_assigned_roles now q.subject s.role_manager))
      (length (inherited_role_ids now q.subject s.role_manager))
      (length (get_direct_grants now q.subject s.permission_manager))
      (s.emergency_state.active || is_locked q s)
      (length (role_matches now q s) + length (grant_matches now q s))

unfoldable pub build_denied_decision : String → ℕ → AccessDecision
build_denied_decision reason gas = record {
  allowed = false;
  reason = reason;
  matched_permissions = [];
  inherited_via_roles = [];
  gas_estimate = gas;
}

unfoldable pub build_decision : Bool → String → List String → List String → ℕ → AccessDecision
build_decision allowed reason matched inherited gas = record {
  allowed = allowed;
  reason = reason;
  matched_permissions = add_all matched [];
  inherited_via_roles = add_all inherited [];
  gas_estimate = gas;
}

-- The conditional of `hasAccess`.
unfoldable pub decide : ℕ → AccessRequest → AccessControlList → AccessDecision
unfolding build_denied_decision build_decision
decide now q s =
    let gas = gas_of now q s in
    let grants = grant_matches now q s in
    let permissions = role_matches now q s in
    if s.emergency_state.active
    then build_denied_decision "EMERGENCY_LOCKDOWN" gas
    else if is_locked q s
    then build_denied_decision "FUNCTION_LOCKED" gas
    else if any_grant_denies grants
    then build_denied_decision "ACCESS_DENIED" gas
    else if any_role_denies permissions
    then build_denied_decision "ACCESS_DENIED" gas
    else if any_grant_allows grants || any_role_allows permissions
    then build_decision true "ACCESS_GRANTED"
        (map (λ (p : PermissionDefinition). p.id) permissions
          ++ map (λ (g : DirectPermissionGrant). g.permission_id) grants)
        (inherited_role_ids now q.subject s.role_manager) gas
    else build_denied_decision "ACCESS_DENIED" gas

abbrev pub log_audit : AuditLogEntry → Call AccessControlList ⊤
log_audit entry = modify λ s. record s { audit_trail = s.audit_trail ++ (entry ∷ []) }

-- `request.actor || request.subject`
abbrev pub or_subject : Option String → String → String
or_subject none subject = subject
or_subject (some actor) subject = if actor == "" then subject else actor

unfoldable pub has_access : ℕ → AccessRequest → Call AccessControlList AccessDecision
unfolding decide
has_access now q = do
  decision ← gets (λ s. decide now q s)
  throw_if (← gets (λ s. ltb s.max_access_check_gas (gas_of now q s)))
      (concat ("GAS_TARGET_EXCEEDED:" ∷ show_number (pos decision.gas_estimate) ∷ []))
  modify λ s. record s {
    access_measurements =
        s.access_measurements
        ++ (record { gas_estimate = decision.gas_estimate; timestamp = seconds now } ∷ []);
  }
  log_audit (record {
    action = access_check;
    actor = or_subject q.actor q.subject;
    success = decision.allowed;
    reason = decision.reason;
    timestamp = seconds now;
    subject = some q.subject;
    contract_id = some q.contract_id;
    function_name = some q.function_name;
    target_id = some (build_permission_key q.contract_id q.function_name);
  })
  pure decision
