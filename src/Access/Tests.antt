-- ===== src/Access/Tests.antt =====
-- A role that inherits from the root role, and the theorems at it.
use current_dao_contracts.Base.{
  pos, String, true, false, none, some, ◌⊎◌, List, [], ◌∷◌, ◌≡◌, ◌↔◌, refl, ok, has, add_all,
}
use current_dao_contracts.Acl.{normalize_id, seconds}
use current_dao_contracts.Roles.{
  get_assigned_roles, collect_role_lineage, RoleDefinition, RoleAssignment, get_effective_role_ids,
  merge_permissions,
}
use current_dao_contracts.Permissions.{
  estimate_access_check_gas, get_direct_grants, match_permissions, allow, deny,
  PermissionDefinition, medium,
}
use current_dao_contracts.Access.Defs.{
  AccessControlList, AccessRequest, AccessDecision, EmergencyState, has_access, direct_matches,
  gas_of, access_check,
}
use current_dao_contracts.Access.Emergency.{
  EmergencyActionPayload, lock_function, execute_emergency_action, act, is_emergency_authorized,
}
use current_dao_contracts.Access.Decisions.{access_exactly, lock_blocks}
use current_dao_contracts.Access.Rights.{GrantSays, RoleSays}

abbrev role : String → List String → List String → RoleDefinition
role id parents permissions = record {
  id = id;
  label = id;
  description = "";
  parent_role_ids = parents;
  permission_ids = permissions;
  is_system_role = true;
  governance_managed = false;
  metadata = [];
  created_by = "SYSTEM";
  created_at = pos 0;
  updated_at = pos 0;
}

abbrev everything : PermissionDefinition
everything = record {
  id = "EXECUTE_*_*";
  contract_id = "*";
  function_name = "*";
  description = "";
  effect = allow;
  is_wildcard = true;
  risk_level = medium;
  gas_estimate = 0;
  created_by = "SYSTEM";
  created_at = pos 0;
}

abbrev assignment : RoleAssignment
assignment = record {
  subject = "eve";
  role_id = "FEE_OPERATOR";
  assigned_by = "root";
  assigned_at = pos 0;
  expires_at = none;
  reason = none;
}

-- A fee operator inherits from the fee manager, and so on up to the root role.
abbrev s : AccessControlList
s = record {
  role_manager = record {
    roles =
        ("SUPER_ADMIN", role "SUPER_ADMIN" [] ("EXECUTE_*_*" ∷ []))
        ∷ ("DAO_EXECUTIVE", role "DAO_EXECUTIVE" ("SUPER_ADMIN" ∷ []) [])
        ∷ ("FEE_MANAGER", role "FEE_MANAGER" ("DAO_EXECUTIVE" ∷ []) [])
        ∷ ("FEE_OPERATOR", role "FEE_OPERATOR" ("FEE_MANAGER" ∷ []) [])
        ∷ [];
    assignments = ("eve", ("FEE_OPERATOR", assignment) ∷ []) ∷ [];
  };
  permission_manager = record {
    permissions = ("EXECUTE_*_*", everything) ∷ [];
    direct_grants = [];
  };
  max_access_check_gas = 50000;
  emergency_council = "root" ∷ [];
  emergency_state = record {
    active = false;
    activated_by = none;
    reason = none;
    activated_at = none;
    locked_functions = [];
  };
  audit_trail = [];
  access_measurements = [];
}

abbrev q : AccessRequest
q = record { subject = "eve"; contract_id = "TREASURY"; function_name = "withdraw"; actor = none }

abbrev d : AccessDecision
d = record {
  allowed = true;
  reason = "ACCESS_GRANTED";
  matched_permissions = "EXECUTE_*_*" ∷ [];
  inherited_via_roles = "FEE_MANAGER" ∷ "DAO_EXECUTIVE" ∷ "SUPER_ADMIN" ∷ [];
  gas_estimate = 14385;
}

granted : (has_access 5 q s).0 ≡ ok d
unfolding has_access gas_of estimate_access_check_gas get_assigned_roles get_effective_role_ids
    add_all collect_role_lineage normalize_id get_direct_grants match_permissions merge_permissions
    direct_matches
granted = refl

access_exactly_example :
    ((true ≡ true) ↔ (
      (false ≡ false)
      × (has "TREASURY::withdraw" [] ≡ false)
      × (has "TREASURY::*" [] ≡ false)
      × (¬ GrantSays deny 5 q s)
      × (¬ RoleSays deny 5 q s)
      × (GrantSays allow 5 q s ⊎ RoleSays allow 5 q s)))
    × ((has_access 5 q s).1 ≡ record s {
      access_measurements = record { gas_estimate = 14385; timestamp = pos 0 } ∷ [];
      audit_trail =
          record {
            action = access_check;
            actor = "eve";
            success = true;
            reason = "ACCESS_GRANTED";
            timestamp = pos 0;
            subject = some "eve";
            contract_id = some "TREASURY";
            function_name = some "withdraw";
            target_id = some "TREASURY::withdraw";
          }
          ∷ [];
    })
unfolding seconds
access_exactly_example = access_exactly 5 q s d granted

abbrev payload : EmergencyActionPayload
payload = record {
  action = lock_function;
  subject = "";
  role_id = "";
  contract_id = "TREASURY";
  function_name = "withdraw";
  reason = "incident";
}

abbrev locked : EmergencyState
locked = record (s.emergency_state) { locked_functions = "TREASURY::withdraw" ∷ [] }

locks : (execute_emergency_action 6 payload "root" s).0 ≡ ok locked
unfolding execute_emergency_action act
locks = refl

lock_blocks_example :
    let s' = (execute_emergency_action 6 payload "root" s).1 in
    (is_emergency_authorized 6 "root" s ≡ true) × ((has_access 7 q s').0 ≡ ok d → d.allowed ≡ false)
lock_blocks_example = lock_blocks 6 7 payload "root" s locked q d refl refl refl locks
