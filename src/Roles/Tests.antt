-- ===== src/Roles/Tests.antt =====
-- Two roles that inherit from each other, and the theorems at them.
use current_dao_contracts.Base.{
  ◌+◌, ◌≤◌, pos, ◌≡◌, ◌≢◌, has, refl, ◌∙◌, ◌==◌, eq_iff, true, false, none, some, [], ◌∷◌, Dict,
  get, add, add_all, ok, throws,
}
use current_dao_contracts.Acl.{normalize_id}
use current_dao_contracts.Roles.Defs.{
  RoleDefinition, RoleManager, UpdateRolePayload, lineage, collect_parents, collect_role_lineage,
  update_role, assign_role, revoke_role, assignments_of, merge_permissions,
}
use current_dao_contracts.Roles.Lineage.{fuel_enough, count, lineage_once, cycle_never_refused}
use current_dao_contracts.Roles.Assignments.{assignment_of, revoke_removes, revocation_leaves_role}

abbrev auditor : RoleDefinition
auditor = record {
  id = "AUDITOR";
  label = "Auditor";
  description = "reads";
  parent_role_ids = "OBSERVER" ∷ [];
  permission_ids = [];
  is_system_role = false;
  governance_managed = true;
  metadata = [];
  created_by = "root";
  created_at = pos 1;
  updated_at = pos 1;
}

abbrev observer : RoleDefinition
observer = record auditor { id = "OBSERVER"; parent_role_ids = "AUDITOR" ∷ [] }

abbrev roles : Dict RoleDefinition
roles = ("AUDITOR", auditor) ∷ ("OBSERVER", observer) ∷ []

abbrev m0 : RoleManager
m0 = record {
  roles = ("AUDITOR", auditor) ∷ ("OBSERVER", record observer { parent_role_ids = [] }) ∷ [];
  assignments = [];
}

both : collect_role_lineage "auditor" roles ≡ "AUDITOR" ∷ "OBSERVER" ∷ []
unfolding collect_role_lineage lineage collect_parents normalize_id add add_all
both = refl

fuel_enough_example : (lineage (7 + 3) roles "auditor" []).0 ≡ collect_role_lineage "auditor" roles
fuel_enough_example = fuel_enough 7 "auditor" roles

lineage_once_test : count "AUDITOR" (collect_role_lineage "auditor" roles) ≤ 1
lineage_once_test = lineage_once "AUDITOR" "auditor" roles

-- Closes the cycle.
abbrev closing : UpdateRolePayload
closing = record {
  role_id = "observer";
  label = none;
  description = none;
  parent_role_ids = some ("auditor" ∷ []);
  permission_ids = none;
  metadata = none;
}

cycle_never_refused_test : (update_role 5000 closing m0).0 ≢ throws "ROLE_INHERITANCE_CYCLE"
cycle_never_refused_test = cycle_never_refused 5000 closing m0

abbrev m1 : RoleManager
m1 = record m0 {
  assignments = ("ann", ("AUDITOR", assignment_of 6000 "ann" "AUDITOR" "root" none none) ∷ []) ∷ [];
}

revoke_removes_test :
    let m' = (revoke_role "ann" "auditor" m1).1 in
    (get (normalize_id "auditor") (assignments_of "ann" m') ≡ none)
    × (revoke_role "ann" "auditor" m' ≡ (ok none, m'))
revoke_removes_test = revoke_removes "ann" "auditor" m1 (refl, tt) (refl, tt)

raw : normalize_id "auditor" ≡ "AUDITOR"
unfolding normalize_id
raw = refl

raw_apart : "auditor" ≢ normalize_id "auditor"
raw_apart e =
    let same : ("auditor" == "AUDITOR") ≡ true = (eq_iff "auditor" "AUDITOR").1 (e ∙ raw) in cc same

found : get (normalize_id "auditor") m0.roles ≡ some auditor
found = rw raw refl

revocation_leaves_role_test :
    let m' = (assign_role 7000 "bob" "auditor" "root" none none m0).1 in
    (revoke_role "bob" "auditor" m' ≡ (ok none, m'))
    × (get "auditor" (assignments_of "bob" m')
        ≡ some (assignment_of 7000 "bob" "auditor" "root" none none))
revocation_leaves_role_test =
    revocation_leaves_role 7000 "bob" "auditor" "root" none none m0 auditor found raw_apart refl

-- What the observer may, the auditor may.
inherited_test :
    has "READ" (
      merge_permissions
        ("auditor" ∷ [])
        (("AUDITOR", auditor) ∷ ("OBSERVER", record observer { permission_ids = "READ" ∷ [] }) ∷ [])
        [])
    ≡ true
unfolding merge_permissions collect_role_lineage add_all add normalize_id
inherited_test = refl
