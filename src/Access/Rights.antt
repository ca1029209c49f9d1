-- ===== src/Access/Rights.antt =====
-- What gives a subject a right, or denies it, by the grants, the assignments and the roles themselves.
use mathlib.Core.List.{Memᴰ}
use current_dao_contracts.Base.{
  ◌≡◌, refl, ◌↔◌, ◌⊎◌, inl, inr, ℕ, ℤ, ◌<ℤ◌, String, true, Option, none, some, arith, get, has,
}
use current_dao_contracts.Acl.{seconds, normalize_id}
use current_dao_contracts.Roles.{RoleManager, RoleAssignment, assignments_of, collect_role_lineage}
use current_dao_contracts.Roles.Merged.{Lists}
use current_dao_contracts.Permissions.{
  AccessEffect, PermissionDefinition, DirectPermissionGrant, is_current, values, grants_of,
}
use current_dao_contracts.Permissions.Matching.{Covers}
use current_dao_contracts.Access.Defs.{AccessRequest, AccessControlList}

-- Without an end, or with an end that is still to come.
abbrev pub Lasts : ℤ → Option ℤ → Type 0
Lasts now expires_at = (expires_at ≡ none) ⊎ ((end : ℤ) × (expires_at ≡ some end) × (now <ℤ end))

-- A direct grant of the subject that lasts, of a stored permission that covers the request, has the
-- effect.
abbrev pub GrantSays : AccessEffect → ℕ → AccessRequest → AccessControlList → Type 0
GrantSays effect now q s =
    (g : DirectPermissionGrant) × (p : PermissionDefinition) × Memᴰ g
      (values (grants_of q.subject s.permission_manager))
    × Lasts (seconds now) g.expires_at
    × (get (normalize_id g.permission_id) s.permission_manager.permissions ≡ some p)
    × Covers q.contract_id q.function_name p
    × (g.effect ≡ effect)

-- The subject has the role, by an assignment that lasts: the role assigned or one of its lineage.
abbrev pub HasRole : ℕ → String → RoleManager → String → Type 0
HasRole now subject m role_id =
    (a : RoleAssignment) × Memᴰ a (values (assignments_of subject m))
    × Lasts (seconds now) a.expires_at
    × (has role_id (collect_role_lineage a.role_id m.roles) ≡ true)

-- A stored permission that covers the request, of a role that is in the lineage of a role that the
-- subject has, has the effect.
abbrev pub RoleSays : AccessEffect → ℕ → AccessRequest → AccessControlList → Type 0
RoleSays effect now q s =
    (r : String) × (id : String) × (p : PermissionDefinition) × HasRole now q.subject s.role_manager
      r
    × Lists (collect_role_lineage r s.role_manager.roles) s.role_manager.roles id
    × (get id s.permission_manager.permissions ≡ some p)
    × Covers q.contract_id q.function_name p
    × (p.effect ≡ effect)

pub Lasts-is_current : (now : ℤ) (end : Option ℤ) → (is_current now end ≡ true) ↔ Lasts now end
Lasts-is_current now none = (λ h. inl refl, λ h. refl)
Lasts-is_current now (some end) = (λ h. inr (end, refl, ground arith), λ h. ground arith)
