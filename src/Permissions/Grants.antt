-- ===== src/Permissions/Grants.antt =====
-- Grants to single subjects: what a revocation takes back, and what it misses.
use current_dao_contracts.Base.{
  ℕ, length, ℤ, ◌≡◌, ◌≢◌, refl, sym, ap, ◌∙◌, inl, inr, String, Option, none, some, arith, eqb, get,
  set, delete, IsKeyed, set-IsKeyed, get-set_self, get-set_ne, get-delete_self, ok, Bool-cases,
}
use mathlib.Core.Path.{subst}
use current_dao_contracts.Acl.{normalize_id, seconds, non_empty}
use current_dao_contracts.Permissions.Defs.{
  AccessEffect, PermissionDefinition, DirectPermissionGrant, PermissionManager, grants_of,
  grant_direct_permission, without_grant, revoke_direct_permission,
}

-- The grant that `grantDirectPermission` makes.
abbrev pub grant_of :
    ℕ → String → String → String → AccessEffect → Option String → Option ℤ → DirectPermissionGrant
grant_of now subject permission_id actor effect reason expires_at = record {
  subject = subject;
  permission_id = normalize_id permission_id;
  effect = effect;
  granted_by = actor;
  granted_at = seconds now;
  reason = non_empty reason;
  expires_at = expires_at;
}

-- The manager after it.
abbrev pub granted : String → String → DirectPermissionGrant → PermissionManager → PermissionManager
granted subject key grant m = record m {
  direct_grants = set subject (set key grant (grants_of subject m)) m.direct_grants;
}

grant_writes :
    (now : ℕ) (subject id actor : String) (effect : AccessEffect) (reason : Option String)
    (expires_at : Option ℤ) (m : PermissionManager) (p : PermissionDefinition)
    → get (normalize_id id) m.permissions ≡ some p
    → let grant = grant_of now subject id actor effect reason expires_at in
      grant_direct_permission now subject id actor effect reason expires_at m
      ≡ (ok grant, granted subject id grant m)
unfolding grant_direct_permission
grant_writes now subject id actor effect reason expires_at m p at = ground arith

grants_of-granted :
    (subject key : String) (grant : DirectPermissionGrant) (m : PermissionManager)
    → grants_of subject (granted subject key grant m) ≡ set key grant (grants_of subject m)
grants_of-granted subject key grant m =
    let stored = get-set_self subject (set key grant (grants_of subject m)) m.direct_grants in
    rw stored refl

without_grant-gone :
    (subject key : String) (m : PermissionManager)
    → IsKeyed m.direct_grants
    → IsKeyed (grants_of subject m)
    → get key (grants_of subject (without_grant subject key m)) ≡ none
unfolding without_grant
without_grant-gone subject key m outer inner =
    let rest = delete key (grants_of subject m) in
    elim (Bool-cases (eqb (length rest) 0)) [
      | inl empty ↦ rw empty (rw (get-delete_self subject m.direct_grants outer) refl)
      | inr more ↦ rw more (
          rw (get-set_self subject rest m.direct_grants)
            (get-delete_self key (grants_of subject m) inner))
    ]

revoke_writes :
    (subject id : String) (found : Option DirectPermissionGrant) (m : PermissionManager)
    → get (normalize_id id) (grants_of subject m) ≡ found
    → revoke_direct_permission subject id m
      ≡ (ok found, elim found [ none ↦ m | some _ ↦ without_grant subject (normalize_id id) m ])
unfolding revoke_direct_permission
revoke_writes subject id none m at = rw at refl
revoke_writes subject id (some grant) m at = rw at refl

-- A grant of a stored permission under an id in normal form returns, and revoking it returns the grant
-- and takes it away. The map of the grants and the subject's own hold each key once.
pub grant_then_revoke :
    (now : ℕ) (subject id actor : String) (effect : AccessEffect) (reason : Option String)
    (expires_at : Option ℤ) (m : PermissionManager) (p : PermissionDefinition)
    → get (normalize_id id) m.permissions ≡ some p
    → normalize_id id ≡ id
    → IsKeyed m.direct_grants
    → IsKeyed (grants_of subject m)
    → let grant = grant_of now subject id actor effect reason expires_at in
      let (given, m') = grant_direct_permission now subject id actor effect reason expires_at m in
      let (taken, m'') = revoke_direct_permission subject id m' in
      (given ≡ ok grant)
      × (get id (grants_of subject m') ≡ some grant)
      × (taken ≡ ok (some grant))
      × (get id (grants_of subject m'') ≡ none)
grant_then_revoke now subject id actor effect reason expires_at m p at normal outer inner =
    let grant = grant_of now subject id actor effect reason expires_at in
    let m' = granted subject id grant m in
    let wrote = grant_writes now subject id actor effect reason expires_at m p at in
    let own = grants_of-granted subject id grant m in
    let stored : get id (grants_of subject m') ≡ some grant =
      ap (get id) own ∙ get-set_self id grant (grants_of subject m) in
    let found : get (normalize_id id) (grants_of subject m') ≡ some grant =
      ap (λ k. get k (grants_of subject m')) normal ∙ stored in
    let revokes = revoke_writes subject id (some grant) m' found in
    let keyed = set-IsKeyed subject (set id grant (grants_of subject m)) m.direct_grants outer in
    let keyed' : IsKeyed (grants_of subject m') =
      rw own (set-IsKeyed id grant (grants_of subject m) inner) in
    let gone =
      subst (λ k. get id (grants_of subject (without_grant subject k m')) ≡ none) (sym normal)
        (without_grant-gone subject id m' keyed keyed') in
    rw wrote (refl, stored, rw revokes refl, rw revokes gone)

-- A grant of a stored permission under an id that is not in normal form is missed by its revocation,
-- when the subject had no grant under the normal form: the revocation finds nothing and changes
-- nothing, so the grant stays.
pub revocation_misses :
    (now : ℕ) (subject id actor : String) (effect : AccessEffect) (reason : Option String)
    (expires_at : Option ℤ) (m : PermissionManager) (p : PermissionDefinition)
    → get (normalize_id id) m.permissions ≡ some p
    → id ≢ normalize_id id
    → get (normalize_id id) (grants_of subject m) ≡ none
    → let m' = (grant_direct_permission now subject id actor effect reason expires_at m).1 in
      (revoke_direct_permission subject id m' ≡ (ok none, m'))
      × (get id (grants_of subject m')
          ≡ some (grant_of now subject id actor effect reason expires_at))
revocation_misses now subject id actor effect reason expires_at m p at apart free =
    let grant = grant_of now subject id actor effect reason expires_at in
    let m' = granted subject id grant m in
    let wrote = grant_writes now subject id actor effect reason expires_at m p at in
    let own = grants_of-granted subject id grant m in
    let missing : get (normalize_id id) (grants_of subject m') ≡ none =
      ap (get (normalize_id id)) own
      ∙ get-set_ne id (normalize_id id) grant (grants_of subject m) apart
      ∙ free in
    rw wrote (
      revoke_writes subject id none m' missing,
      ap (get id) own ∙ get-set_self id grant (grants_of subject m),
    )
