-- ===== src/Access/Held.antt =====
-- The permissions of the roles of a subject that match a request, and the four tests of a decision.
use mathlib.Core.List.{Memᴰ}
use mathlib.Core.List.Memᴰ
use current_dao_contracts.Base.{
  ◌≡◌, refl, sym, ◌↔◌, inl, inr, ℕ, String, eq_iff, Bool, not, ◌==◌, true, List, [], ◌∷◌, arith,
  has, any, any_iff, filter_iff, Bool-cases,
}
use current_dao_contracts.Acl.{seconds}
use current_dao_contracts.Roles.{
  RoleManager, RoleAssignment, assignments_of, get_assigned_roles, get_effective_role_ids,
  merge_permissions,
}
use current_dao_contracts.Roles.Merged.{add_lineages_iff, merged_exactly}
use current_dao_contracts.Permissions.{
  AccessEffect, allow, deny, PermissionDefinition, is_current, values,
}
use current_dao_contracts.Permissions.Matching.{matches_exactly}
use current_dao_contracts.Access.Defs.{
  AccessRequest, AccessControlList, is_deny, grant_matches, role_matches, any_grant_denies,
  any_grant_allows, any_role_denies, any_role_allows,
}
use current_dao_contracts.Access.Rights.{GrantSays, HasRole, RoleSays, Lasts-is_current}
use current_dao_contracts.Access.Grants.{grants_say}

effect_deny : (e : AccessEffect) → (is_deny e ≡ true) ↔ (e ≡ deny)
effect_deny allow = (λ h. ground arith, λ h. ground arith)
effect_deny deny = (λ h. refl, λ h. refl)

effect_allow : (e : AccessEffect) → (not (is_deny e) ≡ true) ↔ (e ≡ allow)
effect_allow allow = (λ h. refl, λ h. refl)
effect_allow deny = (λ h. ground arith, λ h. ground arith)

has-Mem : (a : String) (l : List String) → (has a l ≡ true) ↔ Memᴰ a l
has-Mem a [] = (λ h. absurd (ground (arith, h)), λ i. elim i [ ])
has-Mem a (b ∷ l) =
    let (to, from) = has-Mem a l in
    (
      λ h. elim (Bool-cases (b == a)) [
        | inl same ↦ Memᴰ.head (sym ((eq_iff b a).0 same))
        | inr other ↦ Memᴰ.tail (to (ground arith))
      ],
      λ i. elim (Memᴰ.cases_cons i) [
        | inl e ↦ ground (arith, eq_iff b a)
        | inr later ↦ let k = from later in ground arith
      ],
    )

HasRole-effective :
    (now : ℕ) (subject : String) (m : RoleManager) (r : String)
    → (has r (get_effective_role_ids now subject m) ≡ true) ↔ HasRole now subject m r
unfolding get_effective_role_ids get_assigned_roles
HasRole-effective now subject m r =
    let all = values (assignments_of subject m) in
    let keep : RoleAssignment → Bool = λ a. is_current (seconds now) a.expires_at in
    let (to, from) = add_lineages_iff (get_assigned_roles now subject m) m.roles r [] in
    (
      λ h. elim (to h) [
        | inl old ↦ absurd (ground (arith, old))
        | inr (a, i, k) ↦
            let (j, lasts) = (filter_iff keep all a).0 i in
            (a, j, (Lasts-is_current (seconds now) a.expires_at).0 lasts, k)
      ],
      λ (a, j, lasts, k). from (
          inr (
            a,
            (filter_iff keep all a).1 (j, (Lasts-is_current (seconds now) a.expires_at).1 lasts),
            k,
          )),
    )

-- A test of the permissions that match, for a test that singles out one effect.
roles_say :
    (effect : AccessEffect) (test : AccessEffect → Bool)
    → ((e : AccessEffect) → (test e ≡ true) ↔ (e ≡ effect))
    → (now : ℕ) (q : AccessRequest) (s : AccessControlList)
    → (any (λ (p : PermissionDefinition). test p.effect) (role_matches now q s) ≡ true)
      ↔ RoleSays effect now q s
roles_say effect test singles now q s =
    let roles = s.role_manager.roles in
    let held = get_effective_role_ids now q.subject s.role_manager in
    let ids = merge_permissions held roles [] in
    let (found, put) =
      any_iff (λ (p : PermissionDefinition). test p.effect) (role_matches now q s) in
    (
      λ h.
          let (p, i, t) = found h in
          let (id, j, at, covers) =
            (matches_exactly q.contract_id q.function_name s.permission_manager ids p).0 i in
          elim ((merged_exactly held roles id []).0 ((has-Mem id ids).1 j)) [
            | inl old ↦ absurd (ground (arith, old))
            | inr (r, k, lists) ↦ (
              r,
              id,
              p,
              (HasRole-effective now q.subject s.role_manager r).0 k,
              lists,
              at,
              covers,
              (singles p.effect).0 t,
            )
          ],
      λ (r, id, p, role, lists, at, covers, e).
          let k = (HasRole-effective now q.subject s.role_manager r).1 role in
          let j = (has-Mem id ids).0 ((merged_exactly held roles id []).1 (inr (r, k, lists))) in
          let i =
            (matches_exactly q.contract_id q.function_name s.permission_manager ids p).1
              (id, j, at, covers) in
          put (p, i, (singles p.effect).1 e),
    )

-- The four tests of a decision.
pub tests_say :
    (now : ℕ) (q : AccessRequest) (s : AccessControlList)
    → ((any_grant_denies (grant_matches now q s) ≡ true) ↔ GrantSays deny now q s)
      × ((any_grant_allows (grant_matches now q s) ≡ true) ↔ GrantSays allow now q s)
      × ((any_role_denies (role_matches now q s) ≡ true) ↔ RoleSays deny now q s)
      × ((any_role_allows (role_matches now q s) ≡ true) ↔ RoleSays allow now q s)
tests_say now q s = (
  grants_say deny is_deny effect_deny now q s,
  grants_say allow (λ e. not (is_deny e)) effect_allow now q s,
  roles_say deny is_deny effect_deny now q s,
  roles_say allow (λ e. not (is_deny e)) effect_allow now q s,
)
