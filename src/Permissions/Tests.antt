-- ===== src/Permissions/Tests.antt =====
-- Two permissions of the treasury, and the theorems at them.
use mathlib.Core.List.{Memᴰ}
use current_dao_contracts.Base.{
  pos, ◌≡◌, ◌≢◌, ◌↔◌, refl, ◌∙◌, String, ◌==◌, eq_iff, true, false, none, some, [], ◌∷◌,
  text_length, get, set, ok,
}
use current_dao_contracts.Acl.{normalize_id, seconds}
use current_dao_contracts.Permissions.Defs.{
  PermissionManager, PermissionDefinition, allow, deny, medium, new, permission_of,
  register_function_permissions, grant_direct_permission, grants_of, revoke_direct_permission,
  match_permissions,
}
use current_dao_contracts.Permissions.Grants.{grant_of, grant_then_revoke, revocation_misses}
use current_dao_contracts.Permissions.Matching.{Covers, matches_exactly}

abbrev m0 : PermissionManager
m0 = (register_function_permissions 9000 "TREASURY" ("withdraw" ∷ "*" ∷ []) "root" new).1

abbrev id : String
id = "EXECUTE_TREASURY_WITHDRAW"

abbrev withdraw : PermissionDefinition
withdraw = record {
  id = id;
  contract_id = "TREASURY";
  function_name = "withdraw";
  description = "Execute TREASURY.withdraw";
  effect = allow;
  is_wildcard = false;
  risk_level = medium;
  gas_estimate = 2940;
  created_by = "root";
  created_at = pos 9;
}

normal : normalize_id id ≡ id
unfolding normalize_id
normal = refl

raw : normalize_id "execute_treasury_withdraw" ≡ id
unfolding normalize_id
raw = refl

stored : get id m0.permissions ≡ some withdraw
unfolding register_function_permissions permission_of set normalize_id text_length seconds
stored = refl

abbrev m1 : PermissionManager
m1 = record { permissions = m0.permissions; direct_grants = [] }

found : get (normalize_id id) m1.permissions ≡ some withdraw
found = rw normal stored

found_raw : get (normalize_id "execute_treasury_withdraw") m1.permissions ≡ some withdraw
found_raw = rw raw stored

raw_apart : "execute_treasury_withdraw" ≢ normalize_id "execute_treasury_withdraw"
raw_apart e =
    let same : ("execute_treasury_withdraw" == id) ≡ true =
      (eq_iff "execute_treasury_withdraw" id).1 (e ∙ raw) in
    cc same

grant_then_revoke_example :
    let grant = grant_of 10000 "ann" id "root" allow none none in
    let (given, m') = grant_direct_permission 10000 "ann" id "root" allow none none m1 in
    let (taken, m'') = revoke_direct_permission "ann" id m' in
    (given ≡ ok grant)
    × (get id (grants_of "ann" m') ≡ some grant)
    × (taken ≡ ok (some grant))
    × (get id (grants_of "ann" m'') ≡ none)
grant_then_revoke_example =
    grant_then_revoke 10000 "ann" id "root" allow none none m1 withdraw found normal tt tt

revocation_misses_test :
    let m' =
      (grant_direct_permission 10000 "ann" "execute_treasury_withdraw" "root" deny none none
        m1).1 in
    (revoke_direct_permission "ann" "execute_treasury_withdraw" m' ≡ (ok none, m'))
    × (get "execute_treasury_withdraw" (grants_of "ann" m')
        ≡ some (grant_of 10000 "ann" "execute_treasury_withdraw" "root" deny none none))
revocation_misses_test =
    revocation_misses 10000 "ann" "execute_treasury_withdraw" "root" deny none none m1 withdraw
      found_raw raw_apart refl

matches_exactly_example :
    Memᴰ withdraw (match_permissions (id ∷ "OTHER" ∷ []) "TREASURY" "withdraw" m1) ↔ (
      (i : String) × Memᴰ i (id ∷ "OTHER" ∷ [])
      × (get i m1.permissions ≡ some withdraw)
      × Covers "TREASURY" "withdraw" withdraw)
matches_exactly_example = matches_exactly "TREASURY" "withdraw" m1 (id ∷ "OTHER" ∷ []) withdraw
