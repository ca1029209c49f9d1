-- ===== src/Permissions/Defs.antt =====
-- PermissionManager. The clock is in milliseconds. The objects that the source copies on their way out
-- are values here.
use current_dao_contracts.Base.{
  ℕ, ◌+◌, ◌*◌, length, ℤ, ltb_ℤ, String, ◌==◌, concat, text_length, Bool, true, ◌&&◌, ◌||◌, Option,
  none, some, List, [], ◌∷◌, filter, map, eqb, get_or, Dict, get, has_key, set, delete, Call, pure,
  gets, or_throw, throw_if, modify, ◌>>=◌, ◌>>◌, if◌then◌else◌,
}
use current_dao_contracts.Acl.{normalize_id, seconds, non_empty}

pub data AccessEffect : Type 0 where
  allow deny : AccessEffect

pub data RiskLevel : Type 0 where
  low medium high critical : RiskLevel

pub record PermissionDefinition : Type 0 where
  pub id : String
  pub contract_id : String
  pub function_name : String
  pub description : String
  pub effect : AccessEffect
  pub is_wildcard : Bool
  pub risk_level : RiskLevel
  pub gas_estimate : ℕ
  pub created_by : String
  pub created_at : ℤ

pub record PermissionPayload : Type 0 where
  pub id : String
  pub contract_id : String
  pub function_name : String
  pub description : String
  pub effect : Option AccessEffect
  pub risk_level : Option RiskLevel

pub record DirectPermissionGrant : Type 0 where
  pub subject : String
  pub permission_id : String
  pub effect : AccessEffect
  pub granted_by : String
  pub granted_at : ℤ
  pub reason : Option String
  pub expires_at : Option ℤ

pub record PermissionManager : Type 0 where
  pub permissions : Dict PermissionDefinition
  pub direct_grants : Dict (Dict DirectPermissionGrant)

abbrev pub new : PermissionManager
new = record { permissions = []; direct_grants = [] }

unfoldable pub estimate_permission_gas : String → String → ℕ
estimate_permission_gas function_name contract_id =
    let wildcard_penalty = if function_name == "*" || contract_id == "*" then 200 else 0 in
    2500 + text_length function_name * 35 + text_length contract_id * 20 + wildcard_penalty

-- The permission that `createPermission` stores.
unfoldable pub permission_of : ℕ → PermissionPayload → String → PermissionDefinition
unfolding estimate_permission_gas
permission_of now payload actor = record {
  id = normalize_id payload.id;
  contract_id = payload.contract_id;
  function_name = payload.function_name;
  description = payload.description;
  effect = get_or payload.effect allow;
  is_wildcard = payload.function_name == "*" || payload.contract_id == "*";
  risk_level = get_or payload.risk_level medium;
  gas_estimate = estimate_permission_gas payload.function_name payload.contract_id;
  created_by = actor;
  created_at = seconds now;
}

unfoldable pub create_permission :
    ℕ → PermissionPayload → String → Call PermissionManager PermissionDefinition
create_permission now payload actor = do
  p ← pure (permission_of now payload actor)
  throw_if (← gets (λ m. has_key p.id m.permissions)) "PERMISSION_ALREADY_EXISTS"
  modify λ m. record m { permissions = set p.id p m.permissions }
  pure p

-- What `registerFunctionPermissions` creates for one function.
unfoldable pub function_payload : String → String → PermissionPayload
function_payload contract_id function_name = record {
  id = normalize_id (concat ("EXECUTE_" ∷ contract_id ∷ "_" ∷ function_name ∷ []));
  contract_id = contract_id;
  function_name = function_name;
  description = concat ("Execute " ∷ contract_id ∷ "." ∷ function_name ∷ []);
  effect = some allow;
  risk_level = some medium;
}

-- The stored permission, or a new one.
abbrev pub kept_or_created :
    ℕ
    → PermissionPayload
    → String
    → Option PermissionDefinition
    → Call PermissionManager PermissionDefinition
kept_or_created now payload actor (some p) = pure p
kept_or_created now payload actor none = create_permission now payload actor

unfoldable pub register_function_permissions :
    ℕ → String → List String → String → Call PermissionManager (List PermissionDefinition)
unfolding function_payload create_permission
register_function_permissions now contract_id [] actor = pure []
register_function_permissions now contract_id (function_name ∷ functions) actor = do
  payload ← pure (function_payload contract_id function_name)
  found ← gets (λ m. get payload.id m.permissions)
  p ← kept_or_created now payload actor found
  rest ← register_function_permissions now contract_id functions actor
  pure (p ∷ rest)

-- The grants of a subject, `directGrants.get(subject)` or an empty map.
abbrev pub grants_of : String → PermissionManager → Dict DirectPermissionGrant
grants_of subject m = get_or (get subject m.direct_grants) []

unfoldable pub grant_direct_permission :
    ℕ
    → String
    → String
    → String
    → AccessEffect
    → Option String
    → Option ℤ
    → Call PermissionManager DirectPermissionGrant
grant_direct_permission now subject permission_id actor effect reason expires_at = do
  found ← gets (λ m. get (normalize_id permission_id) m.permissions)
  _ ← or_throw found "PERMISSION_NOT_FOUND"
  grant ← pure (record {
    subject = subject;
    permission_id = normalize_id permission_id;
    effect = effect;
    granted_by = actor;
    granted_at = seconds now;
    reason = non_empty reason;
    expires_at = expires_at;
  })
  modify λ m. record m {
    direct_grants = set subject (set permission_id grant (grants_of subject m)) m.direct_grants;
  }
  pure grant

-- The manager without the grant, and without the subject when it was its last.
unfoldable pub without_grant : String → String → PermissionManager → PermissionManager
without_grant subject key m =
    let rest = delete key (grants_of subject m) in
    record m {
      direct_grants =
          if eqb (length rest) 0
          then delete subject m.direct_grants
          else set subject rest m.direct_grants;
    }

abbrev revoked :
    String
    → String
    → Option DirectPermissionGrant
    → Call PermissionManager (Option DirectPermissionGrant)
revoked subject key none = pure none
revoked subject key (some grant) = do modify (without_grant subject key); pure (some grant)

unfoldable pub revoke_direct_permission :
    String → String → Call PermissionManager (Option DirectPermissionGrant)
unfolding without_grant
revoke_direct_permission subject permission_id = do
  found ← gets (λ m. get (normalize_id permission_id) (grants_of subject m))
  revoked subject (normalize_id permission_id) found

unfoldable pub get_permission : String → PermissionManager → Option PermissionDefinition
get_permission permission_id m = get (normalize_id permission_id) m.permissions

abbrev pub values : {V : Type 0} → Dict V → List V
values m = map (λ e. e.1) m

-- A grant without an end, or whose end is later than `now`.
abbrev pub is_current : ℤ → Option ℤ → Bool
is_current now none = true
is_current now (some end) = ltb_ℤ now end

unfoldable pub get_direct_grants : ℕ → String → PermissionManager → List DirectPermissionGrant
get_direct_grants now subject m =
    filter (λ (g : DirectPermissionGrant). is_current (seconds now) g.expires_at)
      (values (grants_of subject m))

-- The tests of `matchPermissions` and of `ACLLib.permissionMatches`.
unfoldable pub permission_matches : PermissionDefinition → String → String → Bool
permission_matches p contract_id function_name =
    (p.contract_id == "*" || p.contract_id == contract_id)
    && (p.function_name == "*" || p.function_name == function_name)

unfoldable pub match_permissions :
    List String → String → String → PermissionManager → List PermissionDefinition
unfolding permission_matches
match_permissions [] contract_id function_name m = []
match_permissions (permission_id ∷ ids) contract_id function_name m =
    let rest = match_permissions ids contract_id function_name m in
    elim (get permission_id m.permissions) [
      | none ↦ rest
      | some p ↦ if permission_matches p contract_id function_name then p ∷ rest else rest
    ]

-- `ACLLib.estimateAccessCheckGas`
unfoldable pub estimate_access_check_gas : ℕ → ℕ → ℕ → Bool → ℕ → ℕ
estimate_access_check_gas role_count inherited_role_count direct_grant_count locked matched_count =
    11200
    + role_count * 850
    + inherited_role_count * 620
    + direct_grant_count * 350
    + matched_count * 475
    + (if locked then 900 else 0)
