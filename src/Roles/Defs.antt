-- ===== src/Roles/Defs.antt =====
-- RoleManager. The clock is in milliseconds; the fuel of the lineage is one more than the number of
-- roles, and every call that is made spends one on a role that was not visited.
use current_dao_contracts.Base.{
  ⊤, ℕ, zero, suc, ◌+◌, ltb, length, ℤ, ltb_ℤ, eqb, String, ◌==◌, concat, Bool, true, false, not,
  Option, none, some, List, [], ◌∷◌, ◌++◌, filter, map, get_or, Dict, get, has_key, set, delete,
  Set, has, add, add_all, Call, pure, throw, gets, or_throw, throw_if, modify, ◌>>=◌, ◌>>◌,
  if◌then◌else◌,
}
use current_dao_contracts.Acl.{normalize_id, seconds, non_empty}

pub record RoleDefinition : Type 0 where
  pub id : String
  pub label : String
  pub description : String
  pub parent_role_ids : List String
  pub permission_ids : List String
  pub is_system_role : Bool
  pub governance_managed : Bool
  pub metadata : Dict String
  pub created_by : String
  pub created_at : ℤ
  pub updated_at : ℤ

pub record RoleCreationPayload : Type 0 where
  pub id : String
  pub label : String
  pub description : String
  pub parent_role_ids : Option (List String)
  pub permission_ids : Option (List String)
  pub metadata : Option (Dict String)

pub record UpdateRolePayload : Type 0 where
  pub role_id : String
  pub label : Option String
  pub description : Option String
  pub parent_role_ids : Option (List String)
  pub permission_ids : Option (List String)
  pub metadata : Option (Dict String)

pub record RoleAssignment : Type 0 where
  pub subject : String
  pub role_id : String
  pub assigned_by : String
  pub assigned_at : ℤ
  pub expires_at : Option ℤ
  pub reason : Option String

pub record RoleManager : Type 0 where
  pub roles : Dict RoleDefinition
  pub assignments : Dict (Dict RoleAssignment)

abbrev pub new : RoleManager
new = record { roles = []; assignments = [] }

-- `[...new Set(ids.map(normalizeId))]`
unfoldable pub normalized : List String → List String
normalized ids = add_all (map normalize_id ids) []

-- The first of the ids that is no role.
unfoldable pub first_missing : List String → Dict RoleDefinition → Option String
first_missing [] roles = none
first_missing (id ∷ ids) roles =
    let rest = first_missing ids roles in if has_key id roles then rest else some id

-- `throw new Error(...)` at a missing parent
abbrev throw_missing : (String → String) → Option String → Call RoleManager ⊤
throw_missing message none = pure tt
throw_missing message (some id) = throw (message id)

-- The role that `createRole` stores.
unfoldable pub role_of : ℕ → RoleCreationPayload → String → Bool → Bool → RoleDefinition
unfolding normalized
role_of now payload actor is_system_role governance_managed = record {
  id = normalize_id payload.id;
  label = payload.label;
  description = payload.description;
  parent_role_ids = normalized (get_or payload.parent_role_ids []);
  permission_ids = normalized (get_or payload.permission_ids []);
  is_system_role = is_system_role;
  governance_managed = governance_managed;
  metadata = get_or payload.metadata [];
  created_by = actor;
  created_at = seconds now;
  updated_at = seconds now;
}

unfoldable pub create_role :
    ℕ → RoleCreationPayload → String → Bool → Bool → Call RoleManager RoleDefinition
unfolding first_missing
create_role now payload actor is_system_role governance_managed = do
  role ← pure (role_of now payload actor is_system_role governance_managed)
  throw_if (← gets (λ m. has_key role.id m.roles)) "ROLE_ALREADY_EXISTS"
  missing ← gets (λ m. first_missing role.parent_role_ids m.roles)
  throw_missing (λ id. concat ("ROLE_NOT_FOUND:" ∷ id ∷ [])) missing
  modify λ m. record m { roles = set role.id role m.roles }
  pure role

-- The loop of `ACLLib.collectRoleLineage` over the parents, from the lineage so far; `collect` is the
-- call for one parent. A result is a lineage and what was visited.
unfoldable pub collect_parents :
    (String → Set → List String × Set) → List String → List String → Set → List String × Set
collect_parents collect [] found visited = (found, visited)
collect_parents collect (parent ∷ parents) found visited =
    let (more, visited') = collect parent visited in
    collect_parents collect parents (add_all more found) visited'

-- `ACLLib.collectRoleLineage`
unfoldable pub lineage : ℕ → Dict RoleDefinition → String → Set → List String × Set
unfolding collect_parents
lineage zero roles role_id visited = ([], visited)
lineage (suc fuel) roles role_id visited = elim (has (normalize_id role_id) visited) [
  | true ↦ ([], visited)
  | false ↦ elim (get (normalize_id role_id) roles) [
    | none ↦ ([], visited)
    | some role ↦
        collect_parents (lineage fuel roles) role.parent_role_ids (normalize_id role_id ∷ [])
          (add (normalize_id role_id) visited)
  ]
]

unfoldable pub collect_role_lineage : String → Dict RoleDefinition → List String
unfolding lineage
collect_role_lineage role_id roles = (lineage (length roles + 1) roles role_id []).0

-- `payload.x || role.x` on text
abbrev or_text : Option String → String → String
or_text none old = old
or_text (some s) old = if s == "" then old else s

-- `payload.ids ? normalized : role.ids`
abbrev or_ids : Option (List String) → List String → List String
or_ids none old = old
or_ids (some ids) old = normalized ids

-- The role that `updateRole` stores.
unfoldable pub updated : ℕ → UpdateRolePayload → RoleDefinition → RoleDefinition
updated now payload role = record role {
  label = or_text payload.label role.label;
  description = or_text payload.description role.description;
  parent_role_ids = or_ids payload.parent_role_ids role.parent_role_ids;
  permission_ids = or_ids payload.permission_ids role.permission_ids;
  metadata = get_or payload.metadata role.metadata;
  updated_at = seconds now;
}

-- `inheritedRoleIds.filter((roleId) => roleId === normalizedRoleId).length`
unfoldable pub self_references : String → RoleDefinition → Dict RoleDefinition → ℕ
self_references id role roles =
    length (filter (λ i. i == id) (collect_role_lineage id (set id role roles)))

unfoldable pub update_role : ℕ → UpdateRolePayload → Call RoleManager RoleDefinition
unfolding self_references
update_role now payload = do
  id ← pure (normalize_id payload.role_id)
  found ← gets (λ m. get id m.roles)
  role ← or_throw found "ROLE_NOT_FOUND"
  new_role ← pure (updated now payload role)
  missing ← gets (λ m. first_missing new_role.parent_role_ids m.roles)
  throw_missing (λ _. "ROLE_NOT_FOUND") missing
  throw_if (has id new_role.parent_role_ids) "ROLE_CANNOT_INHERIT_ITSELF"
  throw_if (← gets (λ m. ltb 1 (self_references id new_role m.roles))) "ROLE_INHERITANCE_CYCLE"
  modify λ m. record m { roles = set new_role.id new_role m.roles }
  pure new_role

-- The assignments of a subject, `assignments.get(subject)` or an empty map.
abbrev pub assignments_of : String → RoleManager → Dict RoleAssignment
assignments_of subject m = get_or (get subject m.assignments) []

unfoldable pub assign_role :
    ℕ → String → String → String → Option String → Option ℤ → Call RoleManager RoleAssignment
assign_role now subject role_id actor reason expires_at = do
  found ← gets (λ m. get (normalize_id role_id) m.roles)
  _ ← or_throw found "ROLE_NOT_FOUND"
  assignment ← pure (record {
    subject = subject;
    role_id = normalize_id role_id;
    assigned_by = actor;
    assigned_at = seconds now;
    expires_at = expires_at;
    reason = non_empty reason;
  })
  modify λ m. record m {
    assignments = set subject (set role_id assignment (assignments_of subject m)) m.assignments;
  }
  pure assignment

-- The manager without the assignment, and without the subject when it was its last.
unfoldable pub without_assignment : String → String → RoleManager → RoleManager
without_assignment subject key m =
    let rest = delete key (assignments_of subject m) in
    record m {
      assignments =
          if eqb (length rest) 0
          then delete subject m.assignments
          else set subject rest m.assignments;
    }

abbrev revoked : String → String → Option RoleAssignment → Call RoleManager (Option RoleAssignment)
revoked subject key none = pure none
revoked subject key (some assignment) = do
  modify (without_assignment subject key)
  pure (some assignment)

unfoldable pub revoke_role : String → String → Call RoleManager (Option RoleAssignment)
unfolding without_assignment
revoke_role subject role_id = do
  found ← gets (λ m. get (normalize_id role_id) (assignments_of subject m))
  revoked subject (normalize_id role_id) found

unfoldable pub add_permission_to_role : ℕ → String → String → Call RoleManager RoleDefinition
add_permission_to_role now role_id permission_id = do
  found ← gets (λ m. get (normalize_id role_id) m.roles)
  role ← or_throw found "ROLE_NOT_FOUND"
  changed ← pure (
      if has (normalize_id permission_id) role.permission_ids then role else record role {
        permission_ids = role.permission_ids ++ (normalize_id permission_id ∷ []);
        updated_at = seconds now;
      })
  modify λ m. record m { roles = set (normalize_id role_id) changed m.roles }
  pure changed

unfoldable pub remove_permission_from_role : ℕ → String → String → Call RoleManager RoleDefinition
remove_permission_from_role now role_id permission_id = do
  found ← gets (λ m. get (normalize_id role_id) m.roles)
  role ← or_throw found "ROLE_NOT_FOUND"
  changed ← pure (record role {
    permission_ids =
        filter (λ current. not (current == normalize_id permission_id)) role.permission_ids;
    updated_at = seconds now;
  })
  modify λ m. record m { roles = set (normalize_id role_id) changed m.roles }
  pure changed

-- An assignment without an end, or whose end is later than `now`.
abbrev is_current : ℤ → Option ℤ → Bool
is_current now none = true
is_current now (some end) = ltb_ℤ now end

unfoldable pub get_assigned_roles : ℕ → String → RoleManager → List RoleAssignment
get_assigned_roles now subject m =
    filter (λ (a : RoleAssignment). is_current (seconds now) a.expires_at)
      (map (λ e. e.1) (assignments_of subject m))

-- The lineages of some assignments, without repetitions.
unfoldable pub add_lineages : List RoleAssignment → Dict RoleDefinition → Set → Set
add_lineages [] roles ids = ids
add_lineages (a ∷ rest) roles ids =
    add_lineages rest roles (add_all (collect_role_lineage a.role_id roles) ids)

unfoldable pub get_effective_role_ids : ℕ → String → RoleManager → Set
unfolding get_assigned_roles add_lineages
get_effective_role_ids now subject m = add_lineages (get_assigned_roles now subject m) m.roles []

unfoldable pub get_role : String → RoleManager → Option RoleDefinition
get_role role_id m = get (normalize_id role_id) m.roles

unfoldable pub get_roles : RoleManager → List RoleDefinition
get_roles m = map (λ e. e.1) m.roles

unfoldable pub get_inheritance_chain : String → Call RoleManager (List String)
get_inheritance_chain role_id = do
  found ← gets (λ m. get (normalize_id role_id) m.roles)
  _ ← or_throw found "ROLE_NOT_FOUND"
  gets (λ m. collect_role_lineage (normalize_id role_id) m.roles)

-- The permissions of the roles of one lineage, added to `ids`.
unfoldable pub add_permissions : List String → Dict RoleDefinition → Set → Set
add_permissions [] roles ids = ids
add_permissions (role_id ∷ rest) roles ids =
    add_permissions rest roles
      (elim (get role_id roles) [ none ↦ ids | some role ↦ add_all role.permission_ids ids ])

-- `ACLLib.mergePermissions`, from the permissions so far
unfoldable pub merge_permissions : List String → Dict RoleDefinition → Set → Set
unfolding add_permissions
merge_permissions [] roles ids = ids
merge_permissions (role_id ∷ rest) roles ids =
    merge_permissions rest roles (add_permissions (collect_role_lineage role_id roles) roles ids)
