-- ===== src/Roles/Lineage.antt =====
-- The fuel of a lineage is enough, and a lineage names no role twice.
use current_dao_contracts.Base.{
  ℕ, zero, suc, ◌+◌, ◌≤◌, ◌<◌, ltb, length, ◌≡◌, ◌≢◌, refl, sym, ap, ◌∙◌, ◌⊎◌, inl, inr, String,
  ◌==◌, eq_iff, str_eq_refl, true, false, none, some, List, [], ◌∷◌, ◌++◌, filter, arith, Dict, get,
  set, Set, has, add, add_all, has-add, Outcome, ok, throws, if◌then◌else◌, Bool-cases,
  Option-cases,
}
use mathlib.Core.Path.{subst}
use current_dao_contracts.Acl.{normalize_id}
use current_dao_contracts.Roles.Defs.{
  RoleDefinition, RoleManager, UpdateRolePayload, collect_parents, lineage, collect_role_lineage,
  self_references, update_role, updated, first_missing,
}

-- The number of entries whose key was not visited.
unvisited : Dict RoleDefinition → Set → ℕ
unvisited [] v = 0
unvisited ((k, _) ∷ m) v = let rest = unvisited m v in if has k v then rest else rest + 1

unvisited-le_length : (m : Dict RoleDefinition) (v : Set) → unvisited m v ≤ length m
unfolding unvisited
unvisited-le_length [] v = omega arith
unvisited-le_length ((k, r) ∷ m) v = ground (arith, unvisited-le_length m v)

unvisited-add_le :
    (m : Dict RoleDefinition) (key : String) (v : Set) → unvisited m (add key v) ≤ unvisited m v
unfolding unvisited
unvisited-add_le [] key v = omega arith
unvisited-add_le ((k, r) ∷ m) key v = ground (arith, unvisited-add_le m key v, has-add key k v)

unvisited-add_lt :
    (m : Dict RoleDefinition) (key : String) (role : RoleDefinition) (v : Set)
    → get key m ≡ some role
    → has key v ≡ false
    → unvisited m (add key v) < unvisited m v
unfolding unvisited
unvisited-add_lt [] key role v at fresh = ground arith
unvisited-add_lt ((k, r) ∷ m) key role v at fresh = elim (Bool-cases (k == key)) [
  | inl same ↦
      let e : k ≡ key = (eq_iff k key).0 same in
      let now_in : has k (add key v) ≡ true =
        has-add key k v ∙ rw (e, str_eq_refl key) (ground arith) in
      let not_in : has k v ≡ false = rw e fresh in
      let rest = unvisited-add_le m key v in rw (now_in, not_in) (omega arith)
  | inr other ↦
      let at' : get key m ≡ some role = ground arith in
      let rest = unvisited-add_lt m key role v at' fresh in
      let apart : (key == k) ≡ false = ground (arith, eq_iff key k, eq_iff k key, str_eq_refl k) in
      let same : has k (add key v) ≡ has k v = has-add key k v ∙ rw apart (ground arith) in
      rw same (ground arith)
]

-- The calls for the parents only visit more.
collect_parents-le :
    (m : Dict RoleDefinition) (collect : String → Set → List String × Set)
    → ((id : String) (v : Set) → unvisited m (collect id v).1 ≤ unvisited m v)
    → (parents found : List String) (v : Set)
    → unvisited m (collect_parents collect parents found v).1 ≤ unvisited m v
unfolding collect_parents
collect_parents-le m collect grows [] found v = omega arith
collect_parents-le m collect grows (p ∷ ps) found v =
    let (more, v') = collect p v in
    let rest = collect_parents-le m collect grows ps (add_all more found) v' in
    let first = grows p v in omega arith

-- A call with fuel ends at once, or goes to the parents of a stored role that was not visited.
lineage_cases :
    (fuel : ℕ) (m : Dict RoleDefinition) (id : String) (v : Set)
    → (lineage (suc fuel) m id v ≡ ([], v))
      ⊎ ((has (normalize_id id) v ≡ false)
          × ((role : RoleDefinition) × (get (normalize_id id) m ≡ some role)
              × (lineage (suc fuel) m id v
                  ≡ collect_parents
                      (lineage fuel m)
                      role.parent_role_ids
                      (normalize_id id ∷ [])
                      (add (normalize_id id) v))))
unfolding lineage
lineage_cases fuel m id v = elim (Bool-cases (has (normalize_id id) v)) [
  | inl seen ↦ inl (rw (lineage, seen) refl)
  | inr fresh ↦ elim (Option-cases (get (normalize_id id) m)) [
    | inl absent ↦ inl (rw (lineage, fresh, absent) refl)
    | inr (role, at) ↦ inr (fresh, (role, at, rw (lineage, fresh, at) refl))
  ]
]

lineage-le :
    (fuel : ℕ) (m : Dict RoleDefinition) (id : String) (v : Set)
    → unvisited m (lineage fuel m id v).1 ≤ unvisited m v
unfolding lineage
lineage-le zero m id v = omega arith
lineage-le (suc fuel) m id v = elim (lineage_cases fuel m id v) [
  | inl ends ↦ rw ends (omega arith)
  | inr (_, (role, _, goes)) ↦
      let parents =
        collect_parents-le m (lineage fuel m) (lineage-le fuel m) role.parent_role_ids
          (normalize_id id ∷ []) (add (normalize_id id) v) in
      let own = unvisited-add_le m (normalize_id id) v in rw goes (omega arith)
]

-- Two calls that agree while few entries are left make the same loop.
collect_parents-agree :
    (m : Dict RoleDefinition) (n : ℕ) (f g : String → Set → List String × Set)
    → ((id : String) (v : Set) → unvisited m v < n → f id v ≡ g id v)
    → ((id : String) (v : Set) → unvisited m (g id v).1 ≤ unvisited m v)
    → (parents found : List String) (v : Set) → unvisited m v < n
    → collect_parents f parents found v ≡ collect_parents g parents found v
unfolding collect_parents
collect_parents-agree m n f g agree grows [] found v few = refl
collect_parents-agree m n f g agree grows (p ∷ ps) found v few =
    let (more, v') = g p v in
    let grown = grows p v in
    let few' : unvisited m v' < n = omega arith in
    rw (agree p v few) (collect_parents-agree m n f g agree grows ps (add_all more found) v' few')

not_below : {n : ℕ} → n < 0 → ⊥
not_below h = omega arith

-- One more round changes nothing when there are more rounds than entries that were not visited.
lineage_settles :
    (fuel : ℕ) (m : Dict RoleDefinition) (id : String) (v : Set)
    → unvisited m v < fuel
    → lineage (suc fuel) m id v ≡ lineage fuel m id v
unfolding lineage
lineage_settles zero m id v few = elim (not_below few) [ ]
lineage_settles (suc fuel) m id v few = elim (Bool-cases (has (normalize_id id) v)) [
  | inl seen ↦ rw (lineage, seen) refl
  | inr fresh ↦ elim (Option-cases (get (normalize_id id) m)) [
    | inl absent ↦ rw (lineage, fresh, absent) refl
    | inr (role, at) ↦
        let fewer = unvisited-add_lt m (normalize_id id) role v at fresh in
        let few' : unvisited m (add (normalize_id id) v) < fuel = omega arith in
        rw (lineage, fresh, at)
          (collect_parents-agree m fuel (lineage (suc fuel) m) (lineage fuel m)
            (lineage_settles fuel m) (lineage-le fuel m) role.parent_role_ids (normalize_id id ∷ [])
            (add (normalize_id id) v) few')
  ]
]

-- The lineage is the one of any larger fuel, whatever the roles are, cycles included.
pub fuel_enough :
    (more : ℕ) (role_id : String) (roles : Dict RoleDefinition)
    → (lineage (more + (length roles + 1)) roles role_id []).0 ≡ collect_role_lineage role_id roles
unfolding collect_role_lineage
fuel_enough zero role_id roles =
    let e : 0 + (length roles + 1) ≡ length roles + 1 = omega arith in rw e refl
fuel_enough (suc more) role_id roles =
    let few : unvisited roles [] < more + (length roles + 1) =
      omega (arith, unvisited-le_length roles []) in
    let e : suc more + (length roles + 1) ≡ suc (more + (length roles + 1)) = omega arith in
    rw e (
      ap (λ r. r.0) (lineage_settles (more + (length roles + 1)) roles role_id [] few)
      ∙ fuel_enough more role_id roles)

-- How often a name stands in a list.
abbrev pub count : String → List String → ℕ
count i ids = length (filter (λ j. j == i) ids)

count-absent : (i : String) (s : Set) → has i s ≡ false → count i s ≡ 0
count-absent i [] h = refl
count-absent i (b ∷ s) h = ground (arith, count-absent i s)

count-append : (i a : String) (s : Set) → count i (s ++ a ∷ []) ≡ count i s + count i (a ∷ [])
count-append i a [] = omega arith
count-append i a (b ∷ s) = ground (arith, count-append i a s)

count-single : (i a : String) → count i (a ∷ []) ≤ 1
count-single i a = ground arith

count-add : (i a : String) (s : Set) → count i s ≤ 1 → count i (add a s) ≤ 1
unfolding add
count-add i a s once = elim (Bool-cases (has a s)) [
  | inl present ↦ rw present once
  | inr fresh ↦ rw fresh (
      rw (count-append i a s) (elim (Bool-cases (a == i)) [
        | inl same ↦
            let none_yet : count i s ≡ 0 =
              subst (λ x. count x s ≡ 0) ((eq_iff a i).0 same) (count-absent a s fresh) in
            rw none_yet (let h = count-single i a in omega arith)
        | inr other ↦ rw other (omega arith)
      ]))
]

count-add_all : (i : String) (more s : List String) → count i s ≤ 1 → count i (add_all more s) ≤ 1
unfolding add_all
count-add_all i [] s once = once
count-add_all i (a ∷ more) s once = count-add_all i more (add a s) (count-add i a s once)

collect_parents-once :
    (i : String) (collect : String → Set → List String × Set) (parents found : List String)
    (v : Set)
    → count i found ≤ 1
    → count i (collect_parents collect parents found v).0 ≤ 1
unfolding collect_parents
collect_parents-once i collect [] found v once = once
collect_parents-once i collect (p ∷ ps) found v once =
    let (more, v') = collect p v in
    collect_parents-once i collect ps (add_all more found) v' (count-add_all i more found once)

-- A lineage names no role twice.
pub lineage_once :
    (i role_id : String) (roles : Dict RoleDefinition)
    → count i (collect_role_lineage role_id roles) ≤ 1
unfolding collect_role_lineage
lineage_once i role_id roles =
    let e : length roles + 1 ≡ suc (length roles) = omega arith in
    subst (λ n. count i (lineage n roles role_id []).0 ≤ 1) (sym e)
      (elim (lineage_cases (length roles) roles role_id []) [
        | inl ends ↦ rw ends (omega arith)
        | inr (_, (role, _, goes)) ↦ rw goes (
            collect_parents-once i (lineage (length roles) roles) role.parent_role_ids
              (normalize_id role_id ∷ []) (add (normalize_id role_id) [])
              (count-single i (normalize_id role_id)))
      ])

-- What an update of a stored role returns, by its two tests.
update_outcomes :
    (now : ℕ) (payload : UpdateRolePayload) (m : RoleManager) (role : RoleDefinition)
    → get (normalize_id payload.role_id) m.roles ≡ some role
    → let r = (update_role now payload m).0 in
      (r ≡ throws "ROLE_NOT_FOUND")
      ⊎ (r ≡ throws "ROLE_CANNOT_INHERIT_ITSELF")
      ⊎ (r ≡ ok (updated now payload role))
unfolding update_role self_references
update_outcomes now payload m role at =
    let id = normalize_id payload.role_id in
    let role' = updated now payload role in
    let once = lineage_once id id (set id role' m.roles) in
    let calm : ltb 1 (self_references id role' m.roles) ≡ false = ground arith in
    elim (Option-cases (first_missing role'.parent_role_ids m.roles)) [
      | inr (j, missing) ↦ inl (ground arith)
      | inl complete ↦ elim (Bool-cases (has id role'.parent_role_ids)) [
        | inl own ↦ inr (inl (ground arith))
        | inr other ↦ inr (inr (ground arith))
      ]
    ]

update_absent :
    (now : ℕ) (payload : UpdateRolePayload) (m : RoleManager)
    → get (normalize_id payload.role_id) m.roles ≡ none
    → (update_role now payload m).0 ≡ throws "ROLE_NOT_FOUND"
unfolding update_role
update_absent now payload m absent = rw absent refl

throws_differ :
    (a b : String) → (a == b) ≡ false → (r : Outcome RoleDefinition) → r ≡ throws a → r ≢ throws b
throws_differ a b apart r at at' =
    let same : a ≡ b = cc (at, at') in cc (apart, (eq_iff a b).1 same)

-- No update is ever refused because the inheritance has a cycle.
pub cycle_never_refused :
    (now : ℕ) (payload : UpdateRolePayload) (m : RoleManager)
    → (update_role now payload m).0 ≢ throws "ROLE_INHERITANCE_CYCLE"
cycle_never_refused now payload m e =
    elim (Option-cases (get (normalize_id payload.role_id) m.roles)) [
      | inl absent ↦
          throws_differ "ROLE_NOT_FOUND" "ROLE_INHERITANCE_CYCLE" refl _
            (update_absent now payload m absent) e
      | inr (role, at) ↦ elim (update_outcomes now payload m role at) [
        | inl t ↦ throws_differ "ROLE_NOT_FOUND" "ROLE_INHERITANCE_CYCLE" refl _ t e
        | inr (inl t) ↦
            throws_differ "ROLE_CANNOT_INHERIT_ITSELF" "ROLE_INHERITANCE_CYCLE" refl _ t e
        | inr (inr t) ↦ cc (sym t ∙ e)
      ]
    ]
