-- ===== src/Permissions/Matching.antt =====
-- Which permissions a list of ids gives for a function.
use mathlib.Core.Path.{subst}
use mathlib.Core.List.{Memᴰ}
use mathlib.Core.List.Memᴰ
use current_dao_contracts.Base.{
  ◌≡◌, ◌⊎◌, ◌↔◌, refl, sym, ap, ◌∙◌, inl, inr, String, true, false, some, List, [], ◌∷◌, arith, get,
  Option-cases, Bool-cases, eq_iff,
}
use current_dao_contracts.Permissions.Defs.{
  PermissionDefinition, PermissionManager, permission_matches, match_permissions,
}

-- The permission names the contract or every contract, and the function or every function.
abbrev pub Covers : String → String → PermissionDefinition → Type 0
Covers contract_id function_name p =
    ((p.contract_id ≡ "*") ⊎ (p.contract_id ≡ contract_id))
    × ((p.function_name ≡ "*") ⊎ (p.function_name ≡ function_name))

pub matches-Covers :
    (contract_id function_name : String) (p : PermissionDefinition)
    → (permission_matches p contract_id function_name ≡ true) ↔ Covers contract_id function_name p
unfolding permission_matches
matches-Covers c f p = (
  λ h. ground (
    arith,
    eq_iff p.contract_id "*",
    eq_iff p.contract_id c,
    eq_iff p.function_name "*",
    eq_iff p.function_name f,
  ),
  λ h. ground (
    arith,
    eq_iff p.contract_id "*",
    eq_iff p.contract_id c,
    eq_iff p.function_name "*",
    eq_iff p.function_name f,
  ),
)

module _ (contract_id function_name : String) (m : PermissionManager) where
  -- An id gives nothing when no permission is stored under it, or one that does not cover the function.
  match_step :
      (id : String) (ids : List String)
      → let rest = match_permissions ids contract_id function_name m in
        let all = match_permissions (id ∷ ids) contract_id function_name m in
        ((all ≡ rest)
          × ((q : PermissionDefinition)
              → get id m.permissions ≡ some q
              → permission_matches q contract_id function_name ≡ false))
        ⊎ ((q : PermissionDefinition) × (get id m.permissions ≡ some q)
            × (permission_matches q contract_id function_name ≡ true)
            × (all ≡ q ∷ rest))
  unfolding match_permissions
  match_step id ids = elim (Option-cases (get id m.permissions)) [
    | inl absent ↦ inl (ground arith, λ q at. ground arith)
    | inr (q, at) ↦ elim (Bool-cases (permission_matches q contract_id function_name)) [
      | inl covers ↦ inr (q, at, covers, ground arith)
      | inr misses ↦ inl (ground arith, λ r at'. ground arith)
    ]
  ]

  match_sound :
      (ids : List String) (p : PermissionDefinition)
      → Memᴰ p (match_permissions ids contract_id function_name m)
      → (id : String) × Memᴰ id ids
        × (get id m.permissions ≡ some p)
        × (permission_matches p contract_id function_name ≡ true)
  unfolding match_permissions
  match_sound [] p i = elim (Memᴰ.not-nil i) [ ]
  match_sound (id ∷ ids) p i = elim (match_step id ids) [
    | inl (same, _) ↦
        let (j, k, at, covers) = match_sound ids p (subst (Memᴰ p) same i) in
        (j, Memᴰ.tail k, at, covers)
    | inr (q, at, covers, all) ↦ elim (Memᴰ.cases_cons (subst (Memᴰ p) all i)) [
      | inl e ↦ (id, Memᴰ.head refl, at ∙ ap some (sym e), rw e covers)
      | inr later ↦
          let (j, k, at', covers') = match_sound ids p later in (j, Memᴰ.tail k, at', covers')
    ]
  ]

  match_complete :
      (id : String) (ids : List String) (p : PermissionDefinition)
      → Memᴰ id ids
      → get id m.permissions ≡ some p
      → permission_matches p contract_id function_name ≡ true
      → Memᴰ p (match_permissions ids contract_id function_name m)
  match_complete id [] p i at covers = elim i [ ]
  match_complete id (j ∷ ids) p (Memᴰ.head e) at covers = elim (match_step j ids) [
    | inl (_, misses) ↦
        let here : get j m.permissions ≡ some p = cc (at, e) in
        let no : permission_matches p contract_id function_name ≡ false = misses p here in
        cc (covers, no)
    | inr (q, at', _, all) ↦
        let t : p ≡ q = cc (at, at', e) in subst (Memᴰ p) (sym all) (Memᴰ.head t)
  ]
  match_complete id (j ∷ ids) p (Memᴰ.tail k) at covers =
      let later = match_complete id ids p k at covers in
      elim (match_step j ids) [
        | inl (same, _) ↦ subst (Memᴰ p) (sym same) later
        | inr (q, _, _, all) ↦ subst (Memᴰ p) (sym all) (Memᴰ.tail later)
      ]

  -- A permission is among the matches exactly when it is stored under one of the ids, its contract is
  -- the contract asked for or "*", and its function is the function asked for or "*".
  pub matches_exactly :
      (ids : List String) (p : PermissionDefinition)
      → Memᴰ p (match_permissions ids contract_id function_name m) ↔ (
          (id : String) × Memᴰ id ids
          × (get id m.permissions ≡ some p)
          × Covers contract_id function_name p)
  matches_exactly ids p = (
    λ i.
        let (id, k, at, covers) = match_sound ids p i in
        (id, k, at, (matches-Covers contract_id function_name p).0 covers),
    λ (id, k, at, covers).
        match_complete id ids p k at ((matches-Covers contract_id function_name p).1 covers),
  )
