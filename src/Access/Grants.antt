-- ===== src/Access/Grants.antt =====
-- The direct grants that match a request, and their tests.
use mathlib.Core.List.{Memᴰ}
use mathlib.Core.List.Memᴰ
use mathlib.Core.Path.{subst}
use current_dao_contracts.Base.{
  ◌≡◌, sym, ◌↔◌, ◌⊎◌, inl, inr, ℕ, Bool, true, some, List, [], ◌∷◌, arith, any, any_iff, filter_iff,
  Option-cases, Bool-cases,
}
use current_dao_contracts.Acl.{seconds}
use current_dao_contracts.Permissions.{
  AccessEffect, PermissionDefinition, PermissionManager, DirectPermissionGrant, is_current, values,
  grants_of, get_permission, get_direct_grants, permission_matches,
}
use current_dao_contracts.Permissions.Matching.{matches-Covers}
use current_dao_contracts.Access.Defs.{
  AccessRequest, AccessControlList, direct_matches, grant_matches,
}
use current_dao_contracts.Access.Rights.{GrantSays, Lasts-is_current}

-- What a direct match is.
abbrev Matches : DirectPermissionGrant → AccessRequest → PermissionManager → Type 0
Matches g q m =
    (p : PermissionDefinition) × (get_permission g.permission_id m ≡ some p)
    × (permission_matches p q.contract_id q.function_name ≡ true)

match_step :
    (g : DirectPermissionGrant) (grants : List DirectPermissionGrant) (q : AccessRequest)
    (m : PermissionManager)
    → let rest = direct_matches grants q m in
      ((direct_matches (g ∷ grants) q m ≡ g ∷ rest) × Matches g q m)
      ⊎ ((direct_matches (g ∷ grants) q m ≡ rest) × (Matches g q m → ⊥))
unfolding direct_matches
match_step g grants q m = elim (Option-cases (get_permission g.permission_id m)) [
  | inl absent ↦ inr (ground arith, λ (p, at, _). ground arith)
  | inr (p, at) ↦ elim (Bool-cases (permission_matches p q.contract_id q.function_name)) [
    | inl covers ↦ inl (ground arith, (p, at, covers))
    | inr misses ↦ inr (ground arith, λ (p', at', covers). ground arith)
  ]
]

direct_matches_iff :
    (grants : List DirectPermissionGrant) (q : AccessRequest) (m : PermissionManager)
    (g : DirectPermissionGrant)
    → Memᴰ g (direct_matches grants q m) ↔ (Memᴰ g grants × Matches g q m)
unfolding direct_matches
direct_matches_iff [] q m g = (λ i. elim i [ ], λ (i, _). elim i [ ])
direct_matches_iff (h ∷ grants) q m g =
    let (to, from) = direct_matches_iff grants q m g in
    elim (match_step h grants q m) [
      | inr (same, misses) ↦ (
        λ i. let (j, k) = to (subst (Memᴰ g) same i) in (Memᴰ.tail j, k),
        λ (i, k). elim (Memᴰ.cases_cons i) [
          | inl e ↦ absurd (misses (subst (λ z. Matches z q m) e k))
          | inr later ↦ subst (Memᴰ g) (sym same) (from (later, k))
        ],
      )
      | inl (whole, matched) ↦ (
        λ i. elim (Memᴰ.cases_cons (subst (Memᴰ g) whole i)) [
          | inl e ↦ (Memᴰ.head e, subst (λ z. Matches z q m) (sym e) matched)
          | inr later ↦ let (j, k) = to later in (Memᴰ.tail j, k)
        ],
        λ (i, k). elim (Memᴰ.cases_cons i) [
          | inl e ↦ subst (Memᴰ g) (sym whole) (Memᴰ.head e)
          | inr later ↦ subst (Memᴰ g) (sym whole) (Memᴰ.tail (from (later, k)))
        ],
      )
    ]

-- A test of the grants that match, for a test that singles out one effect.
pub grants_say :
    (effect : AccessEffect) (test : AccessEffect → Bool)
    → ((e : AccessEffect) → (test e ≡ true) ↔ (e ≡ effect))
    → (now : ℕ) (q : AccessRequest) (s : AccessControlList)
    → (any (λ (g : DirectPermissionGrant). test g.effect) (grant_matches now q s) ≡ true)
      ↔ GrantSays effect now q s
unfolding get_direct_grants get_permission
grants_say effect test singles now q s =
    let m = s.permission_manager in
    let all = values (grants_of q.subject m) in
    let keep : DirectPermissionGrant → Bool = λ g. is_current (seconds now) g.expires_at in
    let (found, put) =
      any_iff (λ (g : DirectPermissionGrant). test g.effect) (grant_matches now q s) in
    (
      λ h.
          let (g, i, t) = found h in
          let (j, (p, at, covers)) =
            (direct_matches_iff (get_direct_grants now q.subject m) q m g).0 i in
          let (k, lasts) = (filter_iff keep all g).0 j in
          (
            g,
            p,
            k,
            (Lasts-is_current (seconds now) g.expires_at).0 lasts,
            at,
            (matches-Covers q.contract_id q.function_name p).0 covers,
            (singles g.effect).0 t,
          ),
      λ (g, p, k, lasts, at, covers, e).
          let j =
            (filter_iff keep all g).1 (k, (Lasts-is_current (seconds now) g.expires_at).1 lasts) in
          let i =
            (direct_matches_iff (get_direct_grants now q.subject m) q m g).1
              (j, (p, at, (matches-Covers q.contract_id q.function_name p).1 covers)) in
          put (g, i, (singles g.effect).1 e),
    )
