-- ===== src/Roles/Merged.antt =====
-- What the roles of a subject give it.
use mathlib.Core.List.{Memᴰ}
use mathlib.Core.List.Memᴰ
use mathlib.Core.Path.{subst}
use current_dao_contracts.Base.{
  ◌≡◌, refl, sym, ap, ◌∙◌, ◌↔◌, ◌⊎◌, inl, inr, String, ◌==◌, eq_iff, ◌||◌, true, some, List, [],
  ◌∷◌, arith, Dict, get, Set, has, add, add_all, has-add, Option-cases, Bool-cases,
}
use current_dao_contracts.Roles.Defs.{
  RoleDefinition, RoleAssignment, collect_role_lineage, add_lineages, add_permissions,
  merge_permissions,
}

has-add_all : (b : String) (l : List String) (s : Set) → has b (add_all l s) ≡ (has b s || has b l)
unfolding add_all
has-add_all b [] s = ground arith
has-add_all b (a ∷ l) s = ground (arith, has-add_all b l (add a s), has-add a b s)

-- The roles that the assignments reach.
pub add_lineages_iff :
    (assignments : List RoleAssignment) (roles : Dict RoleDefinition) (r : String) (ids : Set)
    → (has r (add_lineages assignments roles ids) ≡ true) ↔ (
        (has r ids ≡ true)
        ⊎ ((a : RoleAssignment) × Memᴰ a assignments
            × (has r (collect_role_lineage a.role_id roles) ≡ true)))
unfolding add_lineages
add_lineages_iff [] roles r ids =
    (λ h. inl h, λ h. elim h [ inl k ↦ k | inr (a, i, _) ↦ elim i [ ] ])
add_lineages_iff (a ∷ rest) roles r ids =
    let lineage = collect_role_lineage a.role_id roles in
    let (to, from) = add_lineages_iff rest roles r (add_all lineage ids) in
    let split = has-add_all r lineage ids in
    (
      λ h. elim (to h) [
        | inr (c, i, k) ↦ inr (c, Memᴰ.tail i, k)
        | inl k ↦ elim (Bool-cases (has r ids)) [
          | inl old ↦ inl old
          | inr fresh ↦ inr (a, Memᴰ.head refl, ground arith)
        ]
      ],
      λ h. elim h [
        | inl old ↦ from (inl (ground arith))
        | inr (c, i, k) ↦ elim (Memᴰ.cases_cons i) [
          | inl e ↦
              let own : has r lineage ≡ true =
                subst (λ z. has r (collect_role_lineage z.role_id roles) ≡ true) e k in
              from (inl (ground arith))
          | inr later ↦ from (inr (c, later, k))
        ]
      ],
    )

-- One of the listed roles is stored and has the permission.
abbrev pub Lists : List String → Dict RoleDefinition → String → Type 0
Lists ids roles permission =
    (r : String) × (role : RoleDefinition) × (has r ids ≡ true)
    × (get r roles ≡ some role)
    × (has permission role.permission_ids ≡ true)

Lists-cons :
    (r : String) (ids : List String) (roles : Dict RoleDefinition) (p : String)
    → Lists (r ∷ ids) roles p ↔ (
        ((role : RoleDefinition) × (get r roles ≡ some role) × (has p role.permission_ids ≡ true))
        ⊎ Lists ids roles p)
Lists-cons r ids roles p = (
  λ (r', role, i, at, h). elim (Bool-cases (r == r')) [
    | inl same ↦
        let e : r ≡ r' = (eq_iff r r').0 same in
        let at' : get r roles ≡ some role = ap (λ k. get k roles) e ∙ at in inl (role, at', h)
    | inr other ↦ inr (r', role, ground arith, at, h)
  ],
  λ h. elim h [
    | inl (role, at, k) ↦ (r, role, ground (arith, eq_iff r r), at, k)
    | inr (r', role, i, at, k) ↦ (r', role, ground arith, at, k)
  ],
)

add_permissions_iff :
    (ids : List String) (roles : Dict RoleDefinition) (p : String) (acc : Set)
    → (has p (add_permissions ids roles acc) ≡ true) ↔ ((has p acc ≡ true) ⊎ Lists ids roles p)
unfolding add_permissions
add_permissions_iff [] roles p acc =
    (λ h. inl h, λ h. elim h [ inl k ↦ k | inr (_, _, i, _, _) ↦ absurd (ground (arith, i)) ])
add_permissions_iff (r ∷ ids) roles p acc =
    let (split, join) = Lists-cons r ids roles p in
    elim (Option-cases (get r roles)) [
      | inl absent ↦
          let (to, from) = add_permissions_iff ids roles p acc in
          rw absent (
            λ h. elim (to h) [ inl old ↦ inl old | inr k ↦ inr (join (inr k)) ],
            λ h. elim h [
              | inl old ↦ from (inl old)
              | inr k ↦ elim (split k) [
                | inl (role, at, _) ↦ absurd (ground arith)
                | inr later ↦ from (inr later)
              ]
            ],
          )
      | inr (role, at) ↦
          let (to, from) = add_permissions_iff ids roles p (add_all role.permission_ids acc) in
          let both = has-add_all p role.permission_ids acc in
          rw at (
            λ h. elim (to h) [
              | inr k ↦ inr (join (inr k))
              | inl k ↦ elim (Bool-cases (has p acc)) [
                | inl old ↦ inl old
                | inr fresh ↦ inr (join (inl (role, at, ground arith)))
              ]
            ],
            λ h. elim h [
              | inl old ↦ from (inl (ground arith))
              | inr k ↦ elim (split k) [
                | inl (role', at', h') ↦ from (inl (ground arith))
                | inr later ↦ from (inr later)
              ]
            ],
          )
    ]

-- A role of the lineage of one of the listed roles is stored and has the permission.
abbrev pub Gives : List String → Dict RoleDefinition → String → Type 0
Gives ids roles permission =
    (r : String) × (has r ids ≡ true) × Lists (collect_role_lineage r roles) roles permission

pub merged_exactly :
    (ids : List String) (roles : Dict RoleDefinition) (p : String) (acc : Set)
    → (has p (merge_permissions ids roles acc) ≡ true) ↔ ((has p acc ≡ true) ⊎ Gives ids roles p)
unfolding merge_permissions
merged_exactly [] roles p acc =
    (λ h. inl h, λ h. elim h [ inl k ↦ k | inr (_, i, _) ↦ absurd (ground (arith, i)) ])
merged_exactly (r ∷ ids) roles p acc =
    let chain = collect_role_lineage r roles in
    let (to, from) = merged_exactly ids roles p (add_permissions chain roles acc) in
    let (into, out) = add_permissions_iff chain roles p acc in
    (
      λ h. elim (to h) [
        | inr (r', i, l) ↦ inr (r', ground arith, l)
        | inl k ↦ elim (into k) [
          | inl old ↦ inl old
          | inr l ↦ inr (r, ground (arith, eq_iff r r), l)
        ]
      ],
      λ h. elim h [
        | inl old ↦ from (inl (out (inl old)))
        | inr (r', i, l) ↦ elim (Bool-cases (r == r')) [
          | inl same ↦
              let e : r' ≡ r = sym ((eq_iff r r').0 same) in
              let l' : Lists chain roles p =
                subst (λ z. Lists (collect_role_lineage z roles) roles p) e l in
              from (inl (out (inr l')))
          | inr other ↦ from (inr (r', ground arith, l))
        ]
      ],
    )
