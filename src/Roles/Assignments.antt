-- ===== src/Roles/Assignments.antt =====
-- Assignments of roles to subjects: what a revocation takes back, and what it misses.
use current_dao_contracts.Base.{
  ℕ, length, ℤ, ◌≡◌, ◌≢◌, refl, ap, ◌∙◌, String, Option, none, some, arith, eqb, get, set, delete,
  IsKeyed, get-set_self, get-set_ne, get-delete_self, ok, inl, inr, Bool-cases, Option-cases,
}
use current_dao_contracts.Acl.{normalize_id, seconds, non_empty}
use current_dao_contracts.Roles.Defs.{
  RoleDefinition, RoleAssignment, RoleManager, assignments_of, assign_role, without_assignment,
  revoke_role,
}

-- The assignment that `assignRole` makes.
abbrev pub assignment_of : ℕ → String → String → String → Option String → Option ℤ → RoleAssignment
assignment_of now subject role_id actor reason expires_at = record {
  subject = subject;
  role_id = normalize_id role_id;
  assigned_by = actor;
  assigned_at = seconds now;
  expires_at = expires_at;
  reason = non_empty reason;
}

-- The manager after it.
abbrev assigned : String → String → RoleAssignment → RoleManager → RoleManager
assigned subject key a m = record m {
  assignments = set subject (set key a (assignments_of subject m)) m.assignments;
}

assign_writes :
    (now : ℕ) (subject id actor : String) (reason : Option String) (expires_at : Option ℤ)
    (m : RoleManager) (role : RoleDefinition)
    → get (normalize_id id) m.roles ≡ some role
    → let a = assignment_of now subject id actor reason expires_at in
      assign_role now subject id actor reason expires_at m ≡ (ok a, assigned subject id a m)
unfolding assign_role
assign_writes now subject id actor reason expires_at m role at = ground arith

own-assigned :
    (subject key : String) (a : RoleAssignment) (m : RoleManager)
    → assignments_of subject (assigned subject key a m) ≡ set key a (assignments_of subject m)
own-assigned subject key a m =
    rw (get-set_self subject (set key a (assignments_of subject m)) m.assignments) refl

without_assignment-gone :
    (subject key : String) (m : RoleManager)
    → IsKeyed m.assignments
    → IsKeyed (assignments_of subject m)
    → get key (assignments_of subject (without_assignment subject key m)) ≡ none
unfolding without_assignment
without_assignment-gone subject key m outer inner =
    let rest = delete key (assignments_of subject m) in
    elim (Bool-cases (eqb (length rest) 0)) [
      | inl empty ↦ rw empty (rw (get-delete_self subject m.assignments outer) refl)
      | inr more ↦ rw more (
          rw (get-set_self subject rest m.assignments)
            (get-delete_self key (assignments_of subject m) inner))
    ]

-- A revocation gives back what is filed under the normal form of the id, and takes it away.
revoke_writes :
    (subject id : String) (found : Option RoleAssignment) (m : RoleManager)
    → get (normalize_id id) (assignments_of subject m) ≡ found
    → revoke_role subject id m ≡ (
      ok found,
      elim found [ none ↦ m | some _ ↦ without_assignment subject (normalize_id id) m ],
    )
unfolding revoke_role
revoke_writes subject id none m at = rw at refl
revoke_writes subject id (some a) m at = rw at refl

-- Revoking a role, by any spelling of its id, leaves nothing under the normal form of the id, so a
-- second revocation finds nothing. The map of assignments and the subject's own hold each key once.
pub revoke_removes :
    (subject id : String) (m : RoleManager)
    → IsKeyed m.assignments
    → IsKeyed (assignments_of subject m)
    → let m' = (revoke_role subject id m).1 in
      (get (normalize_id id) (assignments_of subject m') ≡ none)
      × (revoke_role subject id m' ≡ (ok none, m'))
revoke_removes subject id m outer inner =
    elim (Option-cases (get (normalize_id id) (assignments_of subject m))) [
      | inl absent ↦ let wrote = revoke_writes subject id none m absent in rw wrote (absent, wrote)
      | inr (a, at) ↦
          let wrote = revoke_writes subject id (some a) m at in
          let gone = without_assignment-gone subject (normalize_id id) m outer inner in
          rw wrote (
            gone,
            revoke_writes subject id none (without_assignment subject (normalize_id id) m) gone,
          )
    ]

-- A role that is assigned under an id that is not in normal form is missed by its revocation, when the
-- subject had no assignment under the normal form: nothing is revoked and the assignment stays.
pub revocation_leaves_role :
    (now : ℕ) (subject id actor : String) (reason : Option String) (expires_at : Option ℤ)
    (m : RoleManager) (role : RoleDefinition)
    → get (normalize_id id) m.roles ≡ some role
    → id ≢ normalize_id id
    → get (normalize_id id) (assignments_of subject m) ≡ none
    → let m' = (assign_role now subject id actor reason expires_at m).1 in
      (revoke_role subject id m' ≡ (ok none, m'))
      × (get id (assignments_of subject m')
          ≡ some (assignment_of now subject id actor reason expires_at))
revocation_leaves_role now subject id actor reason expires_at m role at apart free =
    let a = assignment_of now subject id actor reason expires_at in
    let m' = assigned subject id a m in
    let wrote = assign_writes now subject id actor reason expires_at m role at in
    let own = own-assigned subject id a m in
    let missing : get (normalize_id id) (assignments_of subject m') ≡ none =
      ap (get (normalize_id id)) own
      ∙ get-set_ne id (normalize_id id) a (assignments_of subject m) apart
      ∙ free in
    rw wrote (
      revoke_writes subject id none m' missing,
      ap (get id) own ∙ get-set_self id a (assignments_of subject m),
    )
