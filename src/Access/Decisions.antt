-- ===== src/Access/Decisions.antt =====
-- When access is granted.
use current_dao_contracts.Base.{
  ℕ, String, eq_iff, true, false, ◌||◌, some, List, [], ◌∷◌, ◌++◌, has, ◌≡◌, ap, ◌↔◌, arith, ok,
  inl, inr, ◌⊎◌, Bool, Bool-cases,
}
use current_dao_contracts.Acl.{seconds}
use current_dao_contracts.Permissions.{allow, deny}
use current_dao_contracts.Access.Rights.{GrantSays, RoleSays}
use current_dao_contracts.Access.Held.{tests_say}
use current_dao_contracts.Access.Defs.{
  AccessRequest, AccessDecision, AccessControlList, EmergencyState, access_check, or_subject,
  build_permission_key, decide, build_decision, build_denied_decision, has_access, grant_matches,
  role_matches, is_locked, any_grant_denies, any_grant_allows, any_role_denies, any_role_allows,
}
use current_dao_contracts.Access.Emergency.{
  EmergencyActionPayload, lock_function, is_emergency_authorized, key_of, act,
  execute_emergency_action,
}

-- The decision by the tests of the code.
decided :
    (now : ℕ) (q : AccessRequest) (s : AccessControlList) (d : AccessDecision)
    → (has_access now q s).0 ≡ ok d
    → (d.allowed ≡ true) ↔ (
        (s.emergency_state.active ≡ false)
        × (is_locked q s ≡ false)
        × (any_grant_denies (grant_matches now q s) ≡ false)
        × (any_role_denies (role_matches now q s) ≡ false)
        × ((any_grant_allows (grant_matches now q s) || any_role_allows (role_matches now q s))
            ≡ true))
unfolding has_access decide build_decision build_denied_decision
decided now q s d done = (λ granted. ground arith, λ h. ground arith)

-- What a check writes.
recorded :
    (now : ℕ) (q : AccessRequest) (s : AccessControlList) (d : AccessDecision)
    → (has_access now q s).0 ≡ ok d
    → (has_access now q s).1 ≡ record s {
      access_measurements =
          s.access_measurements
          ++ (record { gas_estimate = d.gas_estimate; timestamp = seconds now } ∷ []);
      audit_trail =
          s.audit_trail
          ++ (record {
            action = access_check;
            actor = or_subject q.actor q.subject;
            success = d.allowed;
            reason = d.reason;
            timestamp = seconds now;
            subject = some q.subject;
            contract_id = some q.contract_id;
            function_name = some q.function_name;
            target_id = some (build_permission_key q.contract_id q.function_name);
          }
              ∷ []);
    }
unfolding has_access decide build_decision build_denied_decision
recorded now q s d done = ground arith

false_or_not : (b : Bool) {P : Type 0} → (b ≡ true) ↔ P → (b ≡ false) ↔ (¬ P)
false_or_not b (to, from) = (λ h p. ground (arith, from p), λ h. ground arith)

-- An access check that returns allows the access exactly when no lockdown is active, neither the key of
-- the function nor that of the whole contract is locked, no direct grant of the subject and no
-- permission of its roles denies, and one of them allows. A grant counts while it lasts, when its
-- permission is stored and covers the request by name or "*"; a permission counts when a role of the
-- lineage of a role that the subject has lists it, and it is stored and covers the request. The check
-- adds one measurement and one entry of the audit trail, with the answer and its reason, and changes
-- nothing else.
pub access_exactly :
    (now : ℕ) (q : AccessRequest) (s : AccessControlList) (d : AccessDecision)
    → (has_access now q s).0 ≡ ok d
    → ((d.allowed ≡ true) ↔ (
        (s.emergency_state.active ≡ false)
        × (has
              (build_permission_key q.contract_id q.function_name)
              s.emergency_state.locked_functions
            ≡ false)
        × (has (build_permission_key q.contract_id "*") s.emergency_state.locked_functions ≡ false)
        × (¬ GrantSays deny now q s)
        × (¬ RoleSays deny now q s)
        × (GrantSays allow now q s ⊎ RoleSays allow now q s)))
      × ((has_access now q s).1 ≡ record s {
        access_measurements =
            s.access_measurements
            ++ (record { gas_estimate = d.gas_estimate; timestamp = seconds now } ∷ []);
        audit_trail =
            s.audit_trail
            ++ (record {
              action = access_check;
              actor = or_subject q.actor q.subject;
              success = d.allowed;
              reason = d.reason;
              timestamp = seconds now;
              subject = some q.subject;
              contract_id = some q.contract_id;
              function_name = some q.function_name;
              target_id = some (build_permission_key q.contract_id q.function_name);
            }
                ∷ []);
      })
access_exactly now q s d done =
    let (to, from) = decided now q s d done in
    let (gd, ga, rd, ra) = tests_say now q s in
    let no_grant = false_or_not (any_grant_denies (grant_matches now q s)) gd in
    let no_role = false_or_not (any_role_denies (role_matches now q s)) rd in
    (
      (
        λ granted.
            let (running, unlocked, g, r, allows) = to granted in
            (
              running,
              ground arith,
              ground arith,
              no_grant.0 g,
              no_role.0 r,
              elim (Bool-cases (any_grant_allows (grant_matches now q s))) [
                | inl by_grant ↦ inl (ga.0 by_grant)
                | inr not_grant ↦ inr (ra.0 (ground arith))
              ],
            ),
        λ (running, function_open, contract_open, g, r, allows). from (
          running,
          ground arith,
          no_grant.1 g,
          no_role.1 r,
          elim allows [
            | inl by_grant ↦ let k = ga.1 by_grant in ground arith
            | inr by_role ↦ let k = ra.1 by_role in ground arith
          ],
        ),
      ),
      recorded now q s d done,
    )

has-append_self : (a : String) (l : List String) → has a (l ++ (a ∷ [])) ≡ true
has-append_self a [] = ground (arith, eq_iff a a)
has-append_self a (b ∷ l) = ground (arith, has-append_self a l)

-- When an emergency action that locks a function returns, its actor is authorised, and every access
-- check of that function in the state it leaves, for whichever subject, answers no or throws.
pub lock_blocks :
    (now later : ℕ) (payload : EmergencyActionPayload) (actor : String) (s : AccessControlList)
    (r : EmergencyState) (q : AccessRequest) (d : AccessDecision)
    → payload.action ≡ lock_function
    → q.contract_id ≡ payload.contract_id
    → q.function_name ≡ payload.function_name
    → (execute_emergency_action now payload actor s).0 ≡ ok r
    → let s' = (execute_emergency_action now payload actor s).1 in
      (is_emergency_authorized now actor s ≡ true)
      × ((has_access later q s').0 ≡ ok d → d.allowed ≡ false)
unfolding execute_emergency_action act
lock_blocks now later payload actor s r q d locks same_contract same_function done =
    let s' = (execute_emergency_action now payload actor s).1 in
    let key = key_of payload in
    let put_in = has-append_self key s.emergency_state.locked_functions in
    let held : has key s'.emergency_state.locked_functions ≡ true = ground arith in
    let named : build_permission_key q.contract_id q.function_name ≡ key =
      cc (same_contract, same_function) in
    let locked : is_locked q s' ≡ true =
      ground (arith, ap (λ k. has k s'.emergency_state.locked_functions) named) in
    (
      ground arith,
      λ answered.
          let exactly = decided later q s' d answered in
          elim (Bool-cases d.allowed) [
            | inr refused ↦ refused
            | inl granted ↦ let (_, unlocked, _, _, _) = exactly.0 granted in cc (locked, unlocked)
          ],
    )
