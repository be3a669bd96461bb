-- ===== src/Policy/Demands.antt =====
-- internal/controlplane/core/approvalpolicy/capacity_policy.go: what the blocks of the evaluation ask for,
-- and what comes of it together.
use Prim.Native.Char.{Char}
use legator.Common.{
  Bool, true, false, ◌&&◌, ◌||◌, ◌≡◌, ◌≢◌, ◌↔◌, ◌∙◌, ◌⊎◌, inl, inr, refl, sym, ap, List, [], ◌∷◌,
  arith, str_eq, eq_iff, if◌then◌else◌,
}
use legator.Policy.Lane.{CommandPolicyGateOutcome, allowed, blocked}
use legator.Policy.Capacity.{
  CommandPolicyDecisionOutcome, allow, deny, queue, decision_outcome_from_gate,
  merge_decision_outcome, Float64, CapacityThresholds, CapacitySignals, CommandPolicyDecision,
}
use legator.Policy.Decision.{
  is_deny, Check, skipped, noted, struck, apply_check, apply_checks, add_indicator,
}
use legator.Policy.Evaluate.{
  seen_availability, availability_check, datasource_check, dashboard_check, query_check,
  partial_check, capacity_checks,
}
use legator.Policy.Outcome.{outcome-merge}

merge-deny :
    (a b : CommandPolicyDecisionOutcome)
    → (merge_decision_outcome a b ≡ deny) ↔ ((a ≡ deny) ⊎ (b ≡ deny))
unfolding merge_decision_outcome
merge-deny a b = (λ h. ground arith, λ h. ground arith)

merge-allow :
    (a b : CommandPolicyDecisionOutcome)
    → (merge_decision_outcome a b ≡ allow) ↔ ((a ≡ allow) × (b ≡ allow))
unfolding merge_decision_outcome
merge-allow a b = (λ h. ground arith, λ h. ground arith)

pub deny-ne-allow : deny ≢ allow
deny-ne-allow h = cc

pub gate-deny :
    (gate : CommandPolicyGateOutcome) → decision_outcome_from_gate gate ≡ deny → gate ≡ blocked
unfolding decision_outcome_from_gate
gate-deny gate h = ground arith

pub deny-gate :
    (gate : CommandPolicyGateOutcome) → gate ≡ blocked → decision_outcome_from_gate gate ≡ deny
unfolding decision_outcome_from_gate
deny-gate gate h = ground arith

pub gate-allow :
    (gate : CommandPolicyGateOutcome) → decision_outcome_from_gate gate ≡ allow → gate ≡ allowed
unfolding decision_outcome_from_gate
gate-allow gate h = ground arith

pub allow-gate :
    (gate : CommandPolicyGateOutcome) → gate ≡ allowed → decision_outcome_from_gate gate ≡ allow
unfolding decision_outcome_from_gate
allow-gate gate h = ground arith

if_not {ℓ} : {A : Type ℓ} (x y : A) (b : Bool) → ¬ (b ≡ true) → (if b then x else y) ≡ y
if_not x y true h = absurd (h refl)
if_not x y false h = refl

if_not_both {ℓ} :
    {A : Type ℓ} (x y : A) (a b : Bool) → (a ≡ true → b ≡ true → ⊥) → (if a && b then x else y) ≡ y
if_not_both x y true true h = absurd (h refl refl)
if_not_both x y true false h = refl
if_not_both x y false b h = refl

five_allow :
    (o a d b q p : CommandPolicyDecisionOutcome)
    → merge_decision_outcome
        (merge_decision_outcome
          (merge_decision_outcome (merge_decision_outcome (merge_decision_outcome o a) d) b)
          q)
        p
      ≡ allow
    → (o ≡ allow) × (a ≡ allow) × (d ≡ allow) × (b ≡ allow) × (q ≡ allow)
five_allow o a d b q p h =
    let (o1, _) = (merge-allow _ p).0 h in
    let (o2, eq) = (merge-allow _ q).0 o1 in
    let (o3, eb) = (merge-allow _ b).0 o2 in
    let (o4, ed) = (merge-allow _ d).0 o3 in
    let (o5, ea) = (merge-allow o a).0 o4 in (o5, ea, ed, eb, eq)

merge_allow_right : (a : CommandPolicyDecisionOutcome) → merge_decision_outcome a allow ≡ a
unfolding merge_decision_outcome
merge_allow_right a = ground arith

merge_denied :
    (a b : CommandPolicyDecisionOutcome) → is_deny a ≡ true → a ≡ merge_decision_outcome a b
unfolding merge_decision_outcome
merge_denied a b h = ground arith

module _ {F : Type 0} where
  -- The outcome that a block asks for.
  abbrev demand : Check F → CommandPolicyDecisionOutcome
  demand skipped = allow
  demand (noted i) = allow
  demand (struck i severity effect reason message) = effect

  abbrev demands : List (Check F) → CommandPolicyDecisionOutcome → CommandPolicyDecisionOutcome
  demands [] o = o
  demands (c ∷ cs) o = demands cs (merge_decision_outcome o (demand c))

  pub outcome-apply_check :
      (c : Check F) (d : CommandPolicyDecision F)
      → (apply_check c d).outcome ≡ merge_decision_outcome d.outcome (demand c)
  unfolding apply_check add_indicator
  outcome-apply_check skipped d = sym (merge_allow_right d.outcome)
  outcome-apply_check (noted i) d = sym (merge_allow_right d.outcome)
  outcome-apply_check (struck i severity effect reason message) d = outcome-merge d effect reason

  pub outcome-apply_checks :
      (cs : List (Check F)) (d : CommandPolicyDecision F)
      → (apply_checks cs d).outcome ≡ demands cs d.outcome
  unfolding apply_checks
  outcome-apply_checks [] d = refl
  outcome-apply_checks (c ∷ cs) d =
      outcome-apply_checks cs (apply_check c d) ∙ ap (demands cs) (outcome-apply_check c d)

  module _ (fl : Float64 F) (lower : Char → Char) (t : CapacityThresholds F)
      (c : CapacitySignals F) where
    -- The capacity is degraded, or there are too few datasources.
    abbrev pub IsRefused : Type 0
    IsRefused =
        (seen_availability fl lower t c ≡ "degraded")
        ⊎ (fl.lt (fl.of_int c.datasource_count) (fl.of_int t.min_datasource_count) ≡ true)

    -- The capacity is limited, or a coverage above zero is below its threshold.
    abbrev pub IsPostponed : Type 0
    IsPostponed =
        (seen_availability fl lower t c ≡ "limited")
        ⊎ (seen_availability fl lower t c ≡ "insufficient")
        ⊎ (fl.lt fl.nought c.dashboard_coverage ≡ true)
          × (fl.lt c.dashboard_coverage t.min_dashboard_coverage ≡ true)
        ⊎ (fl.lt fl.nought c.query_coverage ≡ true)
          × (fl.lt c.query_coverage t.min_query_coverage ≡ true)

    demand-availability_check : demand (availability_check fl lower t c) ≡ (
        if str_eq (seen_availability fl lower t c) "degraded"
        then deny
        else if str_eq (seen_availability fl lower t c) "limited"
            || str_eq (seen_availability fl lower t c) "insufficient"
        then queue
        else allow)
    unfolding availability_check
    demand-availability_check = ground arith

    demand-datasource_check : demand (datasource_check fl lower t c) ≡ (
        if fl.lt (fl.of_int c.datasource_count) (fl.of_int t.min_datasource_count)
        then deny
        else allow)
    unfolding datasource_check
    demand-datasource_check = ground arith

    demand-dashboard_check : demand (dashboard_check fl lower t c) ≡ (
        if fl.lt fl.nought c.dashboard_coverage
          && fl.lt c.dashboard_coverage t.min_dashboard_coverage
        then queue
        else allow)
    unfolding dashboard_check
    demand-dashboard_check = ground arith

    demand-query_check : demand (query_check fl lower t c) ≡ (
        if fl.lt fl.nought c.query_coverage && fl.lt c.query_coverage t.min_query_coverage
        then queue
        else allow)
    unfolding query_check
    demand-query_check = ground arith

    demand-partial_check : demand (partial_check fl lower t c) ≡ allow
    unfolding partial_check
    demand-partial_check = ground arith

    pub capacity_refuses :
        (o : CommandPolicyDecisionOutcome)
        → (demands (capacity_checks fl lower t c) o ≡ deny) ↔ ((o ≡ deny) ⊎ IsRefused)
    unfolding capacity_checks merge_decision_outcome
    capacity_refuses o =
        rw
          (
            demand-availability_check, demand-datasource_check, demand-dashboard_check,
            demand-query_check, demand-partial_check,
          )
          (
            λ h. ground (arith, eq_iff (seen_availability fl lower t c) "degraded"),
            λ h. ground (arith, eq_iff (seen_availability fl lower t c) "degraded"),
          )

    availability_allows : (demand (availability_check fl lower t c) ≡ allow) ↔ (
        (seen_availability fl lower t c ≢ "degraded")
        × (seen_availability fl lower t c ≢ "limited")
        × (seen_availability fl lower t c ≢ "insufficient"))
    availability_allows =
        let seen = seen_availability fl lower t c in
        rw demand-availability_check (
          λ h.
              ground
                (arith, eq_iff seen "degraded", eq_iff seen "limited", eq_iff seen "insufficient"),
          λ h.
              ground
                (arith, eq_iff seen "degraded", eq_iff seen "limited", eq_iff seen "insufficient"),
        )

    pub capacity_allows :
        (o : CommandPolicyDecisionOutcome)
        → (demands (capacity_checks fl lower t c) o ≡ allow)
          ↔ ((o ≡ allow) × (¬ IsRefused) × (¬ IsPostponed))
    unfolding capacity_checks merge_decision_outcome
    capacity_allows o = (to, from)
      where
        to :
            demands (capacity_checks fl lower t c) o ≡ allow
            → (o ≡ allow) × (¬ IsRefused) × (¬ IsPostponed)
        to h =
            let (o', a, d, b, q) =
              five_allow o (demand (availability_check fl lower t c))
                (demand (datasource_check fl lower t c)) (demand (dashboard_check fl lower t c))
                (demand (query_check fl lower t c)) (demand (partial_check fl lower t c)) h in
            let a' = availability_allows.0 a in
            let d' = rw demand-datasource_check at d in
            let b' = rw demand-dashboard_check at b in
            let q' = rw demand-query_check at q in
            (o', λ x. elim x [ inl e ↦ a'.0 e | inr e ↦ ground arith ], λ x. ground arith)

        from :
            (o ≡ allow) × (¬ IsRefused) × (¬ IsPostponed)
            → demands (capacity_checks fl lower t c) o ≡ allow
        from h =
            let a =
              availability_allows.1 (λ e. h.1 (inl e), λ e. h.2 (inl e), λ e. h.2 (inr (inl e))) in
            let d : demand (datasource_check fl lower t c) ≡ allow =
              rw demand-datasource_check (if_not _ _ _ (λ e. h.1 (inr e))) in
            let b : demand (dashboard_check fl lower t c) ≡ allow =
              rw demand-dashboard_check
                (if_not_both _ _ _ _ (λ e f. h.2 (inr (inr (inl (e, f)))))) in
            let q : demand (query_check fl lower t c) ≡ allow =
              rw demand-query_check (if_not_both _ _ _ _ (λ e f. h.2 (inr (inr (inr (e, f)))))) in
            rw (h.0, a, d, b, q, demand-partial_check) refl
