-- ===== src/Outcomes/Contract.antt =====
-- `contract` of scripts/outcomes.py: the outcome contract of a goal against sampled counts.
use air2lean.Base.{
  ℕ, String, ◌≡◌, ◌≢◌, ◌↔◌, Bool, true, false, ◌&&◌, not, List, [], arith, if◌then◌else◌,
  Bool-cases, inl, inr, is_empty, is_empty→eq, not-is_empty→ne,
}
use mathlib.Core.Path.{subst}
use air2lean.Base.Result.{Result, ok, ◌>>=◌, ok-injective, >>=-eq-ok}
use air2lean.Json.{Json, null}
use air2lean.Outcomes.{
  Outcome, outcomes, value, OutcomeSet, incomplete, contract_outcomes, Counts, counted, counts_in,
}
use air2lean.Outcomes.Sets.{counts_in-none, counts_in-some}
use air2lean.Outcomes.Admits.{AdmitError, contract_admits}

pub data Verdict : Type 0 where
  refuted unassessed not_refuted no_evidence : Verdict

pub record Contract : Type 0 where
  pub admits : OutcomeSet
  pub is_declared : Bool
  pub observed : Counts
  pub violations : List (Outcome × ℕ)
  pub unassessed_by : List (Outcome × ℕ)
  pub status : Verdict

is_null : Json → Bool
is_null null = true
is_null _ = false

verdict : List (Outcome × ℕ) → List (Outcome × ℕ) → Counts → Verdict
verdict violations unassessed_by counts =
    if not (is_empty violations)
    then refuted
    else if not (is_empty unassessed_by)
    then unassessed
    else if not (is_empty counts)
    then not_refuted
    else no_evidence

-- The contract of a goal that admits `admitted`.
assessed : OutcomeSet → Bool → Counts → Contract
unfolding verdict
assessed admitted is_declared counts =
    let violations = counts_in (λ o. contract_outcomes o && not (admitted o)) counts outcomes in
    let unassessed_by = counts_in incomplete counts outcomes in
    record {
      admits = admitted;
      is_declared = is_declared;
      observed = counts;
      violations = violations;
      unassessed_by = unassessed_by;
      status = verdict violations unassessed_by counts;
    }

unfoldable pub contract : String → Json → Counts → Result AdmitError Contract
unfolding is_null assessed
contract strength declared counts = do
  admitted ← contract_admits strength declared
  ok (assessed admitted (not (is_null declared)) counts)

-- Some outcome with a positive count lies in the class.
abbrev pub Observed : OutcomeSet → Counts → Type 0
Observed s counts = (o : Outcome) × (s o ≡ true) × (counted counts (value o) ≢ 0)

-- What each verdict says of the counts, for the outcomes that the contract admits.
pub record IsExact (counts : Counts) (r : Contract) : Type 0 where
  pub refutes :
      (r.status ≡ refuted) ↔ Observed (λ o. contract_outcomes o && not (r.admits o)) counts
  pub confirms :
      r.status ≡ not_refuted → (o : Outcome) → counted counts (value o) ≢ 0 → r.admits o ≡ true
  pub blocked : r.status ≡ unassessed → Observed incomplete counts
  pub silent : r.status ≡ no_evidence → counts ≡ []

module _ (admitted : OutcomeSet) (is_declared : Bool) (counts : Counts) where
  abbrev outside : OutcomeSet
  outside o = contract_outcomes o && not (admitted o)

  abbrev violated : List (Outcome × ℕ)
  violated = counts_in outside counts outcomes

  abbrev open_ended : List (Outcome × ℕ)
  open_ended = counts_in incomplete counts outcomes

  Observed→violated : Observed outside counts → is_empty violated ≡ false
  Observed→violated (o, inside, seen) = elim (Bool-cases (is_empty violated)) [
    | inl e ↦ absurd (seen (counts_in-none outside counts (is_empty→eq violated e) o inside))
    | inr n ↦ n
  ]

  admitted-of_clean :
      is_empty violated ≡ true
      → is_empty open_ended ≡ true
      → (o : Outcome) → counted counts (value o) ≢ 0
      → admitted o ≡ true
  unfolding contract_outcomes
  admitted-of_clean v u o seen = elim (Bool-cases (admitted o)) [
    | inl a ↦ a
    | inr a ↦ elim (Bool-cases (incomplete o)) [
      | inl i ↦ absurd (seen (counts_in-none incomplete counts (is_empty→eq open_ended u) o i))
      | inr i ↦
          absurd (seen (counts_in-none outside counts (is_empty→eq violated v) o (ground arith)))
    ]
  ]

  assessed-IsExact : IsExact counts (assessed admitted is_declared counts)
  unfolding assessed
  assessed-IsExact = record {
    refutes = (
      λ h. counts_in-some outside counts outcomes (not-is_empty→ne violated (ground arith)),
      λ h. rw (Observed→violated h),
    );
    confirms = λ h o seen. admitted-of_clean (ground arith) (ground arith) o seen;
    blocked =
        λ h. counts_in-some incomplete counts outcomes (not-is_empty→ne open_ended (ground arith));
    silent = λ h. is_empty→eq counts (ground arith);
  }

-- A contract is refuted exactly when an outcome of a program that it does not admit was counted; it
-- is not refuted only when every counted outcome is admitted, unassessed only when an incomplete
-- class was counted, and has no evidence only when the counts are empty.
pub contract-IsExact :
    (strength : String) (declared : Json) (counts : Counts) {r : Contract}
    → contract strength declared counts ≡ ok r
    → IsExact counts r
unfolding contract
contract-IsExact strength declared counts h =
    let (admitted, _, e) = >>=-eq-ok (contract_admits strength declared) _ h in
    subst (IsExact counts) (ok-injective e)
      (assessed-IsExact admitted (not (is_null declared)) counts)
