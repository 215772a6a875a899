-- ===== src/Outcomes/Audit/Sound.antt =====
-- What the verdicts of `theorem_contract` say (scripts/outcomes.py).
use mathlib.Core.Path.{subst}
use air2lean.Base.{
  String, ◌≡◌, ◌≢◌, refl, Option, none, some, Bool, true, false, ◌&&◌, not, List, arith, Bool-cases,
  Option-cases, inl, inr,
}
use air2lean.Base.Result.{ok, ok-injective, >>=-eq-ok}
use air2lean.Json.{listed, Json, Fields, null, bool, str, obj, get}
use air2lean.Outcomes.{Outcome, divergence, value, OutcomeSet, nonempty, incomplete}
use air2lean.Outcomes.Admits.{
  known, contract_admits, contract_admits-MayAdmit, named, nonempty-true, nonempty-some,
  subset_of_empty,
}
use air2lean.Outcomes.Audit.{
  rejected, under_claim, verified, TheoremContract, Audit, read_audit, audit_of, valid_list,
  permitted, scope_of, concurrent_of, can_return, compared, explicit, against, audit_in,
  theorem_contract,
}

-- A verified contract admits exactly what the theorem permits; a wider one is an under-claim.
pub record IsSound (r : TheoremContract) : Type 0 where
  pub exact :
      r.status ≡ verified
      → (p : OutcomeSet) × (r.theorem_admits ≡ some p) × ((o : Outcome) → r.admits o ≡ p o)
  pub wider :
      r.status ≡ under_claim
      → (p : OutcomeSet) × (r.theorem_admits ≡ some p)
        × ((o : Outcome) → p o ≡ true → r.admits o ≡ true)
        × ((o : Outcome) × (r.admits o ≡ true) × (p o ≡ false))

-- Two sets with nothing outside one another have the same members.
same_members :
    (p q : OutcomeSet) (o : Outcome)
    → nonempty (λ x. p x && not (q x)) ≡ false
    → nonempty (λ x. q x && not (p x)) ≡ false
    → q o ≡ p o
same_members p q o m e = ground (arith, subset_of_empty p q o m, subset_of_empty q p o e)

extra_of :
    (p q : OutcomeSet)
    → nonempty (λ x. q x && not (p x)) ≡ true
    → (o : Outcome) × (q o ≡ true) × (p o ≡ false)
extra_of p q h =
    let (o, e) = nonempty-some (λ x. q x && not (p x)) h in (o, ground arith, ground arith)

module _ (admits : OutcomeSet) (audited : Json) where
  compared-IsSound : (a : Audit) → IsSound (compared admits audited a)
  unfolding compared
  compared-IsSound a = record {
    exact = λ h.
        (permitted a, refl, λ o. same_members (permitted a) admits o (ground arith) (ground arith));
    wider = λ h. (
      permitted a,
      refl,
      λ o. subset_of_empty (permitted a) admits o (ground arith),
      extra_of (permitted a) admits (ground arith),
    );
  }

  explicit-IsSound : (o : Option Audit) → IsSound (explicit admits audited o)
  unfolding explicit
  explicit-IsSound none = record { exact = λ h. cc; wider = λ h. cc }
  explicit-IsSound (some a) = compared-IsSound a

  against-IsSound : (declared : Json) → IsSound (against declared audited admits)
  unfolding against
  against-IsSound null = record { exact = λ h. cc; wider = λ h. cc }
  against-IsSound (bool b) = explicit-IsSound (audit_in audited)
  against-IsSound _ = explicit-IsSound (audit_in audited)

-- A contract is verified only when it admits exactly the outcomes that the audited theorem permits,
-- and under-claims only when it admits all of them and some other.
pub theorem_contract-IsSound :
    (strength : String) (declared audited : Json) {r : TheoremContract}
    → theorem_contract strength declared audited ≡ ok r
    → IsSound r
unfolding theorem_contract
theorem_contract-IsSound strength declared audited h =
    let (admits, _, e) = >>=-eq-ok (contract_admits strength declared) _ h in
    subst IsSound (ok-injective e) (against-IsSound admits audited declared)

scope_of-divergence :
    (unexcluded : List String) (c : Bool)
    → scope_of unexcluded (some (str "conditional_on_return")) ≡ some c
    → listed "divergence" unexcluded ≡ true
unfolding scope_of
scope_of-divergence unexcluded c h = ground arith

audit_of-scope :
    (rs us : Option (List String)) (scope : List String → Option Bool) (c : Option Bool) (a : Audit)
    → audit_of rs us scope c ≡ some a
    → scope a.unexcluded ≡ some a.conditional
unfolding audit_of
audit_of-scope (some rs) (some us) scope (some c) a h = elim (Option-cases (scope us)) [
  | inl e ↦ ground arith
  | inr (b, e) ↦ ground arith
]
audit_of-scope rs us scope c a h = ground arith

-- A well-formed audit that is conditional on return leaves divergence unexcluded.
conditional-divergence :
    (fs : Fields) (a : Audit)
    → read_audit fs ≡ some a
    → get "scope" fs ≡ some (str "conditional_on_return")
    → permitted a divergence ≡ true
unfolding read_audit permitted named value
conditional-divergence fs a h s =
    let e =
      audit_of-scope (valid_list can_return (get "returns" fs))
        (valid_list known (get "unexcluded" fs))
        (λ unexcluded. scope_of unexcluded (get "scope" fs)) (concurrent_of (get "concurrent" fs)) a
        (ground arith) in
    let d = scope_of-divergence a.unexcluded a.conditional (rw s at e) in ground arith

compared-rejected :
    (admits : OutcomeSet) (audited : Json) (a : Audit)
    → permitted a divergence ≡ true
    → admits divergence ≡ false
    → (compared admits audited a).status ≡ rejected
unfolding compared
compared-rejected admits audited a p n =
    let m = nonempty-true (λ x. permitted a x && not (admits x)) divergence (ground arith) in rw m

explicit-rejected :
    (admits : OutcomeSet) (fs : Fields)
    → get "scope" fs ≡ some (str "conditional_on_return")
    → admits divergence ≡ false
    → (explicit admits (obj fs) (read_audit fs)).status ≡ rejected
unfolding explicit
explicit-rejected admits fs s n = elim (Option-cases (read_audit fs)) [
  | inl e ↦ rw e
  | inr (a, e) ↦ rw e (compared-rejected admits (obj fs) a (conditional-divergence fs a e s) n)
]

against-explicit :
    (declared audited : Json) (admits : OutcomeSet)
    → declared ≢ null
    → against declared audited admits ≡ explicit admits audited (audit_in audited)
unfolding against
against-explicit null audited admits h = absurd (h refl)
against-explicit (bool b) audited admits h = refl
against-explicit _ audited admits h = refl

-- The comparison of a declared contract with an audit whose scope is conditional on return, where it
-- gives a result, rejects the contract.
pub theorem_contract-conditional :
    (strength : String) (declared : Json) (fs : Fields) {r : TheoremContract}
    → declared ≢ null
    → get "scope" fs ≡ some (str "conditional_on_return")
    → theorem_contract strength declared (obj fs) ≡ ok r
    → r.status ≡ rejected
unfolding theorem_contract audit_in incomplete
theorem_contract-conditional strength declared fs {r} given s h =
    let (admits, admitted, e) = >>=-eq-ok (contract_admits strength declared) _ h in
    let r_is = ok-injective e in
    let closed : admits divergence ≡ false = elim (Bool-cases (admits divergence)) [
      | inl a ↦ cc ((contract_admits-MayAdmit strength declared divergence admitted a).0)
      | inr n ↦ n
    ] in
    subst (λ (x : TheoremContract). x.status ≡ rejected) (r_is)
      (rw (against-explicit declared (obj fs) admits given) (explicit-rejected admits fs s closed))
