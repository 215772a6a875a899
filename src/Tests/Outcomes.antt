-- ===== src/Tests/Outcomes.antt =====
-- Outcome contracts and absence claims of scripts/outcomes.py at concrete inputs.
use air2lean.Base.{◌≡◌, ◌↔◌, ◌<◌, refl, true, false, String, [], ◌∷◌}
use air2lean.Base.Int.{pos}
use air2lean.Json.{Json, Fields, null, bool, int, str, arr, obj, nil, cons, end, field, get}
use air2lean.Outcomes.{Outcome, panic, valid, AbsenceClaim, no_panic, Counts}
use air2lean.Outcomes.Admits.{MayAdmit, named, contract_admits-MayAdmit}
use air2lean.Outcomes.Contract.{Contract, refuted, IsExact, contract-IsExact}
use air2lean.Outcomes.Audit.{TheoremContract, Audit, compared, rejected, theorem_contract}
use air2lean.Outcomes.Audit.Sound.{IsSound, theorem_contract-IsSound, theorem_contract-conditional}
use air2lean.Outcomes.Evidence.{absence, count, blocking, occurrences, refused}
use air2lean.Outcomes.Evidence.Refuse.{absence-count_iff}

abbrev panics_allowed : Json
panics_allowed = arr (cons (str "valid") (cons (str "panic") nil))

contract_admits-MayAdmit_example : MayAdmit "model" panic
unfolding named air2lean.Outcomes.Admits.contract_admits air2lean.Json.strings_of
    air2lean.Outcomes.Admits.admits_names air2lean.Outcomes.nonempty air2lean.Outcomes.denied_by
contract_admits-MayAdmit_example =
    contract_admits-MayAdmit "model" panics_allowed {admitted = named ("valid" ∷ "panic" ∷ [])}
      panic refl refl

abbrev valid_only : Json
valid_only = arr (cons (str "valid") nil)

abbrev two_panics : Counts
two_panics = ("valid", 5) ∷ ("panic", 2) ∷ []

abbrev panics_refute : Contract
panics_refute = record {
  admits = named ("valid" ∷ []);
  is_declared = true;
  observed = two_panics;
  violations = (panic, 2) ∷ [];
  unassessed_by = [];
  status = refuted;
}

contract-IsExact_example : IsExact two_panics panics_refute
unfolding named air2lean.Outcomes.Contract.contract air2lean.Outcomes.Admits.contract_admits
    air2lean.Json.strings_of air2lean.Outcomes.Admits.admits_names air2lean.Outcomes.nonempty
    air2lean.Outcomes.denied_by air2lean.Outcomes.counts_in
contract-IsExact_example = contract-IsExact "model" valid_only two_panics refl

-- The audit of a theorem that fixes a returned value.
abbrev audit_fields : String → Fields
audit_fields scope = field "schema_version" (int (pos 1)) (
    field "status" (str "computed") (
      field "returns" valid_only (
        field "unexcluded" (arr (cons (str "divergence") (cons (str "stack_overflow") nil)))
          (field "scope" (str scope) (field "concurrent" (bool false) end)))))

abbrev conditional_audit : Audit
conditional_audit = record {
  returns = "valid" ∷ [];
  unexcluded = "divergence" ∷ "stack_overflow" ∷ [];
  conditional = true;
  concurrent = false;
}

abbrev conditional_result : TheoremContract
conditional_result =
    compared (named ("valid" ∷ [])) (obj (audit_fields "conditional_on_return")) conditional_audit

theorem_contract-IsSound_example : IsSound conditional_result
unfolding theorem_contract air2lean.Outcomes.Admits.contract_admits air2lean.Json.strings_of
    air2lean.Outcomes.Admits.admits_names air2lean.Outcomes.nonempty air2lean.Outcomes.denied_by get
theorem_contract-IsSound_example =
    theorem_contract-IsSound "model" valid_only (obj (audit_fields "conditional_on_return")) refl

conditional_rejected : conditional_result.status ≡ rejected
unfolding theorem_contract get air2lean.Outcomes.Admits.contract_admits air2lean.Json.strings_of
    air2lean.Outcomes.Admits.admits_names air2lean.Outcomes.nonempty air2lean.Outcomes.denied_by
conditional_rejected =
    theorem_contract-conditional "model" valid_only (audit_fields "conditional_on_return") (λ e. cc)
      refl refl

-- A case that panicked, and one whose schedule search was cut off.
abbrev panicked : Fields
panicked = field "model_kind" (str "model_panic") (field "status" (str "panic_match") end)

abbrev cut_off : Fields
cut_off = field "model_kind" (str "value") (
    field "status" (str "value_match") (
      field "schedule"
        (obj (field "status" (str "capped") (field "saw_no_result" (bool false) end))) end))

absence-count_iff_example :
    ((absence no_panic (count (panicked ∷ []))).status ≡ refused)
    ↔ ((o : Outcome) × (blocking no_panic o ≡ true) × (0 < occurrences (panicked ∷ []) o))
absence-count_iff_example = absence-count_iff no_panic (panicked ∷ [])
