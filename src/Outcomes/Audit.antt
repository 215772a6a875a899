-- ===== src/Outcomes/Audit.antt =====
-- `theorem_contract` of scripts/outcomes.py: a declared contract against the outcome structure that
-- the theorem extractor computed.
pub mod Sound
use air2lean.Base.{
  String, Option, none, some, Bool, true, false, ◌&&◌, ◌||◌, not, List, str_eq, if◌then◌else◌, all,
}
use air2lean.Base.Int.{pos, int_eq}
use air2lean.Base.Result.{Result, ok, ◌>>=◌}
use air2lean.Json.{listed, strings_of, Json, Fields, null, bool, int, str, arr, obj, get}
use air2lean.Outcomes.{Outcome, valid, nondeterministic_valid, OutcomeSet, nonempty, outcome_eq}
use air2lean.Outcomes.Admits.{AdmitError, contract_admits, has_duplicates, known, named}

pub data Status : Type 0 where
  strength_default rejected under_claim verified : Status

pub record TheoremContract : Type 0 where
  pub admits : OutcomeSet
  pub theorem_admits : Option OutcomeSet
  pub returns : Option Json
  pub unexcluded : Option Json
  pub scope : Option Json
  pub extra : OutcomeSet
  pub missing : OutcomeSet
  pub status : Status

abbrev none_of : OutcomeSet
none_of o = false

-- `audited.get(k)` when `audited` is a dict, `None` otherwise
audited_field : String → Json → Option Json
audited_field k (obj fs) = get k fs
audited_field k _ = none

-- The result before the comparison.
initial : OutcomeSet → Json → Status → TheoremContract
unfolding audited_field
initial admits audited status = record {
  admits = admits;
  theorem_admits = none;
  returns = audited_field "returns" audited;
  unexcluded = audited_field "unexcluded" audited;
  scope = audited_field "scope" audited;
  extra = none_of;
  missing = none_of;
  status = status;
}

is_str : String → Option Json → Bool
is_str s (some (str t)) = str_eq t s
is_str s _ = false

is_one : Option Json → Bool
is_one (some (int n)) = int_eq n (pos 1)
is_one _ = false

-- A list of strings, each allowed and none twice: `valid_list`.
valid_names : (String → Bool) → Option (List String) → Option (List String)
valid_names allowed none = none
valid_names allowed (some ns) = if all allowed ns && not (has_duplicates ns) then some ns else none

pub valid_list : (String → Bool) → Option Json → Option (List String)
unfolding valid_names
valid_list allowed (some (arr xs)) = valid_names allowed (strings_of xs)
valid_list allowed _ = none

abbrev pub can_return : String → Bool
can_return n = str_eq n "valid" || str_eq n "error_return"

-- The fields of a well-formed audit that the comparison reads.
pub record Audit : Type 0 where
  pub returns : List String
  pub unexcluded : List String
  pub conditional : Bool
  pub concurrent : Bool

-- A partial postcondition leaves divergence and stack overflow unexcluded.
pub scope_of : List String → Option Json → Option Bool
unfolding listed is_str
scope_of unexcluded scope =
    if is_str "all_outcomes" scope
    then some false
    else if is_str "conditional_on_return" scope
    then (if listed "divergence" unexcluded && listed "stack_overflow" unexcluded
        then some true
        else none)
    else none

pub concurrent_of : Option Json → Option Bool
concurrent_of (some (bool b)) = some b
concurrent_of _ = none

pub audit_of :
    Option (List String)
    → Option (List String)
    → (List String → Option Bool)
    → Option Bool
    → Option Audit
audit_of (some returns) (some unexcluded) scope (some concurrent) = elim (scope unexcluded) [
  | none ↦ none
  | some conditional ↦ some (record {
    returns = returns;
    unexcluded = unexcluded;
    conditional = conditional;
    concurrent = concurrent;
  })
]
audit_of _ _ _ _ = none

unfoldable pub read_audit : Fields → Option Audit
unfolding audit_of valid_list scope_of concurrent_of is_one is_str
read_audit fs =
    if is_one (get "schema_version" fs) && is_str "computed" (get "status" fs)
    then audit_of (valid_list can_return (get "returns" fs))
        (valid_list known (get "unexcluded" fs))
        (λ unexcluded. scope_of unexcluded (get "scope" fs)) (concurrent_of (get "concurrent" fs))
    else none

-- `set(returned) | set(unexcluded)`, with the values that a schedule search can observe.
unfoldable pub permitted : Audit → OutcomeSet
permitted a o =
    named a.returns o
    || named a.unexcluded o
    || outcome_eq o nondeterministic_valid
      && a.concurrent
      && (named a.returns valid || named a.unexcluded valid)

pub compared : OutcomeSet → Json → Audit → TheoremContract
unfolding permitted initial
compared admits audited a =
    let allowed = permitted a in
    let missing = λ (o : Outcome). allowed o && not (admits o) in
    let extra = λ (o : Outcome). admits o && not (allowed o) in
    record (initial admits audited rejected) {
      theorem_admits = some allowed;
      missing = missing;
      extra = extra;
      status =
          if nonempty missing then rejected else if nonempty extra then under_claim else verified;
    }

pub explicit : OutcomeSet → Json → Option Audit → TheoremContract
unfolding compared initial
explicit admits audited none = initial admits audited rejected
explicit admits audited (some a) = compared admits audited a

pub audit_in : Json → Option Audit
unfolding read_audit
audit_in (obj fs) = read_audit fs
audit_in _ = none

pub against : Json → Json → OutcomeSet → TheoremContract
unfolding explicit audit_in initial
against null audited admits = initial admits audited strength_default
against declared audited admits = explicit admits audited (audit_in audited)

unfoldable pub theorem_contract : String → Json → Json → Result AdmitError TheoremContract
unfolding against
theorem_contract strength declared audited = do
  admits ← contract_admits strength declared
  ok (against declared audited admits)
