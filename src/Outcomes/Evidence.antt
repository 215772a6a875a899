-- ===== src/Outcomes/Evidence.antt =====
-- The evidence of scripts/outcomes.py: the outcomes of one differential case, their counts over a
-- run, and the absence claims that counts refuse.
pub mod Refuse
use air2lean.Base.{
  ℕ, String, ◌≡◌, refl, Option, none, some, Bool, true, false, ◌&&◌, ◌||◌, not, List, [], ◌∷◌,
  str_eq, ◌==◌, if◌then◌else◌, as_count, sum_of, is_empty,
}
use air2lean.Base.Int.{ℤ, pos, int_eq}
use air2lean.Json.{
  Json, Items, Fields, null, bool, int, float, str, arr, obj, nil, cons, end, field, get,
}
use air2lean.Outcomes.{
  Outcome, valid, nondeterministic_valid, error_return, panic, illegal, unspecified,
  unspecified_timer, unsupported, deadlock, hardware_trap, stack_overflow, divergence, search_cap,
  outcomes, OutcomeSet, outcome_eq, incomplete, AbsenceClaim, absence_claims, Counts, counts_in,
}
use air2lean.Outcomes.Sets.{tabulate}

-- `bool(value)`
unfoldable pub truthy : Json → Bool
truthy null = false
truthy (bool b) = b
truthy (int n) = not (int_eq n (pos 0))
truthy (float s n) = not (n == 0)
truthy (str s) = not (str_eq s "")
truthy (arr nil) = false
truthy (arr (cons x xs)) = true
truthy (obj end) = false
truthy (obj (field k v fs)) = true

-- `DIFF_KINDS.get(kind, Outcome.UNSUPPORTED)`
unfoldable pub diff_kinds : String → Option Outcome
diff_kinds k =
    if str_eq k "value"
    then some valid
    else if str_eq k "error_return"
    then some error_return
    else if str_eq k "model_panic"
    then some panic
    else if str_eq k "illegal"
    then some illegal
    else if str_eq k "unspecified"
    then some unspecified
    else if str_eq k "unspecified_timer"
    then some unspecified_timer
    else if str_eq k "deadlock"
    then some deadlock
    else if str_eq k "trap"
    then some hardware_trap
    else if str_eq k "stack_overflow"
    then some stack_overflow
    else if str_eq k "bounded_no_result"
    then some divergence
    else if str_eq k "search_cap"
    then some search_cap
    else if str_eq k "native_panic"
    then none
    else if str_eq k "native_signal"
    then none
    else if str_eq k "input_failure"
    then none
    else if str_eq k "native_harness_failure"
    then none
    else some unsupported

-- `DIFF_STATUSES`, where a status outside the table names no outcome
unfoldable pub diff_statuses : String → Option Outcome
diff_statuses s =
    if str_eq s "value_match"
    then some valid
    else if str_eq s "error_return_match"
    then some error_return
    else if str_eq s "panic_match"
    then some panic
    else if str_eq s "ub_excluded"
    then some panic
    else if str_eq s "trap_match"
    then some hardware_trap
    else if str_eq s "illegal_exclusion"
    then some illegal
    else if str_eq s "unspecified_exclusion"
    then some unspecified
    else if str_eq s "unspecified_timer_exclusion"
    then some unspecified_timer
    else if str_eq s "stack_overflow_exclusion"
    then some stack_overflow
    else if str_eq s "search_cap"
    then some search_cap
    else if str_eq s "bounded_no_result"
    then some divergence
    else none

abbrev is_outcome : Option Outcome → OutcomeSet
is_outcome none o = false
is_outcome (some x) o = outcome_eq x o

status_outcome : Option Json → Option Outcome
unfolding diff_statuses
status_outcome (some (str s)) = diff_statuses s
status_outcome _ = none

kind_outcome : Option Json → Option Outcome
unfolding diff_kinds
kind_outcome none = none
kind_outcome (some null) = none
kind_outcome (some (str k)) = diff_kinds k
kind_outcome (some _) = some unsupported

-- The outcomes that a row names before its schedule is read.
unfoldable pub named_outcomes : Fields → OutcomeSet
unfolding status_outcome kind_outcome
named_outcomes row o =
    is_outcome (status_outcome (get "status" row)) o
    || is_outcome (kind_outcome (get "model_kind" row)) o

is_capped : Option Json → Bool
is_capped (some (str s)) = str_eq s "capped"
is_capped _ = false

saw : Option Json → Bool
unfolding truthy
saw none = false
saw (some v) = truthy v

-- A schedule search chose a value among interleavings: it is a nondeterministic one.
searched : OutcomeSet → Fields → OutcomeSet
unfolding is_capped saw
searched found s o =
    if outcome_eq o valid
    then false
    else (found o
        || outcome_eq o search_cap && is_capped (get "status" s)
        || outcome_eq o divergence && saw (get "saw_no_result" s)
        || outcome_eq o nondeterministic_valid && found valid)

with_schedule : OutcomeSet → Option Json → OutcomeSet
unfolding searched
with_schedule found (some (obj s)) = searched found s
with_schedule found _ = found

-- A `status` that cannot be a key, a list or a dict, gives no outcome here; in the source it is a TypeError.
unfoldable pub case_outcomes : Fields → OutcomeSet
unfolding named_outcomes with_schedule
case_outcomes row = with_schedule (named_outcomes row) (get "schedule" row)

-- How many of the rows show the outcome.
unfoldable pub occurrences : List Fields → Outcome → ℕ
occurrences rows o = sum_of (λ row. as_count (case_outcomes row o)) rows

unfoldable pub count : List Fields → Counts
unfolding occurrences tabulate
count rows = tabulate (occurrences rows) outcomes

-- The outcomes whose presence refuses an absence claim.
unfoldable pub blocking : AbsenceClaim → OutcomeSet
unfolding incomplete absence_claims
blocking claim o = incomplete o || absence_claims claim o

pub data AbsenceStatus : Type 0 where
  not_refuted refused : AbsenceStatus

pub record Absence : Type 0 where
  pub status : AbsenceStatus
  pub blocked_by : List (Outcome × ℕ)

unfoldable pub absence : AbsenceClaim → Counts → Absence
unfolding blocking
absence claim counts =
    let found = counts_in (blocking claim) counts outcomes in
    record { status = if is_empty found then not_refuted else refused; blocked_by = found }
