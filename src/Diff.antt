-- ===== src/Diff.antt =====
-- scripts/diff-report.py: the typed comparison of a native run with the model. The children are its
-- steps: the decoded result lines (Wire), the typed observations (Observe), float leaves and host
-- differences (Floats, Host), the verdict on one case (Classify), and the coverage of schedules (Exploration).
pub mod Wire
pub mod Kinds
pub mod Observe
pub mod Floats
pub mod Host
pub mod Classify
pub mod Exploration
pub mod Config
pub mod Run
pub mod Driver
use air2lean.Base.{
  ℕ, String, Option, none, some, Bool, true, false, List, [], ◌∷◌, ◌==◌, str_eq, if◌then◌else◌,
}

pub data Kind : Type 0 where
  value error_return model_panic native_panic native_signal illegal unspecified : Kind
  unspecified_timer deadlock trap stack_overflow bounded_no_result search_cap : Kind
  input_failure native_harness_failure : Kind

pub data Status : Type 0 where
  value_match error_return_match panic_match trap_match illegal unspecified : Status
  unspecified_timer stack_overflow search_cap bounded_no_result host mismatch : Status
  input_failure native_harness_failure skipped ub_excluded : Status

abbrev pub kind_index : Kind → ℕ
kind_index Kind.value = 0
kind_index Kind.error_return = 1
kind_index Kind.model_panic = 2
kind_index Kind.native_panic = 3
kind_index Kind.native_signal = 4
kind_index Kind.illegal = 5
kind_index Kind.unspecified = 6
kind_index Kind.unspecified_timer = 7
kind_index Kind.deadlock = 8
kind_index Kind.trap = 9
kind_index Kind.stack_overflow = 10
kind_index Kind.bounded_no_result = 11
kind_index Kind.search_cap = 12
kind_index Kind.input_failure = 13
kind_index Kind.native_harness_failure = 14

-- `a == b` for two kinds
abbrev pub kind_eq : Kind → Kind → Bool
kind_eq a b = kind_index a == kind_index b

abbrev pub status_index : Status → ℕ
status_index Status.value_match = 0
status_index Status.error_return_match = 1
status_index Status.panic_match = 2
status_index Status.trap_match = 3
status_index Status.illegal = 4
status_index Status.unspecified = 5
status_index Status.unspecified_timer = 6
status_index Status.stack_overflow = 7
status_index Status.search_cap = 8
status_index Status.bounded_no_result = 9
status_index Status.host = 10
status_index Status.mismatch = 11
status_index Status.input_failure = 12
status_index Status.native_harness_failure = 13
status_index Status.skipped = 14
status_index Status.ub_excluded = 15

abbrev pub status_eq : Status → Status → Bool
status_eq a b = status_index a == status_index b

-- `MATCHES`
unfoldable pub matches : Status → Bool
matches Status.value_match = true
matches Status.error_return_match = true
matches Status.panic_match = true
matches Status.trap_match = true
matches _ = false

pub data SearchStatus : Type 0 where
  witness exhausted bounded capped : SearchStatus

abbrev pub is_status_capped : SearchStatus → Bool
is_status_capped capped = true
is_status_capped _ = false

abbrev pub is_status_bounded : SearchStatus → Bool
is_status_bounded bounded = true
is_status_bounded _ = false

-- The metadata of a schedule search.
pub record Search : Type 0 where
  pub prefix : List ℕ
  pub options : List ℕ
  pub runs : ℕ
  pub fuel : ℕ
  pub cap : ℕ
  pub status : SearchStatus
  pub saw_no_result : Bool

-- `panic-policy.tsv`: the model error that each native panic tag stands for.
abbrev pub Policy : Type 0
Policy = List (String × String)

unfoldable pub policy_get : String → Policy → Option String
policy_get tag [] = none
policy_get tag ((t, e) ∷ rows) = if str_eq t tag then some e else policy_get tag rows

-- `Invalid`, and `Unsupported`, which is a subclass.
pub data Failure : Type 0 where
  invalid unsupported attribute_error : Failure

abbrev pub max_cases : ℕ
max_cases = 100000
