-- ===== src/Diff/Kinds.antt =====
-- The kinds of observation in scripts/diff-report.py, the side that produces each, and the result line
-- that each wants.
use air2lean.Base.{
  String, Option, none, some, Bool, true, false, List, [], ◌∷◌, str_eq, if◌then◌else◌,
}
use air2lean.Base.Text.{is_ident}
use Prim.Native.String.{◌++◌}
use air2lean.Json.{Json, str, obj, end, field, listed}
use air2lean.Diff.{Kind, kind_eq}
use air2lean.Diff.Wire.{Wire, returned, fail, diverge}

pub data Side : Type 0 where
  native model : Side

-- `Kind(text)`
unfoldable pub kind_of : String → Option Kind
kind_of k =
    if str_eq k "value"
    then some Kind.value
    else if str_eq k "error_return"
    then some Kind.error_return
    else if str_eq k "model_panic"
    then some Kind.model_panic
    else if str_eq k "native_panic"
    then some Kind.native_panic
    else if str_eq k "native_signal"
    then some Kind.native_signal
    else if str_eq k "illegal"
    then some Kind.illegal
    else if str_eq k "unspecified"
    then some Kind.unspecified
    else if str_eq k "unspecified_timer"
    then some Kind.unspecified_timer
    else if str_eq k "deadlock"
    then some Kind.deadlock
    else if str_eq k "trap"
    then some Kind.trap
    else if str_eq k "stack_overflow"
    then some Kind.stack_overflow
    else if str_eq k "bounded_no_result"
    then some Kind.bounded_no_result
    else if str_eq k "search_cap"
    then some Kind.search_cap
    else if str_eq k "input_failure"
    then some Kind.input_failure
    else if str_eq k "native_harness_failure"
    then some Kind.native_harness_failure
    else none

-- The kinds that each side may produce.
unfoldable pub allowed : Side → Kind → Bool
allowed native Kind.value = true
allowed native Kind.error_return = true
allowed native Kind.native_panic = true
allowed native Kind.native_signal = true
allowed native Kind.native_harness_failure = true
allowed native Kind.input_failure = true
allowed native _ = false
allowed model Kind.native_panic = false
allowed model Kind.native_signal = false
allowed model _ = true

-- `ERRORS`
abbrev pub errors : List String
errors =
    "overflow" ∷ "outOfBounds" ∷ "divByZero" ∷ "unreachable" ∷ "panic" ∷ "illegal" ∷ "unspecified"
    ∷ "deadlock" ∷ "unsupportedTimer" ∷ "trap" ∷ "stackOverflow" ∷ []

-- `'Zig.Error.' + error`
unfoldable pub zig_error : String → String
zig_error e = "Zig.Error." ++ e

-- `MODEL_ERROR_KINDS.get(error, Kind.MODEL_PANIC)`
unfoldable pub model_error_kind : String → Kind
model_error_kind e =
    if str_eq e "illegal"
    then Kind.illegal
    else if str_eq e "unspecified"
    then Kind.unspecified
    else if str_eq e "unsupportedTimer"
    then Kind.unspecified_timer
    else if str_eq e "deadlock"
    then Kind.deadlock
    else if str_eq e "trap"
    then Kind.trap
    else if str_eq e "stackOverflow"
    then Kind.stack_overflow
    else Kind.model_panic

-- The error of `ERRORS` that the failure text names behind its prefix.
unfoldable pub model_error : String → List String → Option String
unfolding zig_error
model_error text [] = none
model_error text (e ∷ es) = if str_eq text (zig_error e) then some e else model_error text es

abbrev pub signals : List String
signals = "SIGFPE" ∷ "SIGILL" ∷ "SIGSEGV" ∷ "SIGBUS" ∷ []

-- `isinstance(v, dict) and set(v) == {'err'} and isinstance(v['err'], str)`
unfoldable pub is_error_value : Json → Bool
is_error_value (obj (field k (str s) end)) = str_eq k "err"
is_error_value _ = false

unfoldable pub is_model_failure : Kind → String → Bool
unfolding model_error model_error_kind
is_model_failure kind text = elim (model_error text errors) [
  | none ↦ false
  | some e ↦ kind_eq kind (model_error_kind e)
]

-- The result line that each kind wants.
unfoldable pub fits : Kind → Wire → Bool
unfolding is_error_value is_model_failure
fits Kind.input_failure w = true
fits Kind.value (returned v b l) = true
fits Kind.error_return (returned v b l) = is_error_value v
fits Kind.bounded_no_result diverge = true
fits Kind.search_cap (fail s) = str_eq s "Zig.Error.capped"
fits Kind.native_signal (fail s) = listed s signals
fits Kind.native_harness_failure (fail s) = true
fits Kind.native_panic (fail s) = is_ident s
fits Kind.model_panic (fail s) = is_model_failure Kind.model_panic s
fits Kind.illegal (fail s) = is_model_failure Kind.illegal s
fits Kind.unspecified (fail s) = is_model_failure Kind.unspecified s
fits Kind.unspecified_timer (fail s) = is_model_failure Kind.unspecified_timer s
fits Kind.deadlock (fail s) = is_model_failure Kind.deadlock s
fits Kind.trap (fail s) = is_model_failure Kind.trap s
fits Kind.stack_overflow (fail s) = is_model_failure Kind.stack_overflow s
fits _ _ = false
