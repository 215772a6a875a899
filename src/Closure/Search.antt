-- ===== src/Closure/Search.antt =====
-- The loop of `Closure.run` in scripts/dependency-closure.py. The queue is kept as its part before
-- the cursor (`finished`) and its part from the cursor on (`pending`); `nodes` is the dict in its order.
pub mod Visits
pub mod Body
pub mod Expand
pub mod Ends
pub mod Work
pub mod Keeps
pub mod Extends
pub mod Loop
pub mod References
pub mod Reaches
pub mod Visited
use Prim.Native.String.{◌++◌ as joined}
use air2lean.Base.{
  ℕ, zero, suc, String, Option, none, some, Bool, true, false, ◌&&◌, ◌||◌, not, List, [], ◌∷◌, ◌++◌,
  str_eq, ◌==◌, if◌then◌else◌, ltb, length, is_empty, any,
}
use air2lean.Base.Result.{Result, ok, err}
use air2lean.Base.Text.{number_text}
use air2lean.Json.{listed}
use air2lean.Closure.{
  Instruction, Call, Global, Scanned, Model, Inputs, Class, exported, modelled, missing,
  unresolvable, is_exported, value_of,
}
use air2lean.Closure.Names.{panic_handler}
use air2lean.Closure.State.{
  Reference, Node, Boundary, GlobalRecord, State, Failure, class_at, update, class_of, chain,
  chain_to, in_functions, Verdict, of_model, unmodelled, classify, start, key_error, out_of_fuel,
}
use air2lean.Closure.Visit.{enter, refer, add_reference, visit, boundary, explained, explain}

unfoldable pub visit_function : Inputs → String → Option String → Instruction → State → State
unfolding visit
visit_function c caller none instruction s = s
visit_function c caller (some worker) instruction s =
    visit c (some caller) worker "comptime_function_argument" instruction false s

unfoldable pub exported_class : Option Class → Bool
exported_class none = false
exported_class (some class) = is_exported class

unfoldable pub visit_worker : Inputs → String → Call → State → State
unfolding class_of visit_function exported_class
visit_worker c caller call s =
    if exported_class (class_of (c.key call.target) s)
    then s
    else visit_function c caller call.comptime_fn call.instruction s

-- One call of the body of `caller`: a noreturn callee is a panic handler or outside of the model, and
-- a callee without AIR brings the function it was given at compile time.
unfoldable pub visit_call : Inputs → String → Call → State → State
unfolding visit visit_worker boundary panic_handler
visit_call c caller call s =
    if call.noreturn
    then if panic_handler call.target
      then visit c (some caller) call.target "panic_call" call.instruction true s
      else boundary caller call.instruction unresolvable "unmodelled_noreturn_callee"
          (some call.target)
          (some "a noreturn callee other than a recognized panic handler is emitted as a panic") s
    else visit_worker c caller call
        (visit c (some caller) call.target "direct_call" call.instruction false s)

unfoldable pub visit_calls : Inputs → String → List Call → State → State
unfolding visit_call
visit_calls c caller [] s = s
visit_calls c caller (call ∷ calls) s = visit_calls c caller calls (visit_call c caller call s)

unfoldable pub visit_values : Inputs → String → List (String × Instruction) → State → State
unfolding visit
visit_values c caller [] s = s
visit_values c caller ((target, instruction) ∷ values) s =
    visit_values c caller values (visit c (some caller) target "function_value" instruction false s)

unfoldable pub global_class : Global → Verdict
global_class g =
    if g.threadlocal && g.is_extern
    then (
      unresolvable,
      "threadlocal_global",
      some "extern thread-local storage is outside the model",
    )
    else if g.is_extern
    then (
      modelled,
      "extern_initial_state",
      some "external storage is an explicit ExternInit parameter",
    )
    else if not g.has_init
    then (unresolvable, "unresolved_global_initializer", some "the exporter wrote no initial value")
    else (exported, "embedded_in_air", none)

numbered : String → Global → String
unfolding number_text
numbered caller g = joined caller (joined "#global" (number_text g.index))

-- The name of a global, or a label where it has none.
unfoldable pub label : String → Global → String
unfolding numbered
label caller g = elim g.name [
  | none ↦ numbered caller g
  | some name ↦ if str_eq name "" then numbered caller g else name
]

-- The record of a label is entered once, and holds each caller once.
unfoldable pub record_global : String → String → Verdict → List GlobalRecord → List GlobalRecord
unfolding listed
record_global caller name (class, kind, reason) [] =
    record { name = name; class = class; kind = kind; reason = reason; referenced_by = caller ∷ [] }
    ∷ []
record_global caller name verdict (g ∷ gs) =
    let rest = record_global caller name verdict gs in
    if str_eq g.name name
    then if listed caller g.referenced_by
      then g ∷ gs
      else record g { referenced_by = g.referenced_by ++ caller ∷ [] } ∷ gs
    else g ∷ rest

-- A global outside of the model is a boundary.
unfoldable pub global_boundary : String → String → Verdict → State → State
unfolding boundary
global_boundary caller name (unresolvable, kind, reason) s =
    boundary caller none unresolvable kind (some name) reason s
global_boundary caller name _ s = s

unfoldable pub visit_functions : Inputs → String → List String → State → State
unfolding visit
visit_functions c caller [] s = s
visit_functions c caller (target ∷ targets) s =
    visit_functions c caller targets
      (visit c (some caller) target "global_function_reference" none false s)

-- The record and the boundary of a global, before its functions are visited.
unfoldable pub enter_global : String → Global → State → State
unfolding label global_class record_global global_boundary
enter_global caller g s =
    let name = label caller g in
    let verdict = global_class g in
    global_boundary caller name verdict
      (record s { globals = record_global caller name verdict s.globals })

unfoldable pub visit_globals : Inputs → String → List Global → State → State
unfolding visit_functions enter_global
visit_globals c caller [] s = s
visit_globals c caller (g ∷ gs) s =
    visit_globals c caller gs (visit_functions c caller g.functions (enter_global caller g s))

-- The body of the loop, for the function `caller` at the cursor.
unfoldable pub expand : Inputs → String → Scanned → State → State
unfolding visit_calls visit_values visit_globals
expand c caller info s =
    visit_globals c caller info.globals
      (visit_values c caller info.values (visit_calls c caller info.calls s))

-- `cursor += 1`
unfoldable pub advance : String → List String → State → State
advance caller rest s = record s { finished = s.finished ++ caller ∷ []; pending = rest }

-- `self.functions[self.key(name)]`
unfoldable pub function_of : Inputs → String → Option Scanned
unfolding value_of
function_of c name = value_of (c.key name) c.functions

-- `while cursor < len(queue)`, at most `fuel` times
unfoldable pub search : Inputs → ℕ → State → Result Failure State
unfolding expand advance function_of
search c zero s = if is_empty s.pending then ok s else err out_of_fuel
search c (suc fuel) s = elim s.pending [
  | [] ↦ ok s
  | caller ∷ rest ↦ elim (function_of c caller) [
    | none ↦ err key_error
    | some info ↦ search c fuel (expand c caller info (advance caller rest s))
  ]
]

-- A root that is not exported has a reason.
unfoldable pub visit_roots : Inputs → List String → State → State
unfolding visit explain
visit_roots c [] s = s
visit_roots c (root ∷ roots) s =
    visit_roots c roots (explain (c.key root) (visit c none root "root" none false s))
