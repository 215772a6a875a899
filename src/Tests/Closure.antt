-- ===== src/Tests/Closure.antt =====
-- Runs of the closure search on a small program, and the theorems at it.
use air2lean.Base.{
  none, some, String, Bool, true, false, List, [], ◌∷◌, ◌≡◌, refl, ◌⊎◌, inl, ◌↔◌, here,
}
use air2lean.Base.Result.{ok, err}
use air2lean.Closure.{
  Call, Global, Scanned, Inputs, Model, Class, exported, modelled, missing, unresolvable,
}
use air2lean.Closure.Names.{filter_prefix, covered}
use air2lean.Closure.State.{start, class_of}
use air2lean.Closure.Search.Extends.{Visited}
use air2lean.Closure.Search.Body.{classes_of, by_call, calls}
use air2lean.Closure.Search.Reaches.{Reach, root, step}
use air2lean.Closure.Report.{Resolved, run, report, closed, incomplete}
use air2lean.Closure.Report.Closed.{run-Reach, report_closed, report_filter_covers}
use air2lean.Closure.Report.Returns.{run_returns, well_scanned}

abbrev call_to : String → Bool → Call
call_to name noreturn = record {
  target = name;
  instruction = some 1;
  noreturn = noreturn;
  comptime_fn = none;
}

abbrev scanned : List Call → Scanned
scanned body = record { calls = body; values = []; indirect = []; globals = [] }

-- `main` calls `help__anon_3`, a function of the standard library and a panic handler.
abbrev program : List Call → Inputs
program more = record {
  functions =
      ("main", scanned (call_to "help__anon_3" false ∷ call_to "debug.defaultPanic" true ∷ more))
      ∷ (
        "help__anon_3",
        record {
          calls = call_to "heap.alloc" false ∷ [];
          values = ("main", none) ∷ [];
          indirect = record { instruction = some 4; fn_type = some "fn () void" } ∷ [];
          globals =
              record {
                index = 0;
                name = none;
                is_extern = false;
                threadlocal = false;
                has_init = true;
                functions = "main" ∷ [];
                fn_ref = some ("fn () void", "main");
              }
              ∷ [];
        },
      )
      ∷ [];
  version = "0.16.0";
  models =
      ("heap.alloc", record { is_rejected = false; versions = "0.16.0" ∷ []; reason = none }) ∷ [];
  registry = [];
  key = λ name. name;
}

abbrev answer : Resolved
answer = elim (run (program []) ("main" ∷ [])) [ ok t ↦ t | err e ↦ (start, []) ]

run-program : run (program []) ("main" ∷ []) ≡ ok answer
unfolding run air2lean.Closure.Visit.refer
run-program = refl

run-Reach_example :
    Visited "heap.alloc" answer.0
    ↔ Reach (program []) (classes_of answer.0) ("main" ∷ []) "heap.alloc"
run-Reach_example = run-Reach (program []) ("main" ∷ []) answer run-program "heap.alloc"

alloc_reached : Reach (program []) (classes_of answer.0) ("main" ∷ []) "heap.alloc"
unfolding class_of run air2lean.Closure.Visit.refer
alloc_reached =
    step (step (root (here refl)) refl refl (by_call (here (calls refl)))) refl refl
      (by_call (here (calls refl)))

program_closed : (report (program []) answer.0 [] none).status ≡ closed
unfolding report run air2lean.Closure.Visit.refer
program_closed = refl

report_closed_example :
    (class_of "heap.alloc" answer.0 ≡ some exported)
    ⊎ (class_of "heap.alloc" answer.0 ≡ some modelled)
report_closed_example =
    report_closed (program []) ("main" ∷ []) [] none answer run-program program_closed "heap.alloc"
      alloc_reached

report_filter_covers_example :
    covered "help__anon_3" (report (program []) answer.0 [] none).prefixes ≡ true
unfolding class_of run air2lean.Closure.Visit.refer
report_filter_covers_example =
    report_filter_covers (program []) answer.0 [] none "help__anon_3" (inl refl)

-- A call of a function without AIR, after the others.
abbrev missing_program : Inputs
missing_program = program (call_to "gone__struct_7.f" false ∷ [])

run_returns_example : (t : Resolved) × (run missing_program ("main" ∷ []) ≡ ok t)
unfolding well_scanned
run_returns_example = run_returns missing_program ("main" ∷ []) (λ name. refl) refl

run_missing :
    (elim (run missing_program ("main" ∷ [])) [
      | ok t ↦ (report missing_program t.0 [] none).status
      | err e ↦ closed
    ])
    ≡ incomplete
unfolding run air2lean.Closure.Visit.refer report
run_missing = refl

filter_prefix_run : filter_prefix "gone__struct_7.f" ≡ "gone"
unfolding filter_prefix
filter_prefix_run = refl
