-- ===== src/Tests/Scan.antt =====
-- A scan of the AIR of one function, and the closure of what it returns.
use air2lean.Base.{none, some, true, false, [], ◌∷◌, ◌≡◌, refl}
use air2lean.Base.Int.{pos}
use air2lean.Base.Result.{ok, traverse}
use air2lean.Json.{Json, Fields, null, bool, int, str, arr, obj, nil, cons, end, field}
use air2lean.Closure.{Scanned, Inputs}
use air2lean.Closure.Report.{Resolved, run}
use air2lean.Closure.Scan.{renamed}
use air2lean.Closure.Scan.Collect.{scan}
use air2lean.Closure.Scan.References.{scanned_run_returns}

-- A call in a block, an argument that is a function, and a global that holds a function.
abbrev air : Json
air = obj (
    field "name" (str "main") (
      field "zig_version" (str "0.16.0") (
        field "types"
          (arr (cons (obj (field "k" (str "other") (field "name" (str "fn () void") end))) nil))
          (field "body"
            (arr (
              cons
                (obj (
                  field "tag" (str "block") (
                    field "id" (int (pos 1)) (
                      field "body"
                        (arr (
                          cons
                            (obj (
                              field "tag" (str "call") (
                                field "id" (int (pos 2)) (
                                  field "callee" (obj (field "func" (str "help__func_3") end)) (
                                    field "args"
                                      (arr (cons (obj (field "func" (str "worker") end)) nil))
                                      end)))))
                            nil))
                        end))))
                nil))
            (field "globals"
              (arr (
                cons
                  (obj (
                    field "ty" (int (pos 0))
                      (field "init" (obj (field "func" (str "worker") end)) end)))
                  nil))
              end)))))

abbrev scanned_main : Scanned
scanned_main = record {
  calls =
      record { target = "help__func_3"; instruction = some 2; noreturn = false; comptime_fn = none }
      ∷ [];
  values = ("worker", some 2) ∷ [];
  indirect = [];
  globals =
      record {
        index = 0;
        name = none;
        is_extern = false;
        threadlocal = false;
        has_init = true;
        functions = "worker" ∷ [];
        fn_ref = some ("fn () void", "worker");
      }
      ∷ [];
}

abbrev scanned_program : Inputs
scanned_program = record {
  functions = ("main", scanned_main) ∷ [];
  version = "0.16.0";
  models = [];
  registry = [];
  key = λ name. name;
}

traverse-scan : traverse scan (air ∷ []) ≡ ok scanned_program.functions
unfolding traverse scan air2lean.Json.get air2lean.Json.has air2lean.Json.listed
    air2lean.Json.natural_of
traverse-scan = refl

scanned_run_returns_example : (t : Resolved) × (run scanned_program ("main" ∷ []) ≡ ok t)
scanned_run_returns_example =
    scanned_run_returns scanned_program (air ∷ []) ("main" ∷ []) traverse-scan (λ name. refl)

renamed_run : renamed "a__func_3__func_x" ≡ "a__anon_3__func_x"
unfolding renamed
renamed_run = refl
