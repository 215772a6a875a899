-- ===== src/Closure/Scan/Collect.antt =====
-- What `scan` of scripts/dependency-closure.py returns: the references of the body and of the globals.
use air2lean.Base.{
  ℕ, suc, zero, String, Option, none, some, Bool, false, List, [], ◌∷◌, map, str_eq, if◌then◌else◌,
}
use air2lean.Base.Int.{pos}
use air2lean.Base.Result.{Result, ok, err, ◌>>=◌}
use air2lean.Json.{Json, Items, Fields, null, bool, int, str, arr, obj, nil, cons, end, get, has}
use air2lean.Closure.{instruction_eq, Instruction, Site, Global, Scanned}
use air2lean.Closure.Scan.{renamed_json, entry, fn_name, fn_type, func, refs}
use air2lean.Closure.Scan.Walk.{Callee, typed, operand, text_of, is_true, walk}

pub data ScanFailure : Type 0 where
  malformed : ScanFailure

-- `insts.get(operand)`
type_of : Instruction → List (Instruction × Option Json) → Option Json
unfolding instruction_eq
type_of id [] = none
type_of id ((j, ty) ∷ rest) = if instruction_eq j id then ty else type_of id rest

unfoldable pub site : Items → List (Instruction × Option Json) → Instruction × Callee → Site
unfolding type_of fn_type
site types insts (id, typed ty) = record { instruction = id; fn_type = ty }
site types insts (id, operand o) = record {
  instruction = id;
  fn_type = fn_type types (type_of o insts);
}

unfoldable pub of_init : Option Json → List String
unfolding refs
of_init none = []
of_init (some v) = refs v

-- The function of an initial value that is a function of a function type.
unfoldable pub reference : Option String → Option Json → Option (String × String)
unfolding func
reference (some ty) (some v) = elim (func v) [
  | some top ↦ if str_eq top "" then none else some (ty, top)
  | none ↦ none
]
reference _ _ = none

unfoldable pub global : Items → ℕ → Fields → Global
unfolding text_of is_true of_init reference entry fn_name
global types index fs = record {
  index = index;
  name = text_of (get "name" fs);
  is_extern = is_true (get "extern" fs);
  threadlocal = is_true (get "threadlocal" fs);
  has_init = has "init" fs;
  functions = of_init (get "init" fs);
  fn_ref = reference (fn_name (entry types (get "ty" fs))) (get "init" fs);
}

unfoldable pub globals_of : Items → ℕ → Items → Result ScanFailure (List Global)
unfolding global
globals_of types index nil = ok []
globals_of types index (cons (obj fs) gs) = do
  rest ← globals_of types (suc index) gs
  ok (global types index fs ∷ rest)
globals_of types index (cons _ gs) = err malformed

-- `air.get('globals') or []`, of a list
unfoldable pub global_items : Option Json → Result ScanFailure Items
global_items (some (arr xs)) = ok xs
global_items (some null) = ok nil
global_items (some (bool false)) = ok nil
global_items (some (int (pos zero))) = ok nil
global_items (some (str String.[])) = ok nil
global_items (some (obj end)) = ok nil
global_items none = ok nil
global_items _ = err malformed

unfoldable pub types_of : Option Json → Items
types_of (some (arr xs)) = xs
types_of _ = nil

-- What the scan collects from a function of the body and the types.
unfoldable pub collected : Items → Json → Items → Result ScanFailure Scanned
unfolding walk site globals_of
collected types body globals = do
  let w = walk types body (record { calls = []; values = []; indirect = []; insts = [] })
  found ← globals_of types 0 globals
  ok (record {
    calls = w.calls;
    values = w.values;
    indirect = map (site types w.insts) w.indirect;
    globals = found;
  })

unfoldable pub scan_fields : Fields → Result ScanFailure (String × Scanned)
unfolding collected global_items types_of
scan_fields fs = elim (get "name" fs) [
  | some (str name) ↦ elim (get "body" fs) [
    | some (arr body) ↦ do
      globals ← global_items (get "globals" fs)
      found ← collected (types_of (get "types" fs)) (arr body) globals
      ok (name, found)
    | _ ↦ err malformed
  ]
  | _ ↦ err malformed
]

unfoldable pub is_017 : Option Json → Bool
is_017 (some (str v)) = str_eq v "0.17.0"
is_017 _ = false

-- `scan`: the name of the function and its references.
unfoldable pub scan : Json → Result ScanFailure (String × Scanned)
unfolding scan_fields is_017 renamed_json
scan (obj fs) = elim (scan_fields fs) [
  | err e ↦ err e
  | ok found ↦
      if is_017 (get "zig_version" fs) then renamed_scan (renamed_json (obj fs)) else ok found
]
  where
    renamed_scan : Json → Result ScanFailure (String × Scanned)
    renamed_scan (obj gs) = scan_fields gs
    renamed_scan _ = err malformed
scan _ = err malformed
