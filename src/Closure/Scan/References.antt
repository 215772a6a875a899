-- ===== src/Closure/Scan/References.antt =====
-- The function that a global holds is among the functions of its initial value, in what `scan` of
-- scripts/dependency-closure.py returns; so the closure of scanned functions looks up no missing name.
use air2lean.Base.{
  ℕ, suc, String, Option, none, some, Bool, true, false, ◌&&◌, List, [], ◌∷◌, ◌++◌, ◌≡◌, refl, ap,
  sym, ◌∙◌, str_eq, eq_iff, Bool-cases, inl, inr, arith, all, All, if◌then◌else◌,
}
use air2lean.Base.Result.{Result, ok, err, ◌>>=◌, >>=-eq-ok, ok-injective, traverse, traverse-All}
use air2lean.Json.{Json, Items, Fields, str, arr, obj, nil, cons, get, listed}
use air2lean.Closure.{Scanned, Global, Inputs}
use air2lean.Closure.Scan.{renamed_json, as_list, entry, fn_name, func, refs, field_refs}
use air2lean.Closure.Scan.Collect.{
  ScanFailure, malformed, reference, of_init, global, globals_of, collected, global_items, types_of,
  scan_fields, scan, is_017,
}
use air2lean.Closure.Report.{Resolved, run}
use air2lean.Closure.Report.Returns.{ref_listed, well_scanned, run_returns}

named-listed :
    (o : Option String) (name : String) (xs : List String)
    → o ≡ some name
    → listed name (as_list o ++ xs) ≡ true
unfolding listed
named-listed none name xs h = cc
named-listed (some s) name xs h = ground (arith, eq_iff s name)

func-listed : (v : Json) (name : String) → func v ≡ some name → listed name (refs v) ≡ true
unfolding refs func
func-listed (obj fs) name h = named-listed (func (obj fs)) name (field_refs fs) h
func-listed _ name h = cc

-- What `reference` gives is listed among the functions of the initial value.
abbrev Listed : Option (String × String) → Option Json → Type 0
Listed o init =
    (elim o as (λ _. Bool) [ none ↦ true | some (ty, name) ↦ listed name (of_init init) ]) ≡ true

reference-Listed : (ty : Option String) (init : Option Json) → Listed (reference ty init) init
unfolding reference of_init
reference-Listed none init = refl
reference-Listed (some ty) none = refl
reference-Listed (some ty) (some v) = turn (func v) refl
  where
    turn :
        (o : Option String)
        → func v ≡ o
        → Listed
            (elim o [ some top ↦ if str_eq top "" then none else some (ty, top) | none ↦ none ])
            (some v)
    turn none h = refl
    turn (some top) h = inner (str_eq top "")
      where
        inner : (b : Bool) → Listed (if b then none else some (ty, top)) (some v)
        inner true = refl
        inner false = func-listed v top h

global-listed :
    (types : Items) (index : ℕ) (fs : Fields) → ref_listed (global types index fs) ≡ true
unfolding ref_listed global
global-listed types index fs =
    reference-Listed (fn_name (entry types (get "ty" fs))) (get "init" fs)

globals_of-listed :
    (types : Items) (index : ℕ) (xs : Items) (gs : List Global)
    → globals_of types index xs ≡ ok gs
    → all ref_listed gs ≡ true
unfolding globals_of
globals_of-listed types index nil gs h = ap (all ref_listed) (sym (ok-injective h))
globals_of-listed types index (cons (obj fs) xs) gs h =
    let (rest, e, h1) = >>=-eq-ok (globals_of types (suc index) xs) _ h in
    ap (all ref_listed) (sym (ok-injective h1))
    ∙ both (ref_listed (global types index fs)) (all ref_listed rest) (global-listed types index fs)
        (globals_of-listed types (suc index) xs rest e)
  where
    both : (a b : Bool) → a ≡ true → b ≡ true → (a && b) ≡ true
    both a b h g = ground arith
globals_of-listed types index (cons _ xs) gs h = cc

collected-listed :
    (types : Items) (body : Json) (globals : Items) (s : Scanned)
    → collected types body globals ≡ ok s
    → all ref_listed s.globals ≡ true
unfolding collected
collected-listed types body globals s h =
    let (found, e, h1) = >>=-eq-ok (globals_of types 0 globals) _ h in
    ap (λ t. all ref_listed t.globals) (sym (ok-injective h1))
    ∙ globals_of-listed types 0 globals found e

scan_fields-listed :
    (fs : Fields) (found : String × Scanned)
    → scan_fields fs ≡ ok found
    → all ref_listed found.1.globals ≡ true
unfolding scan_fields
scan_fields-listed fs found h = named (get "name" fs) h
  where
    bodied :
        (name : String) (o : Option Json)
        → (elim o [
          | some (arr body) ↦ do
            globals ← global_items (get "globals" fs)
            s ← collected (types_of (get "types" fs)) (arr body) globals
            ok (name, s)
          | _ ↦ err malformed
        ])
          ≡ ok found
        → all ref_listed found.1.globals ≡ true
    bodied name (some (arr body)) h =
        let (globals, _, h1) = >>=-eq-ok (global_items (get "globals" fs)) _ h in
        let (s, e, h2) =
          >>=-eq-ok (collected (types_of (get "types" fs)) (arr body) globals) _ h1 in
        ap (λ f. all ref_listed f.1.globals) (sym (ok-injective h2))
        ∙ collected-listed (types_of (get "types" fs)) (arr body) globals s e
    bodied name _ h = cc

    named :
        (o : Option Json)
        → (elim o [
          | some (str name) ↦ elim (get "body" fs) [
            | some (arr body) ↦ do
              globals ← global_items (get "globals" fs)
              s ← collected (types_of (get "types" fs)) (arr body) globals
              ok (name, s)
            | _ ↦ err malformed
          ]
          | _ ↦ err malformed
        ])
          ≡ ok found
        → all ref_listed found.1.globals ≡ true
    named (some (str name)) h = bodied name (get "body" fs) h
    named _ h = cc

scan-listed :
    (air : Json) (found : String × Scanned)
    → scan air ≡ ok found
    → all ref_listed found.1.globals ≡ true
unfolding scan
scan-listed (obj fs) found h = turn (scan_fields fs) refl h
  where
    later : Json → Result ScanFailure (String × Scanned)
    later (obj gs) = scan_fields gs
    later _ = err malformed

    later-listed : (v : Json) → later v ≡ ok found → all ref_listed found.1.globals ≡ true
    later-listed (obj gs) h = scan_fields-listed gs found h
    later-listed _ h = cc

    turn :
        (r : Result ScanFailure (String × Scanned))
        → scan_fields fs ≡ r
        → (elim r [
          | err e ↦ err e
          | ok s ↦ if is_017 (get "zig_version" fs) then later (renamed_json (obj fs)) else ok s
        ])
          ≡ ok found
        → all ref_listed found.1.globals ≡ true
    turn (err e) g h = cc
    turn (ok s) g h = elim (Bool-cases (is_017 (get "zig_version" fs))) [
      | inl e ↦ later-listed (renamed_json (obj fs)) (ground arith)
      | inr e ↦ scan_fields-listed fs found (g ∙ ground arith)
    ]
scan-listed _ found h = cc

scanned_well :
    (airs : List Json) (functions : List (String × Scanned))
    → traverse scan airs ≡ ok functions
    → well_scanned functions ≡ true
unfolding well_scanned
scanned_well airs functions h =
    every functions
      (traverse-All scan (λ f. all ref_listed f.1.globals ≡ true) scan-listed airs functions h)
  where
    every :
        (fs : List (String × Scanned))
        → All (λ f. all ref_listed f.1.globals ≡ true) fs
        → all (λ f. all ref_listed f.1.globals) fs ≡ true
    every [] ps = refl
    every (f ∷ fs) (p, ps) = ground (arith, every fs ps)

-- On functions that `scan` read from their AIR, `run` returns, whatever the roots, the models and the
-- registry, if the key of a name is stable.
pub scanned_run_returns :
    (c : Inputs) (airs : List Json) (roots : List String)
    → traverse scan airs ≡ ok c.functions
    → ((name : String) → c.key (c.key name) ≡ c.key name)
    → (t : Resolved) × (run c roots ≡ ok t)
scanned_run_returns c airs roots scanned stable =
    run_returns c roots stable (scanned_well airs c.functions scanned)
