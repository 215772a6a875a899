-- ===== src/Closure/Search/Keeps.antt =====
-- What every `visit` of scripts/dependency-closure.py keeps, the body of the loop keeps.
use air2lean.Base.{
  String, Option, none, some, Bool, true, false, List, [], ◌∷◌, ◌≡◌, refl, if◌then◌else◌,
}
use air2lean.Closure.{
  Instruction, Call, Inputs, Class, exported, modelled, missing, unresolvable, Scanned, Global,
}
use air2lean.Closure.Names.{panic_handler}
use air2lean.Closure.State.{State, class_of}
use air2lean.Closure.Visit.{visit, boundary}
use air2lean.Closure.Search.{
  visit_call, visit_calls, visit_values, visit_functions, visit_globals, enter_global, visit_worker,
  visit_function, expand, exported_class, global_boundary, global_class, label, record_global,
}

-- The two states differ in their boundaries and globals at most.
pub record SameSearch (s t : State) : Type 0 where
  pub nodes : t.nodes ≡ s.nodes
  pub parent : t.parent ≡ s.parent
  pub finished : t.finished ≡ s.finished
  pub pending : t.pending ≡ s.pending

module _ {ℓ} (c : Inputs) (P : State → Type ℓ) (caller : String)
    (visits : (name edge : String) (i : Instruction) (panic : Bool) (s : State)
      → P s
      → P (visit c (some caller) name edge i panic s))
    (others : (s t : State) → SameSearch s t → P s → P t) where
  boundary-keeps :
      (function : String) (i : Instruction) (class : Class) (kind : String)
      (target reason : Option String) (s : State)
      → P s
      → P (boundary function i class kind target reason s)
  unfolding boundary
  boundary-keeps function i class kind target reason s =
      others s (boundary function i class kind target reason s)
        (record { nodes = refl; parent = refl; finished = refl; pending = refl })

  visit_worker-keeps : (call : Call) (s : State) → P s → P (visit_worker c caller call s)
  unfolding visit_worker visit_function
  visit_worker-keeps call s p =
      turn (exported_class (class_of (c.key call.target) s)) call.comptime_fn
    where
      turn :
          (b : Bool) (o : Option String)
          → P (if b then s else visit_function c caller o call.instruction s)
      turn true o = p
      turn false none = p
      turn false (some worker) =
          visits worker "comptime_function_argument" call.instruction false s p

  visit_call-keeps : (call : Call) (s : State) → P s → P (visit_call c caller call s)
  unfolding visit_call
  visit_call-keeps call s p = turn call.noreturn (panic_handler call.target)
    where
      turn :
          (n h : Bool)
          → P (
              if n
              then if h
                then visit c (some caller) call.target "panic_call" call.instruction true s
                else boundary caller call.instruction unresolvable "unmodelled_noreturn_callee"
                    (some call.target)
                    (some
                      "a noreturn callee other than a recognized panic handler is emitted as a panic")
                    s
              else visit_worker c caller call
                  (visit c (some caller) call.target "direct_call" call.instruction false s))
      turn true true = visits call.target "panic_call" call.instruction true s p
      turn true false =
          boundary-keeps caller call.instruction unresolvable "unmodelled_noreturn_callee"
            (some call.target)
            (some "a noreturn callee other than a recognized panic handler is emitted as a panic") s
            p
      turn false h =
          visit_worker-keeps call
            (visit c (some caller) call.target "direct_call" call.instruction false s)
            (visits call.target "direct_call" call.instruction false s p)

  visit_calls-keeps : (xs : List Call) (s : State) → P s → P (visit_calls c caller xs s)
  unfolding visit_calls
  visit_calls-keeps [] s p = p
  visit_calls-keeps (call ∷ xs) s p =
      visit_calls-keeps xs (visit_call c caller call s) (visit_call-keeps call s p)

  visit_values-keeps :
      (xs : List (String × Instruction)) (s : State) → P s → P (visit_values c caller xs s)
  unfolding visit_values
  visit_values-keeps [] s p = p
  visit_values-keeps ((target, i) ∷ xs) s p =
      visit_values-keeps xs (visit c (some caller) target "function_value" i false s)
        (visits target "function_value" i false s p)

  visit_functions-keeps : (xs : List String) (s : State) → P s → P (visit_functions c caller xs s)
  unfolding visit_functions
  visit_functions-keeps [] s p = p
  visit_functions-keeps (target ∷ xs) s p =
      visit_functions-keeps xs
        (visit c (some caller) target "global_function_reference" none false s)
        (visits target "global_function_reference" none false s p)

  global_boundary-keeps :
      (name : String) (class : Class) (kind : String) (reason : Option String) (s : State)
      → P s
      → P (global_boundary caller name (class, kind, reason) s)
  unfolding global_boundary
  global_boundary-keeps name unresolvable kind reason s p =
      boundary-keeps caller none unresolvable kind (some name) reason s p
  global_boundary-keeps name exported kind reason s p = p
  global_boundary-keeps name modelled kind reason s p = p
  global_boundary-keeps name missing kind reason s p = p

  enter_global-keeps : (g : Global) (s : State) → P s → P (enter_global caller g s)
  unfolding enter_global
  enter_global-keeps g s p =
      let name = label caller g in
      let (class, kind, reason) = global_class g in
      let t = record s { globals = record_global caller name (class, kind, reason) s.globals } in
      global_boundary-keeps name class kind reason t
        (others s t (record { nodes = refl; parent = refl; finished = refl; pending = refl }) p)

  visit_globals-keeps : (xs : List Global) (s : State) → P s → P (visit_globals c caller xs s)
  unfolding visit_globals
  visit_globals-keeps [] s p = p
  visit_globals-keeps (g ∷ xs) s p =
      visit_globals-keeps xs (visit_functions c caller g.functions (enter_global caller g s))
        (visit_functions-keeps g.functions (enter_global caller g s) (enter_global-keeps g s p))

  pub expand-keeps : (info : Scanned) (s : State) → P s → P (expand c caller info s)
  unfolding expand
  expand-keeps info s p =
      visit_globals-keeps info.globals
        (visit_values c caller info.values (visit_calls c caller info.calls s))
        (visit_values-keeps info.values (visit_calls c caller info.calls s)
          (visit_calls-keeps info.calls s p))
