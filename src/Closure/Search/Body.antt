-- ===== src/Closure/Search/Body.antt =====
-- The names that the body of the loop of scripts/dependency-closure.py visits for one function: a
-- declarative account of its dependencies, and that `expand` visits these and no other.
use air2lean.Base.{
  String, Option, none, some, Bool, true, false, ◌≡◌, refl, sym, ap, subst, if◌then◌else◌, arith,
  ◌⊎◌, inl, inr, Any,
}
use air2lean.Closure.{Instruction, Call, Inputs, Class, unresolvable, is_exported, Scanned}
use air2lean.Closure.Names.{panic_handler}
use air2lean.Closure.State.{State, class_of}
use air2lean.Closure.Visit.{visit, boundary}
use air2lean.Closure.Search.{visit_call, visit_worker, visit_function, exported_class}
use air2lean.Closure.Search.Extends.{Extends, visit-Extends, same-Extends, then-Extends}

-- What a call depends on: a panic handler that it names, its callee, and the function that it gives at
-- compile time to a callee whose AIR is not exported.
pub data CallDep (c : Inputs) (classes : String → Option Class) (call : Call)
    : String → Type 0 where
  panics :
      call.noreturn ≡ true
      → panic_handler call.target ≡ true
      → CallDep c classes call (c.key call.target)
  calls : call.noreturn ≡ false → CallDep c classes call (c.key call.target)
  spawns :
      {worker : String} {x : Class}
      → call.noreturn ≡ false
      → call.comptime_fn ≡ some worker
      → classes (c.key call.target) ≡ some x
      → is_exported x ≡ false
      → CallDep c classes call (c.key worker)

-- The function depends on the name: by a call, a function value, or the initial value of a global.
pub data Depends (c : Inputs) (classes : String → Option Class) (info : Scanned) (j : String)
    : Type 0 where
  by_call : Any (λ call. CallDep c classes call j) info.calls → Depends c classes info j
  by_value : Any (λ v. j ≡ c.key v.0) info.values → Depends c classes info j
  by_global : Any (λ g. Any (λ f. j ≡ c.key f) g.functions) info.globals → Depends c classes info j

abbrev pub classes_of : State → String → Option Class
classes_of s j = class_of j s

-- Every class that the first knows, the second knows.
abbrev pub Knows : (String → Option Class) → (String → Option Class) → Type 0
Knows before later = (j : String) (x : Class) → before j ≡ some x → later j ≡ some x

module _ (c : Inputs) where
  -- A dependency stays one when more names are visited.
  pub CallDep-later :
      (before later : String → Option Class) (call : Call) (j : String)
      → Knows before later
      → CallDep c before call j
      → CallDep c later call j
  CallDep-later before later call _ grows (panics n p) = panics n p
  CallDep-later before later call _ grows (calls n) = calls n
  CallDep-later before later call _ grows (spawns {x = x} n w e f) =
      spawns n w (grows (c.key call.target) x e) f

  -- It was one before, if the callee was visited.
  pub CallDep-earlier :
      (before later : String → Option Class) (call : Call) (j : String)
      → Knows before later
      → (call.noreturn ≡ false → (x : Class) × (before (c.key call.target) ≡ some x))
      → CallDep c later call j
      → CallDep c before call j
  CallDep-earlier before later call _ grows callee (panics n p) = panics n p
  CallDep-earlier before later call _ grows callee (calls n) = calls n
  CallDep-earlier before later call _ grows callee (spawns n w e f) =
      (let (y, g) = callee n in spawns n w g (ground (arith, grows (c.key call.target) y g)))

  pub boundary-Extends :
      (P : String → Type 0)
      → ((j : String) → ¬ P j)
      → (function : String) (i : Instruction) (class : Class) (kind : String)
        (target reason : Option String) (s : State)
      → Extends c P s (boundary function i class kind target reason s)
  unfolding boundary class_of
  boundary-Extends P never function i class kind target reason s =
      same-Extends c P never s (boundary function i class kind target reason s) (λ j. refl) refl
        refl

  -- The same names, described in another way.
  restated :
      {P Q : String → Type 0} {s t : State}
      → Extends c P s t
      → ((j : String) → P j → Q j)
      → ((j : String) → Q j → P j)
      → Extends c Q s t
  restated {P} {Q} {s} {t} e to from =
      then-Extends c e (same-Extends c (λ _. ⊥) (λ j h. h) t t (λ j. refl) refl refl)
        (λ j h. elim h [ inl p ↦ to j p | inr z ↦ absurd z ]) (λ j q. inl (from j q))

  module _ (classes : String → Option Class) (call : Call) where
    panic-dep :
        call.noreturn ≡ true
        → (j : String) → CallDep c classes call j
        → (panic_handler call.target ≡ true) × (j ≡ c.key call.target)
    panic-dep n _ (panics m p) = (p, refl)
    panic-dep n _ (calls m) = absurd (ground arith)
    panic-dep n _ (spawns m w e f) = absurd (ground arith)

    call-dep :
        call.noreturn ≡ false
        → (j : String) → CallDep c classes call j
        → (j ≡ c.key call.target)
          ⊎ ((worker : String) × (call.comptime_fn ≡ some worker)
              × (j ≡ c.key worker)
              × (exported_class (classes (c.key call.target)) ≡ false))
    unfolding exported_class
    call-dep n _ (panics m p) = absurd (ground arith)
    call-dep n _ (calls m) = inl refl
    call-dep n _ (spawns {worker} {x} m w e f) =
        inr (worker, w, refl, ground (arith, f, ap exported_class e))

    at_target :
        call.noreturn ≡ false → (j : String) → j ≡ c.key call.target → CallDep c classes call j
    at_target n j e = subst (CallDep c classes call) (sym e) (calls n)

  not-exported :
      (o : Option Class)
      → ((x : Class) × (o ≡ some x))
      → exported_class o ≡ false
      → (x : Class) × (o ≡ some x) × (is_exported x ≡ false)
  unfolding exported_class
  not-exported none (x, e) h = absurd (ground arith)
  not-exported (some y) (x, e) h = (y, refl, h)

  visit_worker-Extends :
      (caller : String) (call : Call) (s t : State)
      → call.noreturn ≡ false
      → Extends c (λ j. j ≡ c.key call.target) s t
      → Extends c
          (CallDep c (classes_of (visit_worker c caller call t)) call)
          s
          (visit_worker c caller call t)
  unfolding visit_worker visit_function
  visit_worker-Extends caller call s t n first =
      turn (exported_class (class_of (c.key call.target) t)) refl call.comptime_fn refl
    where
      turn :
          (b : Bool)
          → exported_class (class_of (c.key call.target) t) ≡ b
          → (o : Option String) → call.comptime_fn ≡ o
          → Extends c
              (CallDep c
                (classes_of (if b then t else visit_function c caller o call.instruction t))
                call)
              s
              (if b then t else visit_function c caller o call.instruction t)
      turn true e o w = restated first (at_target (classes_of t) call n) (λ j d.
          elim (call-dep (classes_of t) call n j d) [
            | inl g ↦ g
            | inr (worker, _, _, f) ↦ absurd (ground arith)
          ])
      turn false e none w = restated first (at_target (classes_of t) call n) (λ j d.
          elim (call-dep (classes_of t) call n j d) [
            | inl g ↦ g
            | inr (worker, v, _, f) ↦ absurd (ground arith)
          ])
      turn false e (some worker) w =
          let second =
            visit-Extends c (some caller) worker "comptime_function_argument" call.instruction false
              t in
          let u =
            visit c (some caller) worker "comptime_function_argument" call.instruction false t in
          let (x, known, closed) =
            not-exported (class_of (c.key call.target) t) (first.covers (c.key call.target) refl)
              e in
          then-Extends c first second
            (λ j h. elim h [
              | inl g ↦ at_target (classes_of u) call n j g
              | inr g ↦
                  subst (CallDep c (classes_of u) call) (sym g)
                    (spawns n w (second.grows (c.key call.target) x known) closed)
            ])
            (λ j d. elim (call-dep (classes_of u) call n j d) [
              | inl g ↦ inl g
              | inr (other, v, g, f) ↦ inr (ground (arith, ap c.key))
            ])

  pub visit_call-Extends :
      (caller : String) (call : Call) (s : State)
      → Extends c
          (CallDep c (classes_of (visit_call c caller call s)) call)
          s
          (visit_call c caller call s)
  unfolding visit_call
  visit_call-Extends caller call s = turn call.noreturn refl (panic_handler call.target) refl
    where
      turn :
          (n : Bool)
          → call.noreturn ≡ n
          → (p : Bool) → panic_handler call.target ≡ p
          → (let later =
                (if n
                  then if p
                    then visit c (some caller) call.target "panic_call" call.instruction true s
                    else boundary caller call.instruction unresolvable "unmodelled_noreturn_callee"
                        (some call.target)
                        (some
                          "a noreturn callee other than a recognized panic handler is emitted as a panic")
                        s
                  else visit_worker c caller call
                      (visit c (some caller) call.target "direct_call" call.instruction false s)) in
              Extends c (CallDep c (classes_of later) call) s later)
      turn false e p g =
          visit_worker-Extends caller call s
            (visit c (some caller) call.target "direct_call" call.instruction false s) e
            (visit-Extends c (some caller) call.target "direct_call" call.instruction false s)
      turn true e true g =
          restated (visit-Extends c (some caller) call.target "panic_call" call.instruction true s)
            (λ j h. subst (CallDep c _ call) (sym h) (panics e g))
            (λ j d. (panic-dep _ call e j d).1)
      turn true e false g =
          boundary-Extends _ (λ j d. ground (arith, (panic-dep _ call e j d).0)) caller
            call.instruction unresolvable "unmodelled_noreturn_callee" (some call.target)
            (some "a noreturn callee other than a recognized panic handler is emitted as a panic") s
