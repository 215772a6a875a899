-- ===== src/Closure/Search/Expand.antt =====
-- `expand` visits exactly the dependencies of the function at the cursor: the loops over its calls,
-- its function values and its globals in scripts/dependency-closure.py.
use air2lean.Base.{
  String, Option, none, some, false, List, [], ◌∷◌, ◌≡◌, refl, ◌⊎◌, inl, inr, Any, here, there,
}
use air2lean.Closure.{
  Instruction, Call, Inputs, Class, exported, modelled, missing, Scanned, Global, unresolvable,
}
use air2lean.Closure.State.{State, class_of}
use air2lean.Closure.Visit.{visit}
use air2lean.Closure.Search.{
  visit_call, visit_calls, visit_values, visit_functions, visit_globals, enter_global, expand,
  global_boundary, global_class, label, record_global,
}
use air2lean.Closure.Search.Extends.{Visited, Extends, visit-Extends, same-Extends, then-Extends}
use air2lean.Closure.Search.Body.{
  CallDep, calls, Depends, by_call, by_value, by_global, classes_of, Knows, CallDep-later,
  CallDep-earlier, boundary-Extends, visit_call-Extends,
}

pub no-Any {ℓ κ} : {A : Type ℓ} {P : A → Type κ} → ¬ Any P []
no-Any a = elim a [ ]

pub Any-cons {ℓ κ} :
    {A : Type ℓ} {P : A → Type κ} {x : A} {xs : List A} → Any P (x ∷ xs) → P x ⊎ Any P xs
Any-cons (here p) = inl p
Any-cons (there r) = inr r

pub cons-Any {ℓ κ} :
    {A : Type ℓ} {P : A → Type κ} {x : A} {xs : List A} → P x ⊎ Any P xs → Any P (x ∷ xs)
cons-Any (inl p) = here p
cons-Any (inr r) = there r

pub Any-map {ℓ κ μ} :
    {A : Type ℓ} {P : A → Type κ} {Q : A → Type μ}
    → ((x : A) → P x → Q x)
    → (xs : List A) → Any P xs
    → Any Q xs
Any-map f [] a = elim a [ ]
Any-map f (x ∷ xs) (here p) = here (f x p)
Any-map f (x ∷ xs) (there r) = there (Any-map f xs r)

module _ (c : Inputs) where
  nothing : (P : String → Type 0) → ((j : String) → ¬ P j) → (s : State) → Extends c P s s
  nothing P never s = same-Extends c P never s s (λ j. refl) refl refl

  visit_calls-Extends :
      (caller : String) (xs : List Call) (s : State)
      → Extends c
          (λ j. Any (λ call. CallDep c (classes_of (visit_calls c caller xs s)) call j) xs)
          s
          (visit_calls c caller xs s)
  unfolding visit_calls
  visit_calls-Extends caller [] s = nothing _ (λ j. no-Any) s
  visit_calls-Extends caller (call ∷ xs) s =
      let t = visit_call c caller call s in
      let u = visit_calls c caller xs t in
      let first = visit_call-Extends c caller call s in
      let rest = visit_calls-Extends caller xs t in
      then-Extends c first rest
        (λ j h. elim h [
          | inl d ↦ here (CallDep-later c (classes_of t) (classes_of u) call j rest.grows d)
          | inr r ↦ there r
        ])
        (λ j h. elim (Any-cons h) [
          | inl d ↦ inl (
              CallDep-earlier c (classes_of t) (classes_of u) call j rest.grows
                (λ n. first.covers (c.key call.target) (calls n)) d)
          | inr r ↦ inr r
        ])

  visit_values-Extends :
      (caller : String) (xs : List (String × Instruction)) (s : State)
      → Extends c (λ j. Any (λ v. j ≡ c.key v.0) xs) s (visit_values c caller xs s)
  unfolding visit_values
  visit_values-Extends caller [] s = nothing _ (λ j. no-Any) s
  visit_values-Extends caller ((target, i) ∷ xs) s =
      then-Extends c (visit-Extends c (some caller) target "function_value" i false s)
        (visit_values-Extends caller xs (visit c (some caller) target "function_value" i false s))
        (λ j. cons-Any) (λ j. Any-cons)

  visit_functions-Extends :
      (caller : String) (xs : List String) (s : State)
      → Extends c (λ j. Any (λ f. j ≡ c.key f) xs) s (visit_functions c caller xs s)
  unfolding visit_functions
  visit_functions-Extends caller [] s = nothing _ (λ j. no-Any) s
  visit_functions-Extends caller (target ∷ xs) s =
      then-Extends c (visit-Extends c (some caller) target "global_function_reference" none false s)
        (visit_functions-Extends caller xs
          (visit c (some caller) target "global_function_reference" none false s))
        (λ j. cons-Any) (λ j. Any-cons)

  global_boundary-Extends :
      (caller name : String) (class : Class) (kind : String) (reason : Option String) (s : State)
      → Extends c (λ j. ⊥) s (global_boundary caller name (class, kind, reason) s)
  unfolding global_boundary
  global_boundary-Extends caller name unresolvable kind reason s =
      boundary-Extends c (λ j. ⊥) (λ j h. h) caller none unresolvable kind (some name) reason s
  global_boundary-Extends caller name exported kind reason s = nothing (λ j. ⊥) (λ j h. h) s
  global_boundary-Extends caller name modelled kind reason s = nothing (λ j. ⊥) (λ j h. h) s
  global_boundary-Extends caller name missing kind reason s = nothing (λ j. ⊥) (λ j h. h) s

  enter_global-Extends :
      (caller : String) (g : Global) (s : State) → Extends c (λ j. ⊥) s (enter_global caller g s)
  unfolding enter_global class_of
  enter_global-Extends caller g s =
      (let name = label caller g in
        let (class, kind, reason) = global_class g in
        let t = record s { globals = record_global caller name (class, kind, reason) s.globals } in
        then-Extends c (same-Extends c (λ j. ⊥) (λ j h. h) s t (λ j. refl) refl refl)
          (global_boundary-Extends caller name class kind reason t)
          (λ j h. elim h [ inl z ↦ z | inr z ↦ z ]) (λ j. inl))

  visit_globals-Extends :
      (caller : String) (xs : List Global) (s : State)
      → Extends c
          (λ j. Any (λ g. Any (λ f. j ≡ c.key f) g.functions) xs)
          s
          (visit_globals c caller xs s)
  unfolding visit_globals
  visit_globals-Extends caller [] s = nothing _ (λ j. no-Any) s
  visit_globals-Extends caller (g ∷ xs) s =
      let t = enter_global caller g s in
      let u = visit_functions c caller g.functions t in
      let first =
        then-Extends c {R = λ j. Any (λ f. j ≡ c.key f) g.functions}
          (enter_global-Extends caller g s) (visit_functions-Extends caller g.functions t)
          (λ j h. elim h [ inl z ↦ absurd z | inr r ↦ r ]) (λ j. inr) in
      then-Extends c first (visit_globals-Extends caller xs u) (λ j. cons-Any) (λ j. Any-cons)

  -- What depends on the calls now, did so before more names were visited.
  pub calls-earlier :
      (before later : String → Option Class)
      → Knows before later
      → (xs : List Call)
      → ((j : String)
          → Any (λ call. CallDep c before call j) xs
          → (x : Class) × (before j ≡ some x))
      → (j : String) → Any (λ call. CallDep c later call j) xs
      → Any (λ call. CallDep c before call j) xs
  calls-earlier before later grows [] covers j a = elim a [ ]
  calls-earlier before later grows (call ∷ xs) covers j (here d) = here (
      CallDep-earlier c before later call j grows (λ n. covers (c.key call.target) (here (calls n)))
        d)
  calls-earlier before later grows (call ∷ xs) covers j (there r) =
      there (calls-earlier before later grows xs (λ i a. covers i (there a)) j r)

  pub expand-Extends :
      (caller : String) (info : Scanned) (s : State)
      → Extends c (Depends c (classes_of (expand c caller info s)) info) s (expand c caller info s)
  unfolding expand
  expand-Extends caller info s =
      (let s1 = visit_calls c caller info.calls s in
        let s2 = visit_values c caller info.values s1 in
        let s3 = visit_globals c caller info.globals s2 in
        let first = visit_calls-Extends caller info.calls s in
        let second =
          then-Extends c (visit_values-Extends caller info.values s1)
            (visit_globals-Extends caller info.globals s2) (λ j h. h) (λ j h. h) in
        then-Extends c first second
          (λ j h. elim h [
            | inl a ↦ by_call (
                Any-map
                  (λ call d. CallDep-later c (classes_of s1) (classes_of s3) call j second.grows d)
                  info.calls a)
            | inr (inl v) ↦ by_value v
            | inr (inr g) ↦ by_global g
          ])
          (λ j. back s1 s3 second.grows first.covers j))
    where
      back :
          (s1 s3 : State)
          → Knows (classes_of s1) (classes_of s3)
          → ((j : String)
              → Any (λ call. CallDep c (classes_of s1) call j) info.calls
              → Visited j s1)
          → (j : String) → Depends c (classes_of s3) info j
          → Any (λ call. CallDep c (classes_of s1) call j) info.calls
            ⊎ (Any (λ v. j ≡ c.key v.0) info.values
                ⊎ Any (λ g. Any (λ f. j ≡ c.key f) g.functions) info.globals)
      back s1 s3 grows covers j (by_call a) =
          inl (calls-earlier (classes_of s1) (classes_of s3) grows info.calls covers j a)
      back s1 s3 grows covers j (by_value v) = inr (inl v)
      back s1 s3 grows covers j (by_global g) = inr (inr g)
