-- ===== src/Closure/Search/Work.antt =====
-- The measure of the search of scripts/dependency-closure.py: the functions that are not visited, and
-- the functions in the queue.
use air2lean.Base.{
  ℕ, ◌+◌, ◌≤◌, ◌<◌, String, Option, none, some, Bool, true, false, List, [], ◌∷◌, ◌++◌, ◌≡◌, refl,
  sym, ap, ◌∙◌, arith, ◌⊎◌, inl, inr, length, length-append, sum_of, Bool-cases, str_eq, eq_iff,
}
use air2lean.Closure.{Instruction, Inputs, Class, is_exported, Scanned, value_of, Model}
use air2lean.Closure.Names.{instance_base}
use air2lean.Closure.State.{
  State, class_of, classify, in_functions, of_model, unmodelled, start, class_at,
}
use air2lean.Closure.Visit.{visit, explain}
use air2lean.Closure.Search.{function_of, expand, visit_roots}
use air2lean.Closure.Search.Visits.{entered_class, explain-class_of, visit-class_of, visit-pending}
use air2lean.Closure.Search.Keeps.{SameSearch, expand-keeps}

-- A name that is not visited counts as one.
abbrev pub is_new : Option Class → ℕ
is_new none = 1
is_new (some x) = 0

is_new-bound : (o : Option Class) → is_new o ≤ 1
is_new-bound none = omega arith
is_new-bound (some x) = omega arith

-- The functions that are not visited, and the functions in the queue.
abbrev pub work : Inputs → State → ℕ
work c s = length s.pending + sum_of (λ f. is_new (class_of f.0 s)) c.functions

classify-in_functions :
    (c : Inputs) (k : String) (o : Option Model)
    → value_of (instance_base k) c.models ≡ o
    → is_exported (classify c k false).0 ≡ true
    → in_functions c k ≡ true
unfolding classify of_model unmodelled
classify-in_functions c k none e h = ground (arith, e)
classify-in_functions c k (some model) e h = absurd (ground (arith, e))

panic-not-exported : (c : Inputs) (k : String) → is_exported (classify c k true).0 ≡ true → ⊥
unfolding classify
panic-not-exported c k h = ground arith

-- An exported name is one of the functions.
pub classify-exported :
    (c : Inputs) (k : String) (panic : Bool)
    → is_exported (classify c k panic).0 ≡ true
    → (info : Scanned) × (function_of c k ≡ some info)
unfolding function_of in_functions
classify-exported c k true h = absurd (panic-not-exported c k h)
classify-exported c k false h =
    turn (value_of (c.key k) c.functions)
      (classify-in_functions c k (value_of (instance_base k) c.models) refl h)
  where
    turn :
        (o : Option Scanned)
        → (elim o [ none ↦ false | some f ↦ true ]) ≡ true
        → (info : Scanned) × (o ≡ some info)
    turn none h = absurd (ground arith)
    turn (some info) h = (info, refl)

module _ {ℓ} {A : Type ℓ} (f g : A → ℕ) where
  sum_of-below : ((x : A) → f x ≤ g x) → (xs : List A) → sum_of f xs ≤ sum_of g xs
  sum_of-below below [] = omega arith
  sum_of-below below (x ∷ xs) = omega (arith, below x, sum_of-below below xs)

sum_of-drops {ℓ} :
    {A : Type ℓ} (f g : String → ℕ)
    → ((x : String) → f x ≤ g x)
    → (k : String) → f k < g k
    → (xs : List (String × A)) (a : A) → value_of k xs ≡ some a
    → sum_of (λ e. f e.0) xs < sum_of (λ e. g e.0) xs
unfolding value_of
sum_of-drops f g below k drop [] a h = absurd (ground arith)
sum_of-drops f g below k drop ((j, b) ∷ xs) a h = elim (Bool-cases (str_eq j k)) [
  | inl e ↦
      ground
        (arith, eq_iff j k, sum_of-below (λ e. f e.0) (λ e. g e.0) (λ e. below e.0) xs, ap f, ap g)
  | inr e ↦ ground (arith, sum_of-drops f g below k drop xs a, below j)
]

module _ (c : Inputs) (stable : (name : String) → c.key (c.key name) ≡ c.key name) where
  visit-work :
      (caller : Option String) (name edge : String) (i : Instruction) (panic : Bool) (s : State)
      → work c (visit c caller name edge i panic s) ≤ work c s
  unfolding function_of
  visit-work caller name edge i panic s =
      turn (class_of k s) refl (Bool-cases (is_exported (classify c k panic).0))
    where
      k : String
      k = c.key name

      below :
          (j : String)
          → is_new (class_of j (visit c caller name edge i panic s)) ≤ is_new (class_of j s)
      below j = fewer (class_of j s) (visit-class_of c caller name edge i panic j s)
        where
          fewer :
              (o : Option Class)
              → class_of j (visit c caller name edge i panic s) ≡ entered_class c k panic j o
              → is_new (class_of j (visit c caller name edge i panic s)) ≤ is_new o
          fewer (some x) e = omega (arith, ap is_new e)
          fewer none e = is_new-bound (class_of j (visit c caller name edge i panic s))

      turn :
          (o : Option Class)
          → class_of k s ≡ o
          → ((is_exported (classify c k panic).0 ≡ true)
              ⊎ (is_exported (classify c k panic).0 ≡ false))
          → work c (visit c caller name edge i panic s) ≤ work c s
      turn (some x) e d = omega (
        arith,
        ap length queue,
        sum_of-below (λ f. is_new (class_of f.0 (visit c caller name edge i panic s)))
            (λ f. is_new (class_of f.0 s)) (λ f. below f.0) c.functions,
      )
        where
          queue : (visit c caller name edge i panic s).pending ≡ s.pending
          queue = ground (arith, visit-pending c caller name edge i panic s, e)
      turn none e (inr d) = omega (
        arith,
        ap length queue,
        sum_of-below (λ f. is_new (class_of f.0 (visit c caller name edge i panic s)))
            (λ f. is_new (class_of f.0 s)) (λ f. below f.0) c.functions,
      )
        where
          queue : (visit c caller name edge i panic s).pending ≡ s.pending
          queue = ground (arith, visit-pending c caller name edge i panic s, e)
      turn none e (inl d) =
          (let (info, f) = classify-exported c k panic d in
            let entry : value_of k c.functions ≡ some info =
              sym (ap (λ n. value_of n c.functions) (stable name)) ∙ entry_of k info f in
            omega (
              arith,
              ap length queue,
              length-append s.pending (k ∷ []),
              sum_of-drops (λ j. is_new (class_of j (visit c caller name edge i panic s)))
                  (λ j. is_new (class_of j s)) below k drop c.functions info entry,
            ))
        where
          queue : (visit c caller name edge i panic s).pending ≡ s.pending ++ k ∷ []
          queue = ground (arith, visit-pending c caller name edge i panic s, e, d)

          drop : is_new (class_of k (visit c caller name edge i panic s)) < is_new (class_of k s)
          drop = ground (arith, e, visit-class_of c caller name edge i panic k s, eq_iff k k)

          entry_of :
              (n : String) (info : Scanned)
              → function_of c n ≡ some info
              → value_of (c.key n) c.functions ≡ some info
          entry_of n info h = h

  same-work : (t u : State) → SameSearch t u → work c u ≤ work c t
  unfolding class_of
  same-work t u same = omega (
    arith,
    ap length same.pending,
    sum_of-below (λ f. is_new (class_of f.0 u)) (λ f. is_new (class_of f.0 t))
        (λ f. omega (arith, ap (λ ns. is_new (class_at f.0 ns)) same.nodes)) c.functions,
  )

  pub expand-work :
      (caller : String) (info : Scanned) (s : State) → work c (expand c caller info s) ≤ work c s
  expand-work caller info s =
      expand-keeps c (λ t. work c t ≤ work c s) caller
        (λ name edge i panic t h. omega (arith, h, visit-work (some caller) name edge i panic t))
        (λ t u same h. omega (arith, h, same-work t u same)) info s (omega arith)

  explain-work : (k : String) (s : State) → work c (explain k s) ≤ work c s
  unfolding explain
  explain-work k s = omega (
    arith,
    sum_of-below (λ f. is_new (class_of f.0 (explain k s))) (λ f. is_new (class_of f.0 s))
        (λ f. omega (arith, ap is_new (explain-class_of k f.0 s))) c.functions,
  )

  pub visit_roots-work :
      (roots : List String) (s : State) → work c (visit_roots c roots s) ≤ work c s
  unfolding visit_roots
  visit_roots-work [] s = omega arith
  visit_roots-work (r ∷ roots) s =
      let t = visit c none r "root" none false s in
      omega (
        arith,
        visit-work none r "root" none false s,
        explain-work (c.key r) t,
        visit_roots-work roots (explain (c.key r) t),
      )

  -- Nothing is visited at the start.
  pub start-work : work c start ≤ length c.functions
  unfolding class_of
  start-work = all_new c.functions
    where
      all_new :
          (fs : List (String × Scanned))
          → 0 + sum_of (λ f. is_new (class_of f.0 start)) fs ≤ length fs
      all_new [] = omega arith
      all_new (f ∷ fs) = omega (arith, all_new fs)
