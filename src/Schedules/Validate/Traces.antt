-- ===== src/Schedules/Validate/Traces.antt =====
-- The executions of an accepted answer of the schedule explorer: scripts/schedules.py.
use air2lean.Base.{
  ℕ, ◌*◌, ◌-◌, ◌^◌, ◌<◌, ◌≤◌, String, Option, none, some, Bool, true, false, ◌&&◌, ◌||◌, not, List,
  ◌≡◌, subst, same, ◌==◌, if◌then◌else◌, leb, ltb, length, All, arith, ◌⊎◌,
}
use air2lean.Base.Result.{Result, ok, err, ◌>>=◌, >>=-eq-ok, refuse_if-eq-ok, ok-injective}
use air2lean.Json.{Json, Items, Fields, str, nil, cons, arr, obj, get, natural_of}
use air2lean.Diff.{Kind, Failure, invalid}
use air2lean.Diff.Kinds.{allowed, model}
use air2lean.Diff.Observe.{observation}
use air2lean.Diff.Observe.Consistent.{observation-IsConsistent}
use air2lean.Diff.Wire.{Wire, wire, diverge}
use air2lean.Schedules.Request.{Limits, nat}
use air2lean.Schedules.{
  Execution, flag, step, steps_of, trace, execution, executions, observed, observed_kind,
}

pub same-true : (a b : Bool) → not (same a b) ≡ false → a ≡ b
same-true a b h = ground arith

pub nat-bound : (limit : ℕ) (v : Option Json) (n : ℕ) → nat limit v ≡ ok n → n ≤ limit
unfolding nat
nat-bound limit v n h = turn (natural_of v) h
  where
    turn :
        (o : Option ℕ)
        → (elim o [ none ↦ err invalid | some n ↦ if leb n limit then ok n else err invalid ])
          ≡ ok n
        → n ≤ limit
    turn none h = cc
    turn (some m) h = ground arith

pub nat-number :
    (limit : ℕ) (v : Option Json) (n : ℕ)
    → nat limit v ≡ ok n
    → (natural_of v ≡ some n) × (n ≤ limit)
unfolding nat
nat-number limit v n h = (turn (natural_of v) h, nat-bound limit v n h)
  where
    turn :
        (o : Option ℕ)
        → (elim o [ none ↦ err invalid | some n ↦ if leb n limit then ok n else err invalid ])
          ≡ ok n
        → o ≡ some n
    turn none h = cc
    turn (some m) h = ground arith

-- A choice is below its number of options, or is the only choice where there is no option.
abbrev pub IsStep : ℕ × ℕ → Type 0
IsStep s = ((s.0 < s.1) ⊎ (s.0 ≡ 0)) × (s.0 ≤ 2 ^ 64 - 1) × (s.1 ≤ 2 ^ 64 - 1)

step-IsStep : (choice count : Json) (s : ℕ × ℕ) → step choice count ≡ ok s → IsStep s
unfolding step
step-IsStep choice count s h =
    let (i, e, h1) = >>=-eq-ok (nat (2 ^ 64 - 1) (some choice)) _ h in
    let (n, f, h2) = >>=-eq-ok (nat (2 ^ 64 - 1) (some count)) _ h1 in
    let (inside, h3) = refuse_if-eq-ok (leb n i && leb 1 i) invalid _ h2 in
    let ends : ((i < n) ⊎ (i ≡ 0)) = ground arith in
    subst IsStep (ok-injective h3)
      (ends, nat-bound (2 ^ 64 - 1) (some choice) i e, nat-bound (2 ^ 64 - 1) (some count) n f)

steps_of-IsStep :
    (choices counts : Items) (steps : List (ℕ × ℕ))
    → steps_of choices counts ≡ ok steps
    → All IsStep steps
unfolding steps_of
steps_of-IsStep nil nil steps h = subst (All IsStep) (ok-injective h) tt
steps_of-IsStep nil (cons x xs) steps h = cc
steps_of-IsStep (cons x xs) nil steps h = cc
steps_of-IsStep (cons x xs) (cons y ys) steps h =
    let (s, e, h1) = >>=-eq-ok (step x y) _ h in
    let (rest, f, h2) = >>=-eq-ok (steps_of xs ys) _ h1 in
    subst (All IsStep) (ok-injective h2) (step-IsStep x y s e, steps_of-IsStep xs ys rest f)

trace-steps :
    (cap : ℕ) (p q : Option Json) (steps : List (ℕ × ℕ))
    → trace cap p q ≡ ok steps
    → (length steps ≤ cap) × All IsStep steps
unfolding trace
trace-steps cap (some (arr xs)) (some (arr ys)) steps h =
    let (found, e, h1) = >>=-eq-ok (steps_of xs ys) _ h in
    let (short, h2) = refuse_if-eq-ok (ltb cap (length found)) invalid _ h1 in
    let bound : length found ≤ cap = ground arith in
    subst (λ s. (length s ≤ cap) × All IsStep s) (ok-injective h2)
      (bound, steps_of-IsStep xs ys found e)
trace-steps cap _ _ steps h = cc

-- A trace within the limits, complete exactly when it has every choice that was made.
pub record IsTrace (l : Limits) (e : Execution) : Type 0 where
  pub steps : All IsStep e.steps
  pub short : length e.steps ≤ l.prefix_cap
  pub cut : length e.steps ≤ e.choice_count
  pub bounded : e.choice_count ≤ 2 * l.fuel
  pub complete : e.trace_complete ≡ (e.choice_count == length e.steps)
  -- the kind is one that the model produces
  pub by_model : allowed model e.kind ≡ true

module _ (decode : String → Option Json) where
  wired-allowed :
      (fs : Fields) (r : Result Failure Wire) (kind : Kind)
      → (elim r [
        | ok w ↦ observation decode (obj fs) w model >>= λ found. ok found.0
        | err e ↦ observation decode (obj fs) diverge model >>= λ _. err invalid
      ])
        ≡ ok kind
      → allowed model kind ≡ true
  wired-allowed fs (ok w) kind h =
      let (found, e, h1) = >>=-eq-ok (observation decode (obj fs) w model) _ h in
      subst (λ k. allowed model k ≡ true) (ok-injective h1)
        (observation-IsConsistent decode (obj fs) w model {kind = found.0} {found = found.1}
          e).by_side
  wired-allowed fs (err f) kind h =
      let (found, e, h1) = >>=-eq-ok (observation decode (obj fs) diverge model) _ h in cc

  observed_kind-allowed :
      (fs : Fields) (line : String) (kind : Kind)
      → observed_kind decode fs line ≡ ok kind
      → allowed model kind ≡ true
  unfolding observed_kind
  observed_kind-allowed fs line kind h = turn (decode line) h
    where
      turn :
          (o : Option Json)
          → (elim o [
            | none ↦ err invalid
            | some v ↦ elim (wire v) [
              | ok w ↦ observation decode (obj fs) w model >>= λ found. ok found.0
              | err e ↦ observation decode (obj fs) diverge model >>= λ _. err invalid
            ]
          ])
            ≡ ok kind
          → allowed model kind ≡ true
      turn none h = cc
      turn (some v) h = wired-allowed fs (wire v) kind h

  observed-allowed :
      (v : Option Json) (found : Fields × String × Kind)
      → observed decode v ≡ ok found
      → allowed model found.2 ≡ true
  unfolding observed
  observed-allowed (some (obj fs)) found h = turn (get "legacy_line" fs) h
    where
      turn :
          (o : Option Json)
          → (elim o [
            | some (str line) ↦ observed_kind decode fs line >>= λ kind. ok (fs, line, kind)
            | _ ↦ err invalid
          ])
            ≡ ok found
          → allowed model found.2 ≡ true
      turn (some (str line)) h =
          let (kind, e, h1) = >>=-eq-ok (observed_kind decode fs line) _ h in
          subst (λ f. allowed model f.2 ≡ true) (ok-injective h1)
            (observed_kind-allowed fs line kind e)
      turn _ h = cc
  observed-allowed _ found h = cc

  execution-IsTrace :
      (l : Limits) (v : Json) (e : Execution) → execution decode l v ≡ ok e → IsTrace l e
  unfolding execution
  execution-IsTrace l (obj fs) e h =
      let (steps, e1, h1) =
        >>=-eq-ok (trace l.prefix_cap (get "prefix" fs) (get "options" fs)) _ h in
      let (count, e2, h2) = >>=-eq-ok (nat (2 * l.fuel) (get "choice_count" fs)) _ h1 in
      let (complete, e3, h3) = >>=-eq-ok (flag (get "trace_complete" fs)) _ h2 in
      let (right, h4) =
        refuse_if-eq-ok (ltb count (length steps) || not (same complete (count == length steps)))
          invalid _ h3 in
      let (found, e5, h5) = >>=-eq-ok (observed decode (get "observation" fs)) _ h4 in
      let (short, all_steps) =
        trace-steps l.prefix_cap (get "prefix" fs) (get "options" fs) steps e1 in
      let made : IsTrace l (record {
        steps = steps;
        choice_count = count;
        trace_complete = complete;
        observation = found.0;
        line = found.1;
        kind = found.2;
      }) =
        record {
          steps = all_steps;
          short = short;
          cut = ground arith;
          bounded = nat-bound (2 * l.fuel) (get "choice_count" fs) count e2;
          complete = ground arith;
          by_model = observed-allowed (get "observation" fs) found e5;
        } in
      subst (IsTrace l) (ok-injective h5) made
  execution-IsTrace l _ e h = cc

  pub executions-IsTrace :
      (l : Limits) (xs : Items) (es : List Execution)
      → executions decode l xs ≡ ok es
      → All (IsTrace l) es
  unfolding executions
  executions-IsTrace l nil es h = subst (All (IsTrace l)) (ok-injective h) tt
  executions-IsTrace l (cons x xs) es h =
      let (e, e1, h1) = >>=-eq-ok (execution decode l x) _ h in
      let (rest, e2, h2) = >>=-eq-ok (executions decode l xs) _ h1 in
      subst (All (IsTrace l)) (ok-injective h2)
        (execution-IsTrace l x e e1, executions-IsTrace l xs rest e2)
