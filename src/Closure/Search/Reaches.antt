-- ===== src/Closure/Search/Reaches.antt =====
-- The search of scripts/dependency-closure.py visits the names that the roots reach, and no other name.
use air2lean.Base.{
  String, Option, some, Bool, true, List, ◌∷◌, ◌≡◌, sym, ap, ◌∙◌, subst, arith, ◌⊎◌, inl, inr, Any,
  ◌||◌, str_eq, eq_iff, Bool-cases,
}
use air2lean.Json.{listed}
use air2lean.Closure.{Inputs, Class, exported, Scanned}
use air2lean.Closure.State.{State, class_of, classify}
use air2lean.Closure.Search.{function_of, expand, advance}
use air2lean.Closure.Search.Extends.{Visited, listed-append}
use air2lean.Closure.Search.Body.{
  Depends, by_call, by_value, by_global, classes_of, Knows, CallDep-later,
}
use air2lean.Closure.Search.Expand.{expand-Extends, calls-earlier, Any-map}

-- The names that the roots reach through functions whose AIR is exported.
pub data Reach (c : Inputs) (classes : String → Option Class) (roots : List String)
    : String → Type 0 where
  root : {j : String} → Any (λ r. j ≡ c.key r) roots → Reach c classes roots j
  step :
      {u j : String} {info : Scanned}
      → Reach c classes roots u
      → classes u ≡ some exported
      → function_of c u ≡ some info
      → Depends c classes info j
      → Reach c classes roots j

module _ (c : Inputs) where
  Depends-later :
      (before later : String → Option Class) (info : Scanned) (j : String)
      → Knows before later
      → Depends c before info j
      → Depends c later info j
  Depends-later before later info j grows (by_call a) =
      by_call (Any-map (λ call d. CallDep-later c before later call j grows d) info.calls a)
  Depends-later before later info j grows (by_value v) = by_value v
  Depends-later before later info j grows (by_global g) = by_global g

  Reach-later :
      (before later : String → Option Class) (roots : List String) (j : String)
      → Knows before later
      → Reach c before roots j
      → Reach c later roots j
  Reach-later before later roots j grows (root a) = root a
  Reach-later before later roots j grows (step {u} {info = info} p e f d) =
      step (Reach-later before later roots u grows p) (grows u exported e) f
        (Depends-later before later info j grows d)

  -- Every dependency of the function is visited.
  abbrev pub Closed : State → Scanned → Type 0
  Closed s info = (j : String) → Depends c (classes_of s) info j → Visited j s

  Closed-later :
      (s t : State) (info : Scanned)
      → Knows (classes_of s) (classes_of t)
      → Closed s info
      → Closed t info
  Closed-later s t info grows closed j d = visited (earlier d)
    where
      earlier : Depends c (classes_of t) info j → Depends c (classes_of s) info j
      earlier (by_call a) = by_call (
          calls-earlier c (classes_of s) (classes_of t) grows info.calls
            (λ i b. closed i (by_call b)) j a)
      earlier (by_value v) = by_value v
      earlier (by_global g) = by_global g

      visited : Depends c (classes_of s) info j → Visited j t
      visited e = (let (x, h) = closed j e in (x, grows j x h))

  module _ (roots : List String) where
    -- What holds before each pass of the loop.
    pub record Searching (s : State) : Type 0 where
      pub queued : (j : String) → listed j s.pending ≡ true → class_of j s ≡ some exported
      pub found :
          (j : String)
          → class_of j s ≡ some exported
          → (listed j s.finished ≡ true) ⊎ (listed j s.pending ≡ true)
      pub passed : (j : String) → listed j s.finished ≡ true → class_of j s ≡ some exported
      pub closed :
          (j : String) (info : Scanned)
          → listed j s.finished ≡ true
          → function_of c j ≡ some info
          → Closed s info
      pub sound : (j : String) (x : Class) → class_of j s ≡ some x → Reach c (classes_of s) roots j
      pub judged :
          (j : String) (x : Class)
          → class_of j s ≡ some x
          → (panic : Bool) × (x ≡ (classify c j panic).0)
      pub rooted : (j : String) → Any (λ r. j ≡ c.key r) roots → Visited j s

    in-queue :
        (s : State) (caller : String) (rest : List String)
        → s.pending ≡ caller ∷ rest
        → (j : String) → listed j s.pending ≡ (str_eq caller j || listed j rest)
    unfolding listed
    in-queue s caller rest e j = ap (listed j) e

    pub expand-Searching :
        (s : State) (caller : String) (rest : List String) (info : Scanned)
        → s.pending ≡ caller ∷ rest
        → function_of c caller ≡ some info
        → Searching s
        → Searching (expand c caller info (advance caller rest s))
    unfolding advance class_of
    expand-Searching s caller rest info e f h =
        let s' = advance caller rest s in
        let t = expand c caller info s' in
        let step_of = expand-Extends c caller info s' in
        let done = λ (j : String).
          (ap (listed j) step_of.same_finished ∙ listed-append j caller s.finished) in
        let first : listed caller s.pending ≡ true =
          ground (arith, in-queue s caller rest e caller, eq_iff caller caller) in
        record {
          queued = λ j q. elim (step_of.queued j q) [
            | inr g ↦ g
            | inl g ↦
                step_of.grows j exported (h.queued j (ground (arith, in-queue s caller rest e j)))
          ];
          found = λ j x. elim (step_of.found j x) [
            | inr g ↦ inr g
            | inl g ↦ elim (h.found j g) [
              | inl k ↦ inl (ground (arith, done j))
              | inr k ↦ elim (Bool-cases (str_eq caller j)) [
                | inl m ↦ inl (ground (arith, done j))
                | inr m ↦ inr (step_of.kept j (ground (arith, in-queue s caller rest e j)))
              ]
            ]
          ];
          passed = λ j q. elim (Bool-cases (str_eq caller j)) [
            | inl m ↦
                ap (classes_of t) (sym ((eq_iff caller j).0 m))
                ∙ step_of.grows caller exported (h.queued caller first)
            | inr m ↦ step_of.grows j exported (h.passed j (ground (arith, done j)))
          ];
          closed = λ j other q g. elim (Bool-cases (str_eq caller j)) [
            | inl m ↦
                subst (Closed t) (ground (arith, f, ap (function_of c) ((eq_iff caller j).0 m)))
                  step_of.covers
            | inr m ↦
                Closed-later s t other step_of.grows (h.closed j other (ground (arith, done j)) g)
          ];
          sound = λ j x g. elim (step_of.only j x g) [
            | inl k ↦
                Reach-later (classes_of s) (classes_of t) roots j step_of.grows (h.sound j x k)
            | inr (d, panic, k) ↦
                step
                  (Reach-later (classes_of s) (classes_of t) roots caller step_of.grows
                    (h.sound caller exported (h.queued caller first)))
                  (step_of.grows caller exported (h.queued caller first)) f d
          ];
          judged = λ j x g. elim (step_of.only j x g) [
            | inl k ↦ h.judged j x k
            | inr (d, panic, k) ↦ (panic, k)
          ];
          rooted = λ j a. (let (x, g) = h.rooted j a in (x, step_of.grows j x g));
        }
