-- ===== src/Schedules/Replay/Repeats.antt =====
-- A replay that is accepted repeats the execution that it was prepared from: scripts/schedules.py.
use air2lean.Base.{
  ℕ, zero, suc, String, Option, some, Bool, true, not, List, [], ◌∷◌, ◌≡◌, refl, ap, sym, ◌∙◌,
  subst, map, not-false,
}
use air2lean.Base.Int.{ℤ}
use air2lean.Base.Result.{ok, >>=-eq-ok, refuse_if-eq-ok, ok-injective}
use air2lean.Json.{Json, Fields, str, arr, get, json_equal, natural_of}
use air2lean.Diff.{invalid}
use air2lean.Schedules.Equality.{py_equal}
use air2lean.Schedules.Prepare.Current.{is_value}
use air2lean.Schedules.Request.{Mode, replay, nat, or_null, number_items}
use air2lean.Schedules.{Execution, Flags}
use air2lean.Schedules.Validate.{
  Accepted, actual, as_expected, expected_of, check_replay, check_mode, validate_response,
}
use air2lean.Schedules.Validate.Traces.{nat-number}
use air2lean.Schedules.Validate.Caps.{mode_text, mode_text-mode, limits-IsLimits}
use air2lean.Schedules.Validate.Steps.{validate_response-Passed}
use air2lean.Schedules.Replay.{expected, replay_request, prepare_replay, nth}
use air2lean.Schedules.Replay.Holds.{
  number_items-py_equal, str-equal, arr-equal, request-prefix, request-expected, request-mode,
  columns,
}

-- The two executions made the same choices among as many options, and ended in the same line and kind.
pub record SameRun (d e : Execution) : Type 0 where
  pub steps : d.steps ≡ e.steps
  pub line : d.line ≡ e.line
  pub kind :
      json_equal (or_null (get "kind" d.observation)) (or_null (get "kind" e.observation)) ≡ true

module _ (decode : String → Option Json) (float_is : Bool → ℕ → ℤ → Bool) where
  expected-SameRun :
      (d e : Execution) (u : Unit {0})
      → as_expected decode float_is (expected e) d ≡ ok u
      → (d.line ≡ e.line)
        × (json_equal (or_null (get "kind" d.observation)) (or_null (get "kind" e.observation))
            ≡ true)
        × (map (λ s. s.1) d.steps ≡ map (λ s. s.1) e.steps)
  unfolding as_expected actual expected
  expected-SameRun d e u h =
      let (a, h1) = refuse_if-eq-ok (not (json_equal (str d.line) (str e.line))) invalid _ h in
      let (b, h2) =
        refuse_if-eq-ok
          (not
            (json_equal (or_null (get "kind" d.observation)) (or_null (get "kind" e.observation))))
          invalid _ h1 in
      let (c, _) =
        refuse_if-eq-ok
          (not (
            json_equal (arr (number_items (map (λ s. s.1) d.steps)))
              (arr (number_items (map (λ s. s.1) e.steps)))))
          invalid _ h2 in
      (
        str-equal d.line e.line (not-false _ a),
        not-false _ b,
        arr-equal (map (λ s. s.1) d.steps) (map (λ s. s.1) e.steps) (not-false _ c),
      )

  prefix-equal :
      (xs ys : List ℕ)
      → py_equal float_is (arr (number_items xs)) (arr (number_items ys)) ≡ true
      → xs ≡ ys
  unfolding py_equal
  prefix-equal xs ys h = number_items-py_equal float_is xs ys h

  replayed :
      (original : Fields) (e : Execution) (f : Flags) (ds : List Execution) (u : Unit {0})
      → check_replay decode float_is (replay_request original e) f ds ≡ ok u
      → (d : Execution) × (ds ≡ d ∷ []) × (d.trace_complete ≡ true) × SameRun d e
  unfolding check_replay expected_of
  replayed original e f [] u h = cc
  replayed original e f (d ∷ []) u h =
      (let request = replay_request original e in
        let (whole, h1) = refuse_if-eq-ok (not d.trace_complete) invalid _ h in
        let (same, h2) =
          refuse_if-eq-ok
            (not (
              py_equal float_is (arr (number_items (map (λ s. s.0) d.steps)))
                (or_null (get "prefix" request))))
            invalid _ h1 in
        let (_, h3) = refuse_if-eq-ok f.truncated invalid _ h2 in
        let (fs, g, h4) = >>=-eq-ok (expected_of decode float_is (get "expected" request)) _ h3 in
        let named : fs ≡ expected e =
          ok-injective (sym g ∙ ap (expected_of decode float_is) (request-expected original e)) in
        let (line, kind, options) =
          expected-SameRun d e u (subst (λ x. as_expected decode float_is x d ≡ ok u) named h4) in
        let prefix = prefix-equal (map (λ s. s.0) d.steps) (map (λ s. s.0) e.steps) (
          ap (λ o. py_equal float_is (arr (number_items (map (λ s. s.0) d.steps))) (or_null o))
            (sym (request-prefix original e))
          ∙ not-false _ same) in
        (
          d,
          refl,
          not-false _ whole,
          record { steps = columns d.steps e.steps prefix options; line = line; kind = kind },
        ))
  replayed original e f (d ∷ c ∷ ds) u h = cc

  by_replay :
      (m : Mode) (request : Fields) (f : Flags) (es : List Execution)
      → m ≡ replay
      → check_mode decode float_is m request f es ≡ ok tt
      → check_replay decode float_is request f es ≡ ok tt
  unfolding check_mode
  by_replay m request f es e h = subst (λ n. check_mode decode float_is n request f es ≡ ok tt) e h

-- The execution has the index in the list, which counts from 0.
pub data At : ℕ → List Execution → Execution → Type 0 where
  at_first : {e : Execution} {es : List Execution} → At 0 (e ∷ es) e
  at_later : {i : ℕ} {d e : Execution} {es : List Execution} → At i es e → At (suc i) (d ∷ es) e

nth-At : (i : ℕ) (es : List Execution) (e : Execution) → nth i es ≡ ok e → At i es e
unfolding nth
nth-At i [] e h = absurd cc
nth-At zero (x ∷ es) e h = subst (At 0 (x ∷ es)) (ok-injective h) at_first
nth-At (suc i) (x ∷ es) e h = at_later (nth-At i es e h)

-- If the answer to the replay request that `prepare` made, of the executions of a receipt and an index, is
-- accepted, then the index is a natural number at which the receipt has an execution, with its whole trace;
-- and the answer has one execution, with its whole trace, that made the choices of that one, among as many
-- options, and ended in its line and its kind.
pub replay_repeats :
    (decode : String → Option Json) (float_is : Bool → ℕ → ℤ → Bool) (original request : Fields)
    (accepted a : Accepted) (index : Option Json) (response : Json)
    → prepare_replay original accepted index ≡ ok request
    → validate_response decode float_is response request ≡ ok a
    → (i : ℕ) × (e : Execution) × (d : Execution) × (natural_of index ≡ some i)
      × At i accepted.executions e
      × (e.trace_complete ≡ true)
      × (a.executions ≡ d ∷ [])
      × (d.trace_complete ≡ true)
      × SameRun d e
unfolding prepare_replay mode_text
replay_repeats decode float_is original request accepted a index response h g =
    let (_, h1) = refuse_if-eq-ok (not (is_value "enumerate" (get "mode" original))) invalid _ h in
    let (i, read, h2) = >>=-eq-ok (nat 1999 index) _ h1 in
    let (e, found, h3) = >>=-eq-ok (nth i accepted.executions) _ h2 in
    let (whole, h4) = refuse_if-eq-ok (not e.trace_complete) invalid _ h3 in
    let made : request ≡ replay_request original e = sym (ok-injective h4) in
    let (_, _, p) = validate_response-Passed decode float_is response request a g in
    let l = p.limits_of in
    let mode = mode_text-mode l.mode replay (
      sym (limits-IsLimits request l p.limits_are).mode
      ∙ ap (get "mode") made
      ∙ request-mode original e) in
    let (d, one, complete, run) = replayed decode float_is original e a.flags a.executions tt (
      by_replay decode float_is l.mode (replay_request original e) a.flags a.executions mode (
        subst (λ r. check_mode decode float_is l.mode r a.flags a.executions ≡ ok tt) made
          p.mode_agrees)) in
    (
      i,
      e,
      d,
      (nat-number 1999 index i read).0,
      nth-At i accepted.executions e found,
      not-false _ whole,
      one,
      complete,
      run,
    )
