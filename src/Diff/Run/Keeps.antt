-- ===== src/Diff/Run/Keeps.antt =====
-- A rule for the invariants of `compare_summary` in scripts/diff-report.py: what every counted case
-- and every violation keeps, the loops keep.
use air2lean.Base.{
  ℕ, ◌+◌, ◌≡◌, String, Option, none, some, Bool, ◌||◌, List, [], ◌∷◌, ltb, ◌==◌, if-both, is_empty,
  subst, not,
}
use air2lean.Base.Text.{is_ident}
use air2lean.Base.Result.{ok, >>=-eq-ok, refuse_if-eq-ok, ok-injective}
use air2lean.Json.{Json}
use air2lean.Diff.{Policy, invalid, max_cases}
use air2lean.Diff.Config.{FunctionPins, get_or}
use air2lean.Diff.Run.{
  Lines, Compared, Setting, compare_case, Pinned, unspecified, capped, Violation, State, Local,
  no_cases, count_local, count_case, is_some,
}
use air2lean.Diff.Run.Functions.{
  Function, Config, zipped, in_range, violation_of, inputs_of, is_incomplete, is_open, violate,
  check_inputs, check_bucket, check_pins, setting, compare_cases, compare_function,
  compare_functions,
}
use air2lean.Diff.Run.Summary.{Call, Example, config_of, compare_functions_of, compare_examples}

module _ (P : State → Type 0)
    (pin : (o : Bool) (v : Violation) (s : State) → P s → P (violate o v s)) where
  check_inputs-keeps :
      (example fn : String) (counter : Pinned) (pinned : FunctionPins) (actuals : List (String × ℕ))
      (o : Bool) (shas : List String) (s : State)
      → P s
      → P (check_inputs example fn counter pinned actuals o shas s)
  unfolding check_inputs
  check_inputs-keeps example fn counter pinned actuals o [] s p = p
  check_inputs-keeps example fn counter pinned actuals o (sha ∷ shas) s p =
      check_inputs-keeps example fn counter pinned actuals o shas _ (
        if-both P (in_range sha pinned actuals) (λ _. p)
          (λ _. pin o (violation_of example fn counter pinned actuals sha) s p))

  check_bucket-keeps :
      (example fn : String) (counter : Pinned) (pinned : FunctionPins) (actuals : List (String × ℕ))
      (o : Bool) (s : State)
      → P s
      → P (check_bucket example fn counter pinned actuals o s)
  unfolding check_bucket
  check_bucket-keeps example fn counter pinned actuals o s p =
      check_inputs-keeps example fn counter pinned actuals o (inputs_of pinned actuals) s p

  pub check_pins-keeps :
      (config : Config) (example fn : String) (here : Local) (s : State)
      → P s
      → P (check_pins config example fn here s)
  unfolding check_pins
  check_pins-keeps config example fn here s p =
      let undecided = is_incomplete example fn s || is_open here.statuses in
      if-both P config.is_fresh (λ _. p)
        (λ _.
          check_bucket-keeps example fn capped (get_or [] fn config.capped_pins) here.capped_inputs
            undecided _
            (check_bucket-keeps example fn unspecified (get_or [] fn config.unspecified_pins)
              here.unspecified_inputs undecided s p))

  module _ (is_space : ℕ → Bool) (decode : String → Option Json) (sha256 : String → String)
      (panics : Policy)
      (each : (at : Setting) (lines : Lines) (c : Compared) (example fn : String) (index : ℕ)
          (s : State)
        → compare_case decode sha256 panics at lines ≡ ok c
        → P s
        → P (count_case example fn index c s)) where
    compare_cases-keeps :
        (at : Setting) (example fn : String) (cases : List (Option Lines)) (here : Local)
        (s : State) (done : Local × State)
        → compare_cases decode sha256 panics at example fn cases here s ≡ ok done
        → P s
        → P done.1
    unfolding compare_cases
    compare_cases-keeps at example fn [] here s done h p =
        subst (λ (d : Local × State). P d.1) (ok-injective h) p
    compare_cases-keeps at example fn (none ∷ cases) here s done h p = cc
    compare_cases-keeps at example fn (some lines ∷ cases) here s done h p =
        let (c, e, h1) = >>=-eq-ok (compare_case decode sha256 panics at lines) _ h in
        let (_, rest) = refuse_if-eq-ok (ltb max_cases (s.case_count + 1)) invalid _ h1 in
        compare_cases-keeps at example fn cases (count_local c here) _ done rest
          (each at lines c example fn (here.count + 1) s e p)

    compare_function-keeps :
        (config : Config) (example : String) (f : Function) (s done : State)
        → compare_function decode sha256 panics config example f s ≡ ok done
        → P s
        → P done
    unfolding compare_function
    compare_function-keeps config example f s done h p =
        let (_, h1) = refuse_if-eq-ok (not (is_ident f.name)) invalid _ h in
        let (r, e, h2) =
          >>=-eq-ok
            (compare_cases decode sha256 panics (setting config f.name) example f.name
              (zipped f.inputs f.native_lines f.model_lines f.native_metas f.model_metas) no_cases
              s)
            _ h1 in
        let (_, h3) = refuse_if-eq-ok (r.0.count == 0) invalid _ h2 in
        subst P (ok-injective h3) (
          check_pins-keeps config example f.name r.0 r.1
            (compare_cases-keeps (setting config f.name) example f.name _ no_cases s r e p))

    compare_functions-keeps :
        (config : Config) (example : String) (fs : List Function) (s done : State)
        → compare_functions decode sha256 panics config example fs s ≡ ok done
        → P s
        → P done
    unfolding compare_functions
    compare_functions-keeps config example [] s done h p = subst P (ok-injective h) p
    compare_functions-keeps config example (f ∷ fs) s done h p =
        let (next, e, rest) =
          >>=-eq-ok (compare_function decode sha256 panics config example f s) _ h in
        compare_functions-keeps config example fs next done rest
          (compare_function-keeps config example f s next e p)

    compare_functions_of-keeps :
        (config : Config) (example : String) (fs : Option (List Function)) (s done : State)
        → compare_functions_of is_space decode sha256 panics config example fs s ≡ ok done
        → P s
        → P done
    unfolding compare_functions_of
    compare_functions_of-keeps config example none s done h p = cc
    compare_functions_of-keeps config example (some fs) s done h p =
        let (_, rest) = refuse_if-eq-ok (is_empty fs) invalid _ h in
        compare_functions-keeps config example fs s done rest p

    -- What every counted case and every violation keeps, the examples keep.
    pub compare_examples-keeps :
        (call : Call) (files : String → Example) (examples : List String) (s done : State)
        → compare_examples is_space decode sha256 panics call files examples s ≡ ok done
        → P s
        → P done
    unfolding compare_examples
    compare_examples-keeps call files [] s done h p = subst P (ok-injective h) p
    compare_examples-keeps call files (example ∷ examples) s done h p =
        let (_, h1) = refuse_if-eq-ok (not (is_some (files example).functions)) invalid _ h in
        let (config, _, h2) =
          >>=-eq-ok (config_of is_space decode sha256 panics call (files example)) _ h1 in
        let (next, e, rest) =
          >>=-eq-ok
            (compare_functions_of is_space decode sha256 panics config example
              (files example).functions s)
            _ h2 in
        compare_examples-keeps call files examples next done rest
          (compare_functions_of-keeps config example _ s next e p)
