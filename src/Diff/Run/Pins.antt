-- ===== src/Diff/Run/Pins.antt =====
-- What a comparison of scripts/diff-report.py without a violation says of the excluded cases of a
-- function.
use air2lean.Base.{
  ◌≡◌, refl, ◌∙◌, sym, ◌↔◌, String, Option, Bool, false, not, List, [], ◌++◌, str_eq, ◌==◌, arith,
  subst,
}
use air2lean.Base.Text.{is_ident}
use air2lean.Base.Result.{ok, >>=-eq-ok, refuse_if-eq-ok, ok-injective}
use air2lean.Json.{Json}
use air2lean.Diff.{Policy, invalid}
use air2lean.Diff.Run.{counted, Row, Pinned, unspecified, capped, Violation, State, Local, no_cases}
use air2lean.Diff.Run.Counts.{rows_with}
use air2lean.Diff.Run.Functions.{
  Function, Config, zipped, range_at, violate, check_pins, setting, compare_cases, compare_function,
}
use air2lean.Diff.Run.Added.{observed_at, inputs_for, compare_cases-Added}
use air2lean.Diff.Run.Keeps.{check_pins-keeps}
use air2lean.Diff.Run.Ranges.{InRange, pins_for, check_pins-none}

-- The rows that a function adds, with as many excluded ones for each input as its pins allow.
pub record Pinnings (config : Config) (fn : String) (s done : State) : Type 0 where
  pub rows : List Row
  pub rows_are : done.rows ≡ s.rows ++ rows
  pub ranges : (done.violations ≡ []) ↔ (
      (s.violations ≡ [])
      × ((counter : Pinned) (sha : String)
          → InRange
              (range_at sha (pins_for counter fn config))
              (rows_with (observed_at counter sha) rows)))

counted-nothing :
    (counter : Pinned) (sha : String) → counted str_eq sha (inputs_for counter no_cases) ≡ 0
unfolding counted
counted-nothing unspecified sha = refl
counted-nothing capped sha = refl

violate-rows : (o : Bool) (v : Violation) (s : State) → (violate o v s).rows ≡ s.rows
unfolding violate
violate-rows o v s = refl

check_pins-rows :
    (config : Config) (example fn : String) (here : Local) (s : State)
    → (check_pins config example fn here s).rows ≡ s.rows
check_pins-rows config example fn here s =
    check_pins-keeps (λ (t : State). t.rows ≡ s.rows) (λ o v t h. violate-rows o v t ∙ h) config
      example fn here s refl

module _ (decode : String → Option Json) (sha256 : String → String) (panics : Policy) where
  -- Unless the inputs are fresh, the comparison of a function adds rows, and leaves no violation exactly
  -- when there was none and, for each input, the number of the added rows with that input whose observed
  -- bucket is `unspecified`, and of those where it is `capped`, is within the pin of the function for
  -- the input, or zero where it has none.
  pub compare_function-Pinnings :
      (config : Config) (example : String) (f : Function) (s done : State)
      → config.is_fresh ≡ false
      → compare_function decode sha256 panics config example f s ≡ ok done
      → Pinnings config f.name s done
  unfolding compare_function
  compare_function-Pinnings config example f s done fresh h =
      let (_, h1) = refuse_if-eq-ok (not (is_ident f.name)) invalid _ h in
      let (r, e, h2) =
        >>=-eq-ok
          (compare_cases decode sha256 panics (setting config f.name) example f.name
            (zipped f.inputs f.native_lines f.model_lines f.native_metas f.model_metas) no_cases s)
          _ h1 in
      let (_, h3) = refuse_if-eq-ok (r.0.count == 0) invalid _ h2 in
      let a =
        compare_cases-Added decode sha256 panics (setting config f.name) example f.name _ no_cases s
          r e in
      let inputs : (counter : Pinned) (sha : String)
          → counted str_eq sha (inputs_for counter r.0)
            ≡ rows_with (observed_at counter sha) a.rows =
        λ counter sha. omega (arith, a.inputs_are counter sha, counted-nothing counter sha) in
      let (only, back) = check_pins-none config example f.name r.0 r.1 fresh in
      subst (Pinnings config f.name s) (ok-injective h3) (record {
        rows = a.rows;
        rows_are = check_pins-rows config example f.name r.0 r.1 ∙ a.rows_are;
        ranges = (
          λ none_left.
              (let (before, ranges) = only none_left in
                (
                  sym a.violations_are ∙ before,
                  λ counter sha.
                      subst (InRange (range_at sha (pins_for counter f.name config)))
                        (inputs counter sha) (ranges counter sha),
                )),
          λ all_in. back (
            a.violations_are ∙ all_in.0,
            λ counter sha.
                subst (InRange (range_at sha (pins_for counter f.name config)))
                  (sym (inputs counter sha)) (all_in.1 counter sha),
          ),
        );
      })
