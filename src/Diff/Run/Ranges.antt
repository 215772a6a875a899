-- ===== src/Diff/Run/Ranges.antt =====
-- The pins of a function in `compare_summary` of scripts/diff-report.py: none is violated exactly when
-- every input is in its range.
use air2lean.Base.{
  ℕ, ◌≤◌, ◌≡◌, refl, ap, ◌∙◌, sym, ◌↔◌, String, Bool, true, false, ◌||◌, List, [], ◌∷◌, ◌++◌, map,
  str_eq, eq_iff, if◌then◌else◌, arith, All, Bool-cases, inl, inr, subst,
}
use air2lean.Json.{listed}
use air2lean.Closure.Names.{sorted_set}
use air2lean.Closure.Names.Prefixes.{listed-append, listed-sorted_set}
use air2lean.Diff.Config.{Pin, FunctionPins, get_or}
use air2lean.Diff.Run.{counted, Pinned, unspecified, capped, Violation, State, Local}
use air2lean.Diff.Run.Functions.{
  Config, range_at, violation_of, in_range, violate, check_inputs, inputs_of, check_bucket,
  is_incomplete, is_open, check_pins,
}
use air2lean.Diff.Run.Added.{inputs_for}

abbrev pub InRange : Pin → ℕ → Type 0
InRange p n = (p.lo ≤ n) × (n ≤ p.hi)

violate-not_none : (o : Bool) (v : Violation) (s : State) → ¬ ((violate o v s).violations ≡ [])
unfolding violate
violate-not_none o v s h = cases s.violations h
  where
    cases : (vs : List Violation) → vs ++ v ∷ [] ≡ [] → ⊥
    cases [] e = absurd (cc)
    cases (w ∷ vs) e = absurd (cc)

module _ (example fn : String) (counter : Pinned) (pinned : FunctionPins)
    (actuals : List (String × ℕ)) (o : Bool) where
  check_inputs-none :
      (shas : List String) (s : State)
      → ((check_inputs example fn counter pinned actuals o shas s).violations ≡ [])
        ↔ ((s.violations ≡ []) × All (λ sha. in_range sha pinned actuals ≡ true) shas)
  unfolding check_inputs
  check_inputs-none [] s = ground arith
  check_inputs-none (sha ∷ shas) s =
      let v = violation_of example fn counter pinned actuals sha in
      ground (
        arith,
        check_inputs-none shas s,
        check_inputs-none shas (violate o v s),
        violate-not_none o v s,
      )

-- An input without a pin and without a case is in its range.
range_at-missing :
    (sha : String) (pins : FunctionPins)
    → listed sha (map (λ p. p.0) pins) ≡ false
    → InRange (range_at sha pins) 0
unfolding range_at get_or listed
range_at-missing sha [] h = ground arith
range_at-missing sha ((k, p) ∷ pins) h = ground (arith, range_at-missing sha pins)

counted-missing :
    (sha : String) (counts : List (String × ℕ))
    → listed sha (map (λ p. p.0) counts) ≡ false
    → counted str_eq sha counts ≡ 0
unfolding counted listed
counted-missing sha [] h = refl
counted-missing sha ((k, n) ∷ counts) h = ground (arith, counted-missing sha counts)

in_range_iff :
    (sha : String) (pinned : FunctionPins) (actuals : List (String × ℕ))
    → (in_range sha pinned actuals ≡ true)
      ↔ InRange (range_at sha pinned) (counted str_eq sha actuals)
unfolding in_range
in_range_iff sha pinned actuals = ground arith

All-listed :
    (P : String → Type 0) (xs : List String) (x : String) → All P xs → listed x xs ≡ true → P x
unfolding listed
All-listed P [] x ps h = absurd (cc)
All-listed P (y ∷ xs) x (p, ps) h = elim (Bool-cases (str_eq y x)) [
  | inl e ↦ subst P ((eq_iff y x).0 e) p
  | inr e ↦ All-listed P xs x ps (ground arith)
]

every_listed : (P : String → Type 0) (xs : List String) → ((x : String) → P x) → All P xs
every_listed P [] h = tt
every_listed P (x ∷ xs) h = (h x, every_listed P xs h)

-- Every input is in its range when those are that have a pin or a case.
inputs_of-InRange :
    (pinned : FunctionPins) (actuals : List (String × ℕ))
    → All (λ sha. in_range sha pinned actuals ≡ true) (inputs_of pinned actuals)
    → (sha : String) → InRange (range_at sha pinned) (counted str_eq sha actuals)
unfolding inputs_of
inputs_of-InRange pinned actuals h sha =
    let keys = map (λ p. p.0) pinned ++ map (λ p. p.0) actuals in
    elim (Bool-cases (listed sha (sorted_set keys))) [
      | inl e ↦
          (in_range_iff sha pinned actuals).0
            (All-listed (λ x. in_range x pinned actuals ≡ true) (sorted_set keys) sha h e)
      | inr e ↦
          let absent : listed sha keys ≡ false = sym (listed-sorted_set sha keys) ∙ e in
          let split = listed-append sha (map (λ p. p.0) pinned) (map (λ p. p.0) actuals) in
          let parts : (listed sha (map (λ p. p.0) pinned) ≡ false)
              × (listed sha (map (λ p. p.0) actuals) ≡ false) =
            ground (arith, absent, split) in
          subst (InRange (range_at sha pinned)) (sym (counted-missing sha actuals parts.1))
            (range_at-missing sha pinned parts.0)
    ]

check_bucket-none :
    (example fn : String) (counter : Pinned) (pinned : FunctionPins) (actuals : List (String × ℕ))
    (o : Bool) (s : State)
    → ((check_bucket example fn counter pinned actuals o s).violations ≡ []) ↔ (
        (s.violations ≡ [])
        × ((sha : String) → InRange (range_at sha pinned) (counted str_eq sha actuals)))
unfolding check_bucket
check_bucket-none example fn counter pinned actuals o s =
    let (only, back) =
      check_inputs-none example fn counter pinned actuals o (inputs_of pinned actuals) s in
    (
      λ e. ((only e).0, inputs_of-InRange pinned actuals (only e).1),
      λ e. back (
        e.0,
        every_listed (λ sha. in_range sha pinned actuals ≡ true) (inputs_of pinned actuals)
            (λ sha. (in_range_iff sha pinned actuals).1 (e.1 sha)),
      ),
    )

-- The pins of a function for a bucket.
abbrev pub pins_for : Pinned → String → Config → FunctionPins
pins_for unspecified fn config = get_or [] fn config.unspecified_pins
pins_for capped fn config = get_or [] fn config.capped_pins

both : (P : Pinned → Type 0) → P unspecified → P capped → (c : Pinned) → P c
both P a b unspecified = a
both P a b capped = b

pub check_pins-none :
    (config : Config) (example fn : String) (here : Local) (s : State)
    → config.is_fresh ≡ false
    → ((check_pins config example fn here s).violations ≡ []) ↔ (
        (s.violations ≡ [])
        × ((counter : Pinned) (sha : String)
            → InRange
                (range_at sha (pins_for counter fn config))
                (counted str_eq sha (inputs_for counter here))))
unfolding check_pins
check_pins-none config example fn here s fresh =
    let o = is_incomplete example fn s || is_open here.statuses in
    let first =
      check_bucket example fn unspecified (pins_for unspecified fn config) here.unspecified_inputs o
        s in
    let (one, one_back) =
      check_bucket-none example fn unspecified (pins_for unspecified fn config)
        here.unspecified_inputs o s in
    let (two, two_back) =
      check_bucket-none example fn capped (pins_for capped fn config) here.capped_inputs o first in
    (
      λ e.
          (let (a, b) = two (
              ap
                (λ (x : Bool).
                  (if x
                    then s
                    else check_bucket example fn capped (pins_for capped fn config)
                        here.capped_inputs o first).violations)
                (sym fresh)
              ∙ e) in
            let (c, d) = one a in
            (
              c,
              both
                  (λ counter.
                    (sha : String)
                    → InRange (range_at sha (pins_for counter fn config))
                        (counted str_eq sha (inputs_for counter here)))
                  d b,
            )),
      λ e.
          ap
            (λ (x : Bool).
              (if x
                then s
                else check_bucket example fn capped (pins_for capped fn config) here.capped_inputs o
                    first).violations)
            fresh
          ∙ two_back (one_back (e.0, e.1 unspecified), e.1 capped),
    )
