-- ===== src/Diff/Classify/Agreement.antt =====
-- A match of scripts/diff-report.py is an agreement of the two runs, in the typed status and in the
-- legacy counters.
use air2lean.Base.{
  ℕ, String, ◌≡◌, ◌⊎◌, refl, Option, none, some, Bool, true, false, ◌&&◌, if◌then◌else◌, arith, inl,
  inr, ap, ==_iff, zero, suc,
}
use air2lean.Diff.{Kind, kind_eq, kind_index, Status, matches, Search, Policy}
use air2lean.Diff.Wire.{Wire, fail, same_value}
use air2lean.Diff.Kinds.{is_model_failure, fits, Side}
use air2lean.Diff.Observe.Consistent.{IsConsistent}
use air2lean.Diff.Classify.Failures.{
  PolicyMatch, is_expected-PolicyMatch, PolicyMatch-is_fail_match, panic-plain, trap-plain,
}
use air2lean.Diff.Classify.{
  agrees, legacy_bucket, legacy_bucket_of, model_bucket, Flags, capped_search, either, is_expected,
  values_match_of, differing, classify_observed, classify,
}

at : ℕ → Option Kind
at zero = some Kind.value
at (suc zero) = some Kind.error_return
at (suc (suc zero)) = some Kind.model_panic
at (suc (suc (suc zero))) = some Kind.native_panic
at (suc (suc (suc (suc zero)))) = some Kind.native_signal
at (suc (suc (suc (suc (suc zero))))) = some Kind.illegal
at (suc (suc (suc (suc (suc (suc zero)))))) = some Kind.unspecified
at (suc (suc (suc (suc (suc (suc (suc zero))))))) = some Kind.unspecified_timer
at (suc (suc (suc (suc (suc (suc (suc (suc zero)))))))) = some Kind.deadlock
at (suc (suc (suc (suc (suc (suc (suc (suc (suc zero))))))))) = some Kind.trap
at (suc (suc (suc (suc (suc (suc (suc (suc (suc (suc zero)))))))))) = some Kind.stack_overflow
at (suc (suc (suc (suc (suc (suc (suc (suc (suc (suc (suc zero))))))))))) =
    some Kind.bounded_no_result
at (suc (suc (suc (suc (suc (suc (suc (suc (suc (suc (suc (suc zero)))))))))))) =
    some Kind.search_cap
at (suc (suc (suc (suc (suc (suc (suc (suc (suc (suc (suc (suc (suc zero))))))))))))) =
    some Kind.input_failure
at (suc (suc (suc (suc (suc (suc (suc (suc (suc (suc (suc (suc (suc (suc zero)))))))))))))) =
    some Kind.native_harness_failure
at _ = none

at-index : (k : Kind) → at (kind_index k) ≡ some k
unfolding at
at-index Kind.value = refl
at-index _ = refl

pub kind_eq→eq : (a b : Kind) → kind_eq a b ≡ true → a ≡ b
kind_eq→eq a b h = cc (ap at ((==_iff (kind_index a) (kind_index b)).0 h), at-index a, at-index b)

-- A status that the cap rule leaves a match was one, and its search was not capped.
not_cut :
    (status : Status) (is_capped : Bool)
    → matches (if matches status && is_capped then Status.search_cap else status) ≡ true
    → (matches status ≡ true) × (is_capped ≡ false)
unfolding matches
not_cut status is_capped h = ground arith

module _ (panics : Policy) (native model : Wire) (nkind mkind : Kind) (found : Option Search)
    (flags : Flags) where
  -- The native failure is the one that the policy gives for the failure of the model.
  abbrev SameFailure : Type 0
  SameFailure =
      (is_expected panics native model ≡ true)
      × ((kind_eq nkind Kind.native_panic ≡ true)
            × (kind_eq mkind Kind.model_panic ≡ true)
            × (flags.exclude_ub ≡ false)
          ⊎ (kind_eq nkind Kind.native_signal ≡ true) × (kind_eq mkind Kind.trap ≡ true))

  differing-SameFailure :
      matches (differing panics native model nkind mkind found flags) ≡ true → SameFailure
  unfolding differing matches
  differing-SameFailure h = ground arith

  -- The two sides returned one value by one kind of return, or failed in the same way.
  abbrev pub Agreement : Option Bool → Type 0
  Agreement values_match =
      (values_match_of values_match native model ≡ true) × (kind_eq nkind mkind ≡ true)
      ⊎ SameFailure

  observed-Agreement :
      (values_match : Option Bool)
      → matches (classify_observed panics native model nkind mkind found flags values_match) ≡ true
      → Agreement values_match
        × (either Kind.input_failure nkind mkind ≡ false)
        × (either Kind.native_harness_failure nkind mkind ≡ false)
  unfolding classify_observed matches
  observed-Agreement v h = ground (arith, differing-SameFailure)

  classify-Agreement :
      (values_match : Option Bool)
      → matches (classify panics native model nkind mkind found flags values_match) ≡ true
      → Agreement values_match
        × (either Kind.input_failure nkind mkind ≡ false)
        × (either Kind.native_harness_failure nkind mkind ≡ false)
        × (capped_search found ≡ false)
  unfolding classify
  classify-Agreement v h =
      let status = classify_observed panics native model nkind mkind found flags v in
      let (m, open_search) = not_cut status (capped_search found) h in
      let (a, no_input, no_harness) = observed-Agreement v m in
      (a, no_input, no_harness, open_search)

-- The failure text of an accepted panic, and of an accepted trap.
panic_text :
    (w : Wire)
    → fits Kind.model_panic w ≡ true
    → (text : String) × (w ≡ fail text) × (is_model_failure Kind.model_panic text ≡ true)
unfolding fits
panic_text (fail text) h = (text, refl, h)
panic_text _ h = cc

trap_text :
    (w : Wire)
    → fits Kind.trap w ≡ true
    → (text : String) × (w ≡ fail text) × (is_model_failure Kind.trap text ≡ true)
unfolding fits
trap_text (fail text) h = (text, refl, h)
trap_text _ h = cc

module _ (panics : Policy) (native model : Wire) (nkind mkind : Kind) (found : Option Search)
    (flags : Flags) where
  -- Both sides returned, by one kind of return, values that agree with their buffers.
  abbrev pub EqualReturn : Type 0
  EqualReturn = (same_value native model ≡ true) × (nkind ≡ mkind)

  -- Both sides failed, with the failure that the policy gives for the native tag.
  abbrev pub EqualFailure : Type 0
  EqualFailure =
      PolicyMatch panics native model
      × ((nkind ≡ Kind.native_panic) × (mkind ≡ Kind.model_panic) × (flags.exclude_ub ≡ false)
          ⊎ (nkind ≡ Kind.native_signal) × (mkind ≡ Kind.trap))

  equal_failure :
      IsConsistent Side.model model mkind found
      → SameFailure panics native model nkind mkind found flags
      → EqualFailure
  equal_failure obs (expected, inl (n, m, safe)) =
      let m_is = kind_eq→eq mkind Kind.model_panic m in
      let (text, model_is, ok_text) = panic_text model (rw m_is at obs.of_form) in
      (
        rw model_is (
            is_expected-PolicyMatch panics native Kind.model_panic text ok_text
              (rw model_is at expected)),
        inl (kind_eq→eq nkind Kind.native_panic n, m_is, safe),
      )
  equal_failure obs (expected, inr (n, m)) =
      let m_is = kind_eq→eq mkind Kind.trap m in
      let (text, model_is, ok_text) = trap_text model (rw m_is at obs.of_form) in
      (
        rw model_is (
            is_expected-PolicyMatch panics native Kind.trap text ok_text (rw model_is at expected)),
        inr (kind_eq→eq nkind Kind.native_signal n, m_is),
      )

  -- With a consistent observation of the model, a case counts as a match only if its schedule search was not cut off, neither side is an input
  -- or harness failure, and the two sides returned equal values, buffers and live counts by one kind
  -- of return, or the native tag and the model failure are paired by the panic policy: a panic in a
  -- build with safety checks, or a fault signal against a trap.
  pub classify-match :
      IsConsistent Side.model model mkind found
      → matches
          (classify panics native model nkind mkind found flags (some (same_value native model)))
        ≡ true
      → (EqualReturn ⊎ EqualFailure)
        × (either Kind.input_failure nkind mkind ≡ false)
        × (either Kind.native_harness_failure nkind mkind ≡ false)
        × (capped_search found ≡ false)
  unfolding values_match_of
  classify-match obs h =
      let (agreement, no_input, no_harness, full) =
        classify-Agreement panics native model nkind mkind found flags
          (some (same_value native model)) h in
      (
        elim agreement [
          | inl (v, k) ↦ inl (v, kind_eq→eq nkind mkind k)
          | inr f ↦ inr (equal_failure obs f)
        ],
        no_input,
        no_harness,
        full,
      )

  failure_bucket :
      IsConsistent Side.model model mkind found
      → EqualFailure
      → model_bucket model flags.exclude_ub ≡ none
  failure_bucket obs (m, inl (_, m_is, safe)) =
      let (text, model_is, ok_text) = panic_text model (rw m_is at obs.of_form) in
      rw (model_is, safe) (panic-plain text ok_text)
  failure_bucket obs (m, inr (_, m_is)) =
      let (text, model_is, ok_text) = trap_text model (rw m_is at obs.of_form) in
      rw model_is (trap-plain text flags.exclude_ub ok_text)

  -- With a consistent observation of the model, a case that counts as a match is an agreement in the
  -- legacy counters too.
  pub legacy_bucket-match :
      IsConsistent Side.model model mkind found
      → matches
          (classify panics native model nkind mkind found flags (some (same_value native model)))
        ≡ true
      → agrees (
          legacy_bucket panics native model flags.host
            (some (same_value native model))
            found
            flags.exclude_ub)
        ≡ true
  unfolding legacy_bucket legacy_bucket_of values_match_of agrees
  legacy_bucket-match obs h =
      let (agreement, _, _, full) = classify-match obs h in
      elim agreement [
        | inl (v, _) ↦ rw (full, v) refl
        | inr f ↦
            ground
              (arith, full, failure_bucket obs f, PolicyMatch-is_fail_match panics native model f.0)
      ]
