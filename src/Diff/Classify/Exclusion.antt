-- ===== src/Diff/Classify/Exclusion.antt =====
-- What excludes a case from comparison in scripts/diff-report.py, and what never does.
use air2lean.Base.{
  ◌≡◌, ◌⊎◌, refl, Option, Bool, true, false, ◌&&◌, ◌||◌, arith, inl, inr, Bool-cases, if◌then◌else◌,
}
use air2lean.Diff.{Kind, kind_eq, Status, matches, Search, Policy}
use air2lean.Diff.Wire.{Wire}
use air2lean.Diff.Classify.{
  Flags, capped_search, saw_no_result, values_match_of, differing, classify_observed, classify,
}

-- The two statuses that take a case out of the comparison.
abbrev pub is_excluded : Status → Bool
is_excluded Status.illegal = true
is_excluded Status.unspecified = true
is_excluded _ = false

abbrev pub is_host : Status → Bool
is_host Status.host = true
is_host _ = false

uncut :
    (p : Status → Bool) (status : Status) (is_capped : Bool)
    → p Status.search_cap ≡ false
    → p (if matches status && is_capped then Status.search_cap else status) ≡ true
    → p status ≡ true
uncut p status is_capped h e = elim (Bool-cases (matches status && is_capped)) [
  | inl cut ↦ cc (h, rw cut at e)
  | inr kept ↦ rw kept at e
]

module _ (panics : Policy) (native model : Wire) (nkind mkind : Kind) (found : Option Search)
    (flags : Flags) where
  -- The input is pinned, or the schedule search is incomplete.
  abbrev pub Licensed : Type 0
  Licensed = (flags.pinned ≡ true) ⊎ (capped_search found ≡ true) ⊎ (saw_no_result found ≡ true)

  abbrev is_unsafe : Bool
  is_unsafe = kind_eq mkind Kind.illegal || kind_eq mkind Kind.unspecified

  differing-excluded :
      is_excluded (differing panics native model nkind mkind found flags) ≡ true
      → Licensed × (is_unsafe ≡ true)
  unfolding differing
  differing-excluded h = ground arith

  observed-excluded :
      (values_match : Option Bool)
      → is_excluded (classify_observed panics native model nkind mkind found flags values_match)
        ≡ true
      → Licensed × (is_unsafe ≡ true)
  unfolding classify_observed
  observed-excluded v h = ground (arith, differing-excluded)

  -- A case is excluded as illegal or unspecified only where the model observed that kind, and only
  -- on a pinned input or under an incomplete schedule search.
  pub classify-excluded :
      (values_match : Option Bool)
      → is_excluded (classify panics native model nkind mkind found flags values_match) ≡ true
      → Licensed × ((kind_eq mkind Kind.illegal || kind_eq mkind Kind.unspecified) ≡ true)
  unfolding classify
  classify-excluded v h = observed-excluded v (
      uncut is_excluded (classify_observed panics native model nkind mkind found flags v)
        (capped_search found) refl h)

  -- Two returned values that do not match, and that the caller has typed as a host difference.
  abbrev pub HostCase : Option Bool → Type 0
  HostCase values_match =
      (flags.host ≡ true)
      × (kind_eq nkind Kind.value ≡ true)
      × (kind_eq mkind Kind.value ≡ true)
      × (values_match_of values_match native model ≡ false)

  differing-host :
      is_host (differing panics native model nkind mkind found flags) ≡ true
      → (flags.host ≡ true) × (kind_eq nkind Kind.value ≡ true) × (kind_eq mkind Kind.value ≡ true)
  unfolding differing
  differing-host h = ground arith

  observed-host :
      (values_match : Option Bool)
      → is_host (classify_observed panics native model nkind mkind found flags values_match) ≡ true
      → HostCase values_match
  unfolding classify_observed
  observed-host v h = ground (arith, differing-host)

  -- A host difference is one between two returned values that do not match and that the caller typed.
  pub classify-host :
      (values_match : Option Bool)
      → is_host (classify panics native model nkind mkind found flags values_match) ≡ true
      → HostCase values_match
  unfolding classify
  classify-host v h = observed-host v (
      uncut is_host (classify_observed panics native model nkind mkind found flags v)
        (capped_search found) refl h)
