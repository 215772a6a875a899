-- ===== src/Outcomes/Evidence/Refuse.antt =====
-- What the counts of a run refuse (scripts/outcomes.py): more evidence never takes a refusal back.
use air2lean.Base.{
  ◌+◌, ◌<◌, ◌≡◌, ◌≢◌, ◌↔◌, ◌⊎◌, some, true, List, [], ◌∷◌, ◌++◌, arith, Any, here, there, inl, inr,
  sum_of-append, as_count, not-is_empty→ne, ne→not-is_empty,
}
use air2lean.Json.{Fields, bool, str, obj, get}
use air2lean.Outcomes.{
  Outcome, search_cap, divergence, outcomes, value, OutcomeSet, AbsenceClaim, Counts, counted,
}
use air2lean.Outcomes.Sets.{counted-tabulate, counts_in-none, counts_in-some}
use native.Mathlib.Decide.{ℕ_discrete}
use air2lean.Outcomes.Evidence.{
  with_schedule, named_outcomes, case_outcomes, occurrences, count, blocking, absence, refused,
}

-- Counting the rows of a run records each outcome under its value.
counted-count :
    (rows : List Fields) (o : Outcome) → counted (count rows) (value o) ≡ occurrences rows o
unfolding count
counted-count rows o = counted-tabulate (occurrences rows) o

occurrences-append :
    (rows more : List Fields) (o : Outcome)
    → occurrences (rows ++ more) o ≡ occurrences rows o + occurrences more o
unfolding occurrences
occurrences-append rows more o = sum_of-append (λ row. as_count (case_outcomes row o)) rows more

module _ (claim : AbsenceClaim) where
  refused-some :
      (counts : Counts)
      → (absence claim counts).status ≡ refused
      → (o : Outcome) × (blocking claim o ≡ true) × (counted counts (value o) ≢ 0)
  unfolding absence
  refused-some counts h =
      counts_in-some (blocking claim) counts outcomes (not-is_empty→ne _ (ground arith))

  refused-of :
      (counts : Counts) (o : Outcome)
      → blocking claim o ≡ true
      → counted counts (value o) ≢ 0
      → (absence claim counts).status ≡ refused
  unfolding absence
  refused-of counts o b seen =
      rw (ne→not-is_empty _ (λ e. seen (counts_in-none (blocking claim) counts e o b)))

  -- An absence claim is refused exactly when an outcome that blocks it occurs in a row of the run.
  pub absence-count_iff :
      (rows : List Fields)
      → ((absence claim (count rows)).status ≡ refused)
        ↔ ((o : Outcome) × (blocking claim o ≡ true) × (0 < occurrences rows o))
  absence-count_iff rows = (
    λ h.
        let (o, b, seen) = refused-some (count rows) h in
        (o, b, omega (arith, counted-count rows o)),
    λ (o, b, seen). refused-of (count rows) o b (omega (arith, counted-count rows o)),
  )

  -- More rows never take a refusal back.
  pub absence-append :
      (rows more : List Fields)
      → (absence claim (count rows)).status ≡ refused
      → (absence claim (count (rows ++ more))).status ≡ refused
  absence-append rows more h =
      let (o, b, seen) = (absence-count_iff rows).0 h in
      (absence-count_iff (rows ++ more)).1 (o, b, omega (arith, occurrences-append rows more o))

-- The row records a schedule search that was cut off or that saw a run without a result.
abbrev pub IsTruncated : Fields → Type 0
IsTruncated row =
    (s : Fields) × (get "schedule" row ≡ some (obj s))
    × ((get "status" s ≡ some (str "capped")) ⊎ (get "saw_no_result" s ≡ some (bool true)))

with_schedule-capped :
    (found : OutcomeSet) (s : Fields)
    → get "status" s ≡ some (str "capped")
    → with_schedule found (some (obj s)) search_cap ≡ true
unfolding with_schedule
with_schedule-capped found s h = rw h (ground arith)

with_schedule-saw :
    (found : OutcomeSet) (s : Fields)
    → get "saw_no_result" s ≡ some (bool true)
    → with_schedule found (some (obj s)) divergence ≡ true
unfolding with_schedule
with_schedule-saw found s h = rw h (ground arith)

truncated-outcome :
    (row : Fields)
    → IsTruncated row
    → (case_outcomes row search_cap ≡ true) ⊎ (case_outcomes row divergence ≡ true)
unfolding case_outcomes
truncated-outcome row (s, e, inl capped) =
    inl (rw e (with_schedule-capped (named_outcomes row) s capped))
truncated-outcome row (s, e, inr saw) = inr (rw e (with_schedule-saw (named_outcomes row) s saw))

truncated-occurs :
    (rows : List Fields)
    → Any IsTruncated rows
    → 0 < occurrences rows search_cap + occurrences rows divergence
unfolding occurrences
truncated-occurs [] a = elim a [ ]
truncated-occurs (row ∷ rows) (here t) = elim (truncated-outcome row t) [
  | inl e ↦ ground arith
  | inr e ↦ ground arith
]
truncated-occurs (row ∷ rows) (there a) = ground (arith, truncated-occurs rows a)

-- One row with a truncated search refuses each absence claim, whatever else was observed.
pub absence-truncated :
    (claim : AbsenceClaim) (rows : List Fields)
    → Any IsTruncated rows
    → (absence claim (count rows)).status ≡ refused
unfolding blocking
absence-truncated claim rows a = elim (ℕ_discrete 0 (occurrences rows search_cap)) [
  | yes e ↦
      (absence-count_iff claim rows).1
        (divergence, ground arith, omega (arith, truncated-occurs rows a))
  | no n ↦ (absence-count_iff claim rows).1 (search_cap, ground arith, omega arith)
]
