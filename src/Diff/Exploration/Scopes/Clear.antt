-- ===== src/Diff/Exploration/Scopes/Clear.antt =====
-- A scope without blockers (`summary` of `Exploration` in scripts/diff-report.py).
use air2lean.Base.{
  ◌+◌, ◌<◌, ◌≤◌, ◌≡◌, refl, Option, none, some, Bool, true, false, List, [], ◌∷◌, as_count, length,
  sum_of, arith, All, Bool-cases, inl, inr,
}
use air2lean.Diff.{Status, matches, Search}
use air2lean.Diff.Exploration.{
  Key, Scope, Case, Receipt, unexplored, scope_case, scope_receipt, is_capped,
}
use air2lean.Diff.Exploration.Scopes.{Event, explore, scope_at, blockers}
use air2lean.Diff.Exploration.Scopes.Counted.{cases_in, receipts_in, case-counter, receipt-counter}

zero_sum :
    {A : Type 0} (p : A → Bool) (xs : List A)
    → sum_of (λ x. as_count (p x)) xs ≡ 0
    → All (λ x. p x ≡ false) xs
zero_sum p [] h = tt
zero_sum p (x ∷ xs) h = elim (Bool-cases (p x)) [
  | inl e ↦ absurd (ground (arith, h, e))
  | inr e ↦ (e, zero_sum p xs (ground (arith, h, e)))
]

sum_bound : {A : Type 0} (p : A → Bool) (xs : List A) → sum_of (λ x. as_count (p x)) xs ≤ length xs
sum_bound p [] = omega arith
sum_bound p (x ∷ xs) = (let rest = sum_bound p xs in ground (arith, rest))

full_sum :
    {A : Type 0} (p : A → Bool) (xs : List A)
    → sum_of (λ x. as_count (p x)) xs ≡ length xs
    → All (λ x. p x ≡ true) xs
full_sum p [] h = tt
full_sum p (x ∷ xs) h =
    (let bound = sum_bound p xs in
      elim (Bool-cases (p x)) [
        | inl e ↦ (e, full_sum p xs (ground (arith, h, e)))
        | inr e ↦ absurd (ground (arith, h, e, bound))
      ])

sum_of-one : {A : Type 0} (xs : List A) → sum_of (λ x. 1) xs ≡ length xs
sum_of-one [] = refl
sum_of-one (x ∷ xs) = omega (arith, sum_of-one xs)

unfoldable pub is_bounded : Option Search → Bool
is_bounded none = false
is_bounded (some found) = found.saw_no_result

cases-adds : (t : Status) (o : Option Search) (s : Scope) → (scope_case t o s).cases ≡ s.cases + 1
unfolding scope_case
cases-adds t none s = refl
cases-adds t (some f) s = refl

exact-adds :
    (t : Status) (o : Option Search) (s : Scope)
    → (scope_case t o s).exact_matches ≡ s.exact_matches + as_count (matches t)
unfolding scope_case
exact-adds t none s = refl
exact-adds t (some f) s = refl

capped-adds :
    (t : Status) (o : Option Search) (s : Scope)
    → (scope_case t o s).capped_cases ≡ s.capped_cases + as_count (is_capped o)
unfolding scope_case
capped-adds t none s = omega arith
capped-adds t (some f) s = refl

bounded-adds :
    (t : Status) (o : Option Search) (s : Scope)
    → (scope_case t o s).bounded_cases ≡ s.bounded_cases + as_count (is_bounded o)
unfolding scope_case is_bounded
bounded-adds t none s = omega arith
bounded-adds t (some f) s = refl

truncated-keeps :
    (t : Status) (o : Option Search) (s : Scope) → (scope_case t o s).truncated ≡ s.truncated
unfolding scope_case
truncated-keeps t none s = refl
truncated-keeps t (some f) s = refl

saw-keeps :
    (t : Status) (o : Option Search) (s : Scope)
    → (scope_case t o s).saw_no_result ≡ s.saw_no_result
unfolding scope_case
saw-keeps t none s = refl
saw-keeps t (some f) s = refl

-- The cases of the scope match, without a capped search or one that saw a run without a result, there
-- is one, and its enumerations are not truncated and saw a result on every run.
pub record IsClear (cases : List Case) (receipts : List Receipt) : Type 0 where
  pub some_case : 0 < length cases
  pub all_match : All (λ c. matches c.status ≡ true) cases
  pub none_capped : All (λ c. is_capped c.search ≡ false) cases
  pub none_bounded : All (λ c. is_bounded c.search ≡ false) cases
  pub none_truncated : All (λ r. r.truncated ≡ false) receipts
  pub all_saw : All (λ r. r.saw_no_result ≡ false) receipts

clear_counters :
    (s : Scope)
    → blockers s ≡ []
    → (0 < s.cases)
      × (s.exact_matches ≡ s.cases)
      × (s.capped_cases ≡ 0)
      × (s.bounded_cases ≡ 0)
      × (s.truncated ≡ 0)
      × (s.saw_no_result ≡ 0)
unfolding blockers
clear_counters s h = ground arith

-- A scope without blockers after a run has a case, all its cases match, without a capped search or
-- one that saw a run without a result, and none of its enumerations is truncated or saw one.
pub blockers-IsClear :
    (k : Key) (es : List Event)
    → blockers (scope_at k (explore es unexplored).scopes) ≡ []
    → IsClear (cases_in k es) (receipts_in k es)
unfolding scope_receipt
blockers-IsClear k es h =
    (let (some_case, exact, none_capped, none_bounded, none_truncated, all_saw) =
        clear_counters _ h in
      let cases =
        case-counter k es (λ s. s.cases) refl (λ c. 1) (λ c. cases-adds c.status c.search)
          (λ r s. refl) in
      let matched =
        case-counter k es (λ s. s.exact_matches) refl (λ c. as_count (matches c.status))
          (λ c. exact-adds c.status c.search) (λ r s. refl) in
      let capped =
        case-counter k es (λ s. s.capped_cases) refl (λ c. as_count (is_capped c.search))
          (λ c. capped-adds c.status c.search) (λ r s. refl) in
      let bounded =
        case-counter k es (λ s. s.bounded_cases) refl (λ c. as_count (is_bounded c.search))
          (λ c. bounded-adds c.status c.search) (λ r s. refl) in
      let cut =
        receipt-counter k es (λ s. s.truncated) refl (λ r. as_count r.truncated)
          (λ c. truncated-keeps c.status c.search) (λ r s. refl) in
      let blank =
        receipt-counter k es (λ s. s.saw_no_result) refl (λ r. as_count r.saw_no_result)
          (λ c. saw-keeps c.status c.search) (λ r s. refl) in
      let total = sum_of-one (cases_in k es) in
      record {
        some_case = omega (arith, some_case, cases, total);
        all_match =
            full_sum (λ c. matches c.status) (cases_in k es)
              (omega (arith, exact, cases, matched, total));
        none_capped =
            zero_sum (λ c. is_capped c.search) (cases_in k es) (omega (arith, none_capped, capped));
        none_bounded =
            zero_sum (λ c. is_bounded c.search) (cases_in k es)
              (omega (arith, none_bounded, bounded));
        none_truncated =
            zero_sum (λ r. r.truncated) (receipts_in k es) (omega (arith, none_truncated, cut));
        all_saw =
            zero_sum (λ r. r.saw_no_result) (receipts_in k es) (omega (arith, all_saw, blank));
      })
