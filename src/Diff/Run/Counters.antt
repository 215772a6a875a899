-- ===== src/Diff/Run/Counters.antt =====
-- The counters of a comparison (`Counter` in scripts/diff-report.py): what `counter[key] += 1`
-- changes, and the equality of their keys.
use air2lean.Base.{
  ℕ, ◌+◌, ◌≡◌, refl, ap, ◌∙◌, sym, Bool, true, List, [], ◌∷◌, ◌==◌, ==_iff, if◌then◌else◌, as_count,
  arith, Bool-cases, inl, inr,
}
use air2lean.Diff.{Status, status_eq, status_index}
use air2lean.Diff.Classify.{Bucket}
use air2lean.Diff.Run.{bump, counted, bucket_eq, bucket_index}

-- The sum of the counts of the keys that the test picks.
unfoldable pub total_in {ℓ} : {A : Type ℓ} → (A → Bool) → List (A × ℕ) → ℕ
total_in p [] = 0
total_in p ((a, n) ∷ counts) = (if p a then n else 0) + total_in p counts

module _ {A : Type 0} (same : A → A → Bool) (same→eq : (a b : A) → same a b ≡ true → a ≡ b) where
  pub counted-bump :
      (c a : A) (counts : List (A × ℕ))
      → counted same c (bump same a counts) ≡ counted same c counts + as_count (same a c)
  unfolding counted bump
  counted-bump c a [] = ground arith
  counted-bump c a ((b, n) ∷ counts) = elim (Bool-cases (same b a)) [
    | inl e ↦ (let key : same b c ≡ same a c = ap (λ x. same x c) (same→eq b a e) in ground arith)
    | inr e ↦ elim (Bool-cases (same b c)) [
      | inl f ↦
          (let back : same b a ≡ same c a = ap (λ x. same x a) (same→eq b c f) in
            elim (Bool-cases (same a c)) [
              | inl g ↦
                  (let eq : same a a ≡ same c a = ap (λ x. same x a) (same→eq a c g) in
                    let at : same b a ≡ same b c = ap (same b) (same→eq a c g) in ground arith)
              | inr g ↦ ground arith
            ])
      | inr f ↦ ground (arith, counted-bump c a counts)
    ]
  ]

  pub total_in-bump :
      (p : A → Bool) (a : A) (counts : List (A × ℕ))
      → total_in p (bump same a counts) ≡ total_in p counts + as_count (p a)
  unfolding total_in bump
  total_in-bump p a [] = ground arith
  total_in-bump p a ((b, n) ∷ counts) = elim (Bool-cases (same b a)) [
    | inl e ↦ (let key : p b ≡ p a = ap p (same→eq b a e) in ground arith)
    | inr e ↦ ground (arith, total_in-bump p a counts)
  ]

status_at : ℕ → Status
status_at n =
    if n == 0
    then Status.value_match
    else if n == 1
    then Status.error_return_match
    else if n == 2
    then Status.panic_match
    else if n == 3
    then Status.trap_match
    else if n == 4
    then Status.illegal
    else if n == 5
    then Status.unspecified
    else if n == 6
    then Status.unspecified_timer
    else if n == 7
    then Status.stack_overflow
    else if n == 8
    then Status.search_cap
    else if n == 9
    then Status.bounded_no_result
    else if n == 10
    then Status.host
    else if n == 11
    then Status.mismatch
    else if n == 12
    then Status.input_failure
    else if n == 13
    then Status.native_harness_failure
    else if n == 14
    then Status.skipped
    else Status.ub_excluded

status_at-status_index : (s : Status) → status_at (status_index s) ≡ s
unfolding status_at
status_at-status_index Status.value_match = refl
status_at-status_index _ = refl

pub status_eq→eq : (a b : Status) → status_eq a b ≡ true → a ≡ b
status_eq→eq a b h =
    sym (status_at-status_index a)
    ∙ ap status_at ((==_iff (status_index a) (status_index b)).0 h)
    ∙ status_at-status_index b

bucket_at : ℕ → Bucket
bucket_at n =
    if n == 0
    then Bucket.ok
    else if n == 1
    then Bucket.fail_match
    else if n == 2
    then Bucket.unspecified
    else if n == 3
    then Bucket.capped
    else if n == 4
    then Bucket.host
    else if n == 5
    then Bucket.mismatch
    else Bucket.ub_excluded

bucket_at-bucket_index : (b : Bucket) → bucket_at (bucket_index b) ≡ b
unfolding bucket_at
bucket_at-bucket_index Bucket.ok = refl
bucket_at-bucket_index _ = refl

pub bucket_eq→eq : (a b : Bucket) → bucket_eq a b ≡ true → a ≡ b
bucket_eq→eq a b h =
    sym (bucket_at-bucket_index a)
    ∙ ap bucket_at ((==_iff (bucket_index a) (bucket_index b)).0 h)
    ∙ bucket_at-bucket_index b
