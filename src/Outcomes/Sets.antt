-- ===== src/Outcomes/Sets.antt =====
-- Facts on the enumeration `Outcome` of scripts/outcomes.py and on the dictionaries over it.
use text.Mathlib.TextPositions.{eq_refl}
use air2lean.Base.{
  ℕ, suc, ◌≡◌, ◌≢◌, refl, true, false, not, ◌&&◌, List, [], ◌∷◌, arith, ◌==◌, All, inl, inr,
  if◌then◌else◌, Option, some, none, str_eq, eq_iff, ==_iff, ==-refl, any, ap, zero, Bool-cases,
  String,
}
use air2lean.Outcomes.{
  Outcome, valid, nondeterministic_valid, error_return, panic, illegal, unspecified,
  unspecified_timer, unsupported, deadlock, hardware_trap, stack_overflow, divergence, search_cap,
  outcomes, value, OutcomeSet, index, outcome_eq, Counts, counted, counts_in,
}

-- What holds along the enumeration holds of each outcome.
pub every {ℓ} : (P : Outcome → Type ℓ) → All P outcomes → (o : Outcome) → P o
every P h valid = h.0
every P h nondeterministic_valid = h.1.0
every P h error_return = h.1.1.0
every P h panic = h.1.1.1.0
every P h illegal = h.1.1.1.1.0
every P h unspecified = h.1.1.1.1.1.0
every P h unspecified_timer = h.1.1.1.1.1.1.0
every P h unsupported = h.1.1.1.1.1.1.1.0
every P h deadlock = h.1.1.1.1.1.1.1.1.0
every P h hardware_trap = h.1.1.1.1.1.1.1.1.1.0
every P h stack_overflow = h.1.1.1.1.1.1.1.1.1.1.0
every P h divergence = h.1.1.1.1.1.1.1.1.1.1.1.0
every P h search_cap = h.1.1.1.1.1.1.1.1.1.1.1.1.0

at : ℕ → Option Outcome
at zero = some valid
at (suc zero) = some nondeterministic_valid
at (suc (suc zero)) = some error_return
at (suc (suc (suc zero))) = some panic
at (suc (suc (suc (suc zero)))) = some illegal
at (suc (suc (suc (suc (suc zero))))) = some unspecified
at (suc (suc (suc (suc (suc (suc zero)))))) = some unspecified_timer
at (suc (suc (suc (suc (suc (suc (suc zero))))))) = some unsupported
at (suc (suc (suc (suc (suc (suc (suc (suc zero)))))))) = some deadlock
at (suc (suc (suc (suc (suc (suc (suc (suc (suc zero))))))))) = some hardware_trap
at (suc (suc (suc (suc (suc (suc (suc (suc (suc (suc zero)))))))))) = some stack_overflow
at (suc (suc (suc (suc (suc (suc (suc (suc (suc (suc (suc zero))))))))))) = some divergence
at (suc (suc (suc (suc (suc (suc (suc (suc (suc (suc (suc (suc zero)))))))))))) = some search_cap
at _ = none

at-index : (o : Outcome) → at (index o) ≡ some o
unfolding at
at-index valid = refl
at-index _ = refl

pub outcome_eq→eq : (a b : Outcome) → outcome_eq a b ≡ true → a ≡ b
outcome_eq→eq a b h = cc (ap at ((==_iff (index a) (index b)).0 h), at-index a, at-index b)

-- `known[name]`, for the name of an outcome
of_value : String → Option Outcome
of_value n = find outcomes
  where
    find : List Outcome → Option Outcome
    find [] = none
    find (o ∷ os) = if str_eq (value o) n then some o else find os

of_value-value : (o : Outcome) → of_value (value o) ≡ some o
unfolding of_value value
of_value-value valid = refl
of_value-value _ = refl

-- No two outcomes have one value.
pub value-injective : (a b : Outcome) → value a ≡ value b → a ≡ b
value-injective a b h = cc (ap of_value h, of_value-value a, of_value-value b)

module _ (s : OutcomeSet) (counts : Counts) where
  counts_in-empty :
      (os : List Outcome)
      → counts_in s counts os ≡ []
      → All (λ o. s o ≡ true → counted counts (value o) ≡ 0) os
  unfolding counts_in
  counts_in-empty [] h = tt
  counts_in-empty (o ∷ os) h = (ground arith, counts_in-empty os (ground arith))

  -- No outcome of the class is listed: none has a positive count.
  pub counts_in-none :
      counts_in s counts outcomes ≡ [] → (o : Outcome) → s o ≡ true → counted counts (value o) ≡ 0
  counts_in-none h = every _ (counts_in-empty outcomes h)

  -- Some outcome of the class is listed: one has a positive count.
  pub counts_in-some :
      (os : List Outcome)
      → counts_in s counts os ≢ []
      → (o : Outcome) × (s o ≡ true) × (counted counts (value o) ≢ 0)
  unfolding counts_in
  counts_in-some [] h = absurd (h refl)
  counts_in-some (o ∷ os) h = elim (Bool-cases (s o && not (counted counts (value o) == 0))) [
    | inl yes_o ↦ (o, ground arith, ground arith)
    | inr no_o ↦ counts_in-some os (ground arith)
  ]

-- The dictionary of the nonzero values of a function on outcomes, in the order of the list.
unfoldable pub tabulate : (Outcome → ℕ) → List Outcome → Counts
tabulate f [] = []
tabulate f (o ∷ os) = let rest = tabulate f os in if f o == 0 then rest else (value o, f o) ∷ rest

pub outcome_eq_refl : (o : Outcome) → outcome_eq o o ≡ true
outcome_eq_refl o = ==-refl (index o)

str_eq-value : (a b : Outcome) → outcome_eq a b ≡ false → str_eq (value a) (value b) ≡ false
str_eq-value a b h = elim (Bool-cases (str_eq (value a) (value b))) [
  | inl e ↦
      let same_value = value-injective a b ((eq_iff (value a) (value b)).0 e) in
      let same_index = outcome_eq_refl a in cc (h, same_index, ap (outcome_eq a) same_value)
  | inr e ↦ e
]

counted-tabulate_mem :
    (f : Outcome → ℕ) (o : Outcome) (os : List Outcome)
    → counted (tabulate f os) (value o) ≡ (if any (λ x. outcome_eq x o) os then f o else 0)
unfolding tabulate counted
counted-tabulate_mem f o [] = refl
counted-tabulate_mem f o (x ∷ os) = elim (Bool-cases (outcome_eq x o)) [
  | inl e ↦
      let x_is = outcome_eq→eq x o e in
      let ih = counted-tabulate_mem f o os in
      ground (arith, eq_refl (value o), ap f x_is, ap value x_is)
  | inr e ↦ ground (arith, counted-tabulate_mem f o os, str_eq-value x o e)
]

-- A count is looked up under the value of its outcome.
pub counted-tabulate :
    (f : Outcome → ℕ) (o : Outcome) → counted (tabulate f outcomes) (value o) ≡ f o
counted-tabulate f o = rw (counted-tabulate_mem f o outcomes) (rw (present o))
  where
    present : (x : Outcome) → any (λ y. outcome_eq y x) outcomes ≡ true
    present valid = refl
    present _ = refl
