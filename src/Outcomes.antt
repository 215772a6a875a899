-- ===== src/Outcomes.antt =====
-- scripts/outcomes.py: the outcome taxonomy, and what sampled evidence can refuse.
-- A set of outcomes (`frozenset`) is its membership test; the text of a message is left out, and
-- an error is told from another by its constructor.
mod Sets
pub mod Admits
pub mod Contract
pub mod Audit
pub mod Evidence
use air2lean.Base.{
  ℕ, String, Bool, true, false, ◌&&◌, ◌||◌, not, List, [], ◌∷◌, str_eq, ◌==◌, if◌then◌else◌, any,
}

pub data Outcome : Type 0 where
  valid nondeterministic_valid error_return panic illegal unspecified unspecified_timer : Outcome
  unsupported deadlock hardware_trap stack_overflow divergence search_cap : Outcome

-- `outcome.value`
unfoldable pub value : Outcome → String
value valid = "valid"
value nondeterministic_valid = "nondeterministic_valid"
value error_return = "error_return"
value panic = "panic"
value illegal = "illegal_behavior"
value unspecified = "unspecified_behavior"
value unspecified_timer = "unspecified_timer"
value unsupported = "unsupported_semantics"
value deadlock = "deadlock"
value hardware_trap = "hardware_trap"
value stack_overflow = "stack_overflow"
value divergence = "divergence"
value search_cap = "search_cap"

-- `Outcome` as it is iterated
abbrev pub outcomes : List Outcome
outcomes =
    valid ∷ nondeterministic_valid ∷ error_return ∷ panic ∷ illegal ∷ unspecified
    ∷ unspecified_timer ∷ unsupported ∷ deadlock ∷ hardware_trap ∷ stack_overflow ∷ divergence
    ∷ search_cap ∷ []

abbrev pub OutcomeSet : Type 0
OutcomeSet = Outcome → Bool

abbrev pub index : Outcome → ℕ
index valid = 0
index nondeterministic_valid = 1
index error_return = 2
index panic = 3
index illegal = 4
index unspecified = 5
index unspecified_timer = 6
index unsupported = 7
index deadlock = 8
index hardware_trap = 9
index stack_overflow = 10
index divergence = 11
index search_cap = 12

abbrev pub outcome_eq : Outcome → Outcome → Bool
outcome_eq a b = index a == index b

unfoldable pub safety_failures : OutcomeSet
safety_failures panic = true
safety_failures illegal = true
safety_failures unspecified = true
safety_failures unspecified_timer = true
safety_failures deadlock = true
safety_failures hardware_trap = true
safety_failures stack_overflow = true
safety_failures _ = false

unfoldable pub incomplete : OutcomeSet
incomplete search_cap = true
incomplete divergence = true
incomplete unspecified = true
incomplete unspecified_timer = true
incomplete unsupported = true
incomplete _ = false

pub data AbsenceClaim : Type 0 where
  no_panic guaranteed_return : AbsenceClaim

-- `ABSENCE_CLAIMS`
unfoldable pub absence_claims : AbsenceClaim → OutcomeSet
unfolding safety_failures
absence_claims no_panic o = safety_failures o
absence_claims guaranteed_return o = safety_failures o || outcome_eq o divergence

-- `STRENGTH_ABSENCE.get(strength, ())`
unfoldable pub strength_absence : String → List AbsenceClaim
strength_absence s =
    if str_eq s "safety"
    then no_panic ∷ []
    else if str_eq s "partial_correctness"
    then no_panic ∷ []
    else if str_eq s "total_correctness"
    then no_panic ∷ guaranteed_return ∷ []
    else []

-- `CONTRACT_OUTCOMES`
unfoldable pub contract_outcomes : OutcomeSet
unfolding incomplete
contract_outcomes o = not (incomplete o)

unfoldable pub denied_by : String → OutcomeSet
unfolding absence_claims strength_absence
denied_by strength o = any (λ c. absence_claims c o) (strength_absence strength)

-- The truth value of a set.
unfoldable pub nonempty : OutcomeSet → Bool
nonempty s = any s outcomes

unfoldable pub default_admits : String → OutcomeSet
unfolding contract_outcomes safety_failures
default_admits strength o =
    contract_outcomes o && not (nonempty (denied_by strength) && safety_failures o)

-- A dictionary of counts by the value of an outcome.
abbrev pub Counts : Type 0
Counts = List (String × ℕ)

-- `counts.get(name)`, where a missing name counts as 0: only its truth value is used.
unfoldable pub counted : Counts → String → ℕ
counted [] name = 0
counted ((n, k) ∷ counts) name = if str_eq n name then k else counted counts name

-- The outcomes of a class with a positive count, with their counts, in the order of `Outcome`.
unfoldable pub counts_in : OutcomeSet → Counts → List Outcome → List (Outcome × ℕ)
unfolding counted value
counts_in s counts [] = []
counts_in s counts (o ∷ os) =
    let n = counted counts (value o) in
    let rest = counts_in s counts os in if s o && not (n == 0) then (o, n) ∷ rest else rest
