-- ===== src/Outcomes/Admits.antt =====
-- `contract_admits` of scripts/outcomes.py: the outcomes that the contract of a goal admits.
use air2lean.Base.{
  String, ◌≡◌, Option, none, some, Bool, true, false, ◌&&◌, ◌||◌, not, List, [], ◌∷◌, str_eq, all,
  any, arith, inl, inr, Option-cases, Bool-cases, not-false, ap, ◌∙◌,
}
use air2lean.Base.Result.{Result, ok, err, ◌>>◌, refuse_if, refuse_if-eq-ok, ok-injective}
use air2lean.Json.{strings_of, listed, Json, null, arr}
use air2lean.Outcomes.{
  Outcome, outcomes, value, OutcomeSet, nonempty, safety_failures, incomplete, contract_outcomes,
  denied_by, default_admits,
}

-- Why `contract_admits` raises.
pub data AdmitError : Type 0 where
  not_a_list duplicate unknown incomplete_class ruled_out : AdmitError

-- `len(set(declared)) != len(declared)`
unfoldable pub has_duplicates : List String → Bool
unfolding listed
has_duplicates [] = false
has_duplicates (n ∷ ns) = listed n ns || has_duplicates ns

-- `n in known`, for the values of the outcomes
unfoldable pub known : String → Bool
unfolding value
known n = any (λ o. str_eq (value o) n) outcomes

-- `frozenset(known[n] for n in declared)`
unfoldable pub named : List String → OutcomeSet
unfolding listed value
named ns o = listed (value o) ns

-- The checks on a nonempty list of names.
unfoldable pub admits_names : String → List String → Result AdmitError OutcomeSet
unfolding has_duplicates known named contract_outcomes
admits_names strength ns = do
  refuse_if (has_duplicates ns) duplicate
  refuse_if (not (all known ns)) unknown
  let admitted = named ns
  refuse_if (nonempty (λ o. admitted o && not (contract_outcomes o))) incomplete_class
  refuse_if (nonempty (λ o. admitted o && denied_by strength o)) ruled_out
  ok admitted

admits_list : String → Option (List String) → Result AdmitError OutcomeSet
admits_list strength none = err not_a_list
admits_list strength (some []) = err not_a_list
admits_list strength (some (n ∷ ns)) = admits_names strength (n ∷ ns)

unfoldable pub contract_admits : String → Json → Result AdmitError OutcomeSet
unfolding admits_list default_admits
contract_admits strength null = ok (default_admits strength)
contract_admits strength (arr xs) = admits_list strength (strings_of xs)
contract_admits strength _ = err not_a_list

pub nonempty-false : (s : OutcomeSet) (o : Outcome) → nonempty s ≡ false → s o ≡ false
unfolding nonempty
nonempty-false s Outcome.valid h = ground arith
nonempty-false s Outcome.nondeterministic_valid h = ground arith
nonempty-false s Outcome.error_return h = ground arith
nonempty-false s Outcome.panic h = ground arith
nonempty-false s _ h = ground arith

pub nonempty-true : (s : OutcomeSet) (o : Outcome) → s o ≡ true → nonempty s ≡ true
unfolding nonempty
nonempty-true s Outcome.valid h = ground arith
nonempty-true s _ h = ground arith

any-some : (s : OutcomeSet) (os : List Outcome) → any s os ≡ true → (o : Outcome) × (s o ≡ true)
any-some s [] h = cc
any-some s (o ∷ os) h = elim (Bool-cases (s o)) [
  | inl e ↦ (o, e)
  | inr e ↦ any-some s os (ground arith)
]

pub nonempty-some : (s : OutcomeSet) → nonempty s ≡ true → (o : Outcome) × (s o ≡ true)
unfolding nonempty
nonempty-some s h = any-some s outcomes h

-- Nothing of `p` lies outside `q`.
pub subset_of_empty :
    (p q : OutcomeSet) (o : Outcome)
    → nonempty (λ x. p x && not (q x)) ≡ false
    → p o ≡ true
    → q o ≡ true
subset_of_empty p q o h a = let e = nonempty-false (λ x. p x && not (q x)) o h in ground arith

-- What a strength rules out is a failure of the model or divergence.
denied-failure :
    (strength : String) (o : Outcome)
    → denied_by strength o ≡ true
    → (safety_failures o || incomplete o) ≡ true
unfolding denied_by incomplete
denied-failure strength Outcome.valid h = ground arith
denied-failure strength Outcome.nondeterministic_valid h = ground arith
denied-failure strength _ h = ground arith

-- An outcome that a contract may admit: one of a program, that the strength does not rule out.
abbrev pub MayAdmit : String → Outcome → Type 0
MayAdmit strength o = (incomplete o ≡ false) × (denied_by strength o ≡ false)

default_admits-MayAdmit :
    (strength : String) (o : Outcome) → default_admits strength o ≡ true → MayAdmit strength o
unfolding default_admits contract_outcomes
default_admits-MayAdmit strength o h =
    ground (arith, denied-failure strength o, nonempty-false (denied_by strength) o)

-- The checks that a declared list of names has passed.
record Passed (strength : String) (ns : List String) (admitted : OutcomeSet) : Type 0 where
  distinct : has_duplicates ns ≡ false
  all_known : all known ns ≡ true
  complete : nonempty (λ o. named ns o && not (contract_outcomes o)) ≡ false
  allowed : nonempty (λ o. named ns o && denied_by strength o) ≡ false
  same_set : named ns ≡ admitted

admits_names-Passed :
    (strength : String) (ns : List String) {admitted : OutcomeSet}
    → admits_names strength ns ≡ ok admitted
    → Passed strength ns admitted
unfolding admits_names
admits_names-Passed strength ns h =
    let (a, h₁) = refuse_if-eq-ok _ _ _ h in
    let (b, h₂) = refuse_if-eq-ok _ _ _ h₁ in
    let (c, h₃) = refuse_if-eq-ok _ _ _ h₂ in
    let (d, h₄) = refuse_if-eq-ok _ _ _ h₃ in
    record {
      distinct = a;
      all_known = not-false (all known ns) b;
      complete = c;
      allowed = d;
      same_set = ok-injective h₄;
    }

admits_names-MayAdmit :
    (strength : String) (ns : List String) {admitted : OutcomeSet} (o : Outcome)
    → admits_names strength ns ≡ ok admitted
    → admitted o ≡ true
    → MayAdmit strength o
unfolding contract_outcomes
admits_names-MayAdmit strength ns o h a =
    let p = admits_names-Passed strength ns h in
    let inside : named ns o ≡ true = (ap (λ (s : OutcomeSet). s o) p.same_set) ∙ a in
    let c = nonempty-false (λ x. named ns x && not (contract_outcomes x)) o p.complete in
    let d = nonempty-false (λ x. named ns x && denied_by strength x) o p.allowed in ground arith

admits_list-MayAdmit :
    (strength : String) (ns : List String) {admitted : OutcomeSet} (o : Outcome)
    → admits_list strength (some ns) ≡ ok admitted
    → admitted o ≡ true
    → MayAdmit strength o
unfolding admits_list
admits_list-MayAdmit strength [] o h a = cc
admits_list-MayAdmit strength (n ∷ ns) o h a = admits_names-MayAdmit strength (n ∷ ns) o h a

-- Whatever a contract admits, declared or by default, is neither an incomplete class nor an outcome
-- that the goal's own strength rules out.
pub contract_admits-MayAdmit :
    (strength : String) (declared : Json) {admitted : OutcomeSet} (o : Outcome)
    → contract_admits strength declared ≡ ok admitted
    → admitted o ≡ true
    → MayAdmit strength o
unfolding contract_admits
contract_admits-MayAdmit strength null o h a =
    default_admits-MayAdmit strength o (ap (λ (s : OutcomeSet). s o) (ok-injective h) ∙ a)
contract_admits-MayAdmit strength (arr xs) o h a = elim (Option-cases (strings_of xs)) [
  | inl bad ↦ ground arith
  | inr (ns, e) ↦ admits_list-MayAdmit strength ns o (rw e at h) a
]
contract_admits-MayAdmit strength _ o h a = cc
