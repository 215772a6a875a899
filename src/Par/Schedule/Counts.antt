-- ===== src/Par/Schedule/Counts.antt =====
-- How often an index stands in the lists of the schedule of scripts/par.py.
use air2lean.Base.{
  ℕ, suc, ◌+◌, ◌<◌, ◌≡◌, ap, ◌∙◌, some, List, [], ◌∷◌, ◌==◌, ==_iff, ltb, length, as_count, sum_of,
  arith, Bool-cases, inl, inr,
}
use air2lean.Par.Schedule.{remove, lookup, drop_entry, State}

-- How often `i` occurs.
abbrev pub occurs : ℕ → List ℕ → ℕ
occurs i xs = sum_of (λ j. as_count (j == i)) xs

abbrev pub entries : ℕ → List (ℕ × ℕ) → ℕ
entries i xs = sum_of (λ e. as_count (e.0 == i)) xs

-- The jobs at every stage that are `i`.
abbrev pub stages : ℕ → State → ℕ
stages i s =
    occurs i s.pending + occurs i s.running + entries i s.finished + as_count (ltb i s.head)

-- Removing an element takes its part off a sum.
pub sum_of-remove :
    (f : ℕ → ℕ) (i : ℕ) (xs : List ℕ) → 0 < occurs i xs → sum_of f (remove i xs) + f i ≡ sum_of f xs
unfolding remove
sum_of-remove f i [] h = omega arith
sum_of-remove f i (x ∷ xs) h = elim (Bool-cases (x == i)) [
  | inl e ↦ (let at : f x ≡ f i = ap f ((==_iff x i).0 e) in ground (arith, at))
  | inr e ↦ (let rest = sum_of-remove f i xs (ground arith) in ground (arith, rest))
]

pub length-remove : (i : ℕ) (xs : List ℕ) → 0 < occurs i xs → suc (length (remove i xs)) ≡ length xs
unfolding remove
length-remove i [] h = omega arith
length-remove i (x ∷ xs) h = elim (Bool-cases (x == i)) [
  | inl e ↦ ground arith
  | inr e ↦ (let rest = length-remove i xs (ground arith) in ground (arith, rest))
]

pub sum_of-drop_entry :
    (f : ℕ × ℕ → ℕ) (i code : ℕ) (xs : List (ℕ × ℕ))
    → lookup i xs ≡ some code
    → sum_of f (drop_entry i xs) + f (i, code) ≡ sum_of f xs
unfolding lookup drop_entry
sum_of-drop_entry f i code [] h = cc
sum_of-drop_entry f i code ((j, c) ∷ xs) h = elim (Bool-cases (j == i)) [
  | inl e ↦
      (let same_code : c ≡ code = ground arith in
        let at : f (j, c) ≡ f (i, code) =
          ap (λ k. f (k, c)) ((==_iff j i).0 e) ∙ ap (λ k. f (i, k)) same_code in
        ground (arith, at))
  | inr e ↦ (let rest = sum_of-drop_entry f i code xs (ground arith) in ground (arith, rest))
]
