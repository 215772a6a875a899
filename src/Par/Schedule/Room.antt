-- ===== src/Par/Schedule/Room.antt =====
-- The bounds that the schedule of scripts/par.py keeps: workers, memory, and bypasses.
use mathlib.Core.Path.{subst}
use air2lean.Base.{
  ℕ, ◌+◌, ◌<◌, ◌≤◌, ◌≡◌, refl, ap, Option, some, Bool, true, false, List, [], ◌∷◌, if-both, ltb,
  ltb→lt, if◌then◌else◌, length, length-append, sum_of, sum_of-append, arith, Bool-cases, inl, inr,
  is_empty, is_empty→eq, ◌⊎◌,
}
use air2lean.Par.Schedule.{
  Config, State, first_of, is_first, fits, first_fit, run, written, next, launched, refused, start,
  take, has_room, finish, initial,
}
use air2lean.Par.Schedule.Steps.{run-keeps}
use air2lean.Par.Schedule.Counts.{occurs, sum_of-remove, length-remove}

pub first_fit-eq-some :
    (c : Config) (s : State) (is : List ℕ) (i : ℕ)
    → first_fit c s is ≡ some i
    → (fits c s i ≡ true) × (0 < occurs i is)
unfolding first_fit
first_fit-eq-some c s [] i h = cc
first_fit-eq-some c s (j ∷ is) i h = elim (Bool-cases (fits c s j)) [
  | inl e ↦
      (let same_job : j ≡ i = ground arith in
        (subst (λ k. fits c s k ≡ true) same_job e, ground (arith, same_job)))
  | inr e ↦
      (let rest = first_fit-eq-some c s is i (ground arith) in (rest.0, ground (arith, rest.1)))
]

first_of-occurs :
    (i : ℕ) (is : List ℕ) → 0 < occurs i (first_of is) → (0 < occurs i is) × (is_first i is ≡ true)
unfolding first_of is_first
first_of-occurs i [] h = absurd (omega arith)
first_of-occurs i (j ∷ is) h = ground arith

pub next-eq-some :
    (c : Config) (s : State) (i : ℕ)
    → next c s ≡ some i
    → (fits c s i ≡ true)
      × (0 < occurs i s.pending)
      × (ltb s.bypassed c.max_workers ≡ false → is_first i s.pending ≡ true)
unfolding next
next-eq-some c s i h = elim (Bool-cases (ltb s.bypassed c.max_workers)) [
  | inl e ↦
      (let found = first_fit-eq-some c s s.pending i (ground arith) in
        (found.0, found.1, λ never. ground arith))
  | inr e ↦
      (let found = first_fit-eq-some c s (first_of s.pending) i (ground arith) in
        let first = first_of-occurs i s.pending found.1 in (found.0, first.0, λ _. first.1))
]

-- The running jobs are at most `max_workers`, `reserved` is what they request, which is within the
-- budget unless there is only one, and at most `max_workers` jobs passed the first one.
abbrev pub KeepsRoom : Config → State → Type 0
KeepsRoom c s =
    (length s.running ≤ c.max_workers)
    × (s.reserved ≡ sum_of c.mem_mib s.running)
    × ((b : ℕ) → c.mem_budget ≡ some b → (s.reserved ≤ b) ⊎ (length s.running ≤ 1))
    × (s.bypassed ≤ c.max_workers)

fits-budget :
    (c : Config) (s : State) (i b : ℕ)
    → fits c s i ≡ true
    → c.mem_budget ≡ some b
    → (s.reserved + c.mem_mib i ≤ b) ⊎ (length s.running ≡ 0)
unfolding fits
fits-budget c s i b h e = elim (Bool-cases (is_empty s.running)) [
  | inl n ↦ inr (ap length (is_empty→eq s.running n))
  | inr n ↦ inl (ground arith)
]

bypass_bound :
    (bypassed workers : ℕ) (first : Bool)
    → bypassed ≤ workers
    → (ltb bypassed workers ≡ false → first ≡ true)
    → (if first then 0 else bypassed + 1) ≤ workers
bypass_bound bypassed workers true h turn = omega arith
bypass_bound bypassed workers false h turn = elim (Bool-cases (ltb bypassed workers)) [
  | inl e ↦ (let less = ltb→lt bypassed workers e in omega arith)
  | inr e ↦ (let never = turn e in cc)
]

launched-KeepsRoom :
    (c : Config) (s : State) (i : ℕ)
    → has_room c s ≡ true
    → next c s ≡ some i
    → KeepsRoom c s
    → KeepsRoom c (launched c i (take c i s))
unfolding launched take
launched-KeepsRoom c s i room chosen (workers, sum, budget, bypass) =
    (let (fit, _, first) = next-eq-some c s i chosen in
      let longer = length-append s.running (i ∷ []) in
      let more = sum_of-append c.mem_mib s.running (i ∷ []) in
      (
        ground (arith, longer),
        omega (arith, sum, more),
        λ b e. elim (fits-budget c s i b fit e) [
          | inl h ↦ inl h
          | inr h ↦ inr (omega (arith, longer))
        ],
        bypass_bound s.bypassed c.max_workers (is_first i s.pending) bypass first,
      ))

refused-KeepsRoom :
    (c : Config) (s : State) (i : ℕ)
    → next c s ≡ some i
    → KeepsRoom c s
    → KeepsRoom c (refused c i (take c i s))
unfolding refused take
refused-KeepsRoom c s i chosen (workers, sum, budget, bypass) =
    (let (_, _, first) = next-eq-some c s i chosen in
      (
        workers,
        sum,
        budget,
        bypass_bound s.bypassed c.max_workers (is_first i s.pending) bypass first,
      ))

start-KeepsRoom :
    (c : Config) (s : State) (i : ℕ)
    → has_room c s ≡ true
    → next c s ≡ some i
    → KeepsRoom c s
    → KeepsRoom c (start c i (take c i s))
unfolding start
start-KeepsRoom c s i room chosen keeps =
    if-both (KeepsRoom c) (c.can_start i) (λ _. launched-KeepsRoom c s i room chosen keeps)
      (λ _. refused-KeepsRoom c s i chosen keeps)

finish-KeepsRoom :
    (c : Config) (s : State) (i code : ℕ)
    → 0 < occurs i s.running
    → KeepsRoom c s
    → KeepsRoom c (finish c i code s)
unfolding finish
finish-KeepsRoom c s i code runs (workers, sum, budget, bypass) =
    (let shorter = length-remove i s.running runs in
      let less = sum_of-remove c.mem_mib i s.running runs in
      (
        omega arith,
        omega arith,
        λ b e. elim (budget b e) [ inl h ↦ inl (omega arith) | inr h ↦ inr (omega arith) ],
        bypass,
      ))

-- Whatever happens to the jobs, the run keeps its bounds from the start on: the running jobs are at
-- most `max_workers`, the reserved memory is what they request and is within the budget unless at
-- most one job runs, and at most `max_workers` jobs have passed the first pending one.
pub run-KeepsRoom :
    (c : Config) (order : List ℕ) (events : List (ℕ → Option ℕ))
    → KeepsRoom c (run c events (initial order))
unfolding initial written
run-KeepsRoom c order events =
    run-keeps c (KeepsRoom c) (start-KeepsRoom c) (λ s code _ _ h. h) (finish-KeepsRoom c) events
      (initial order) (omega arith, refl, λ b e. inl (omega arith), omega arith)
