-- ===== src/Par/Schedule/Passes.antt =====
-- One pass of the loop of scripts/par.py: the jobs that end, and those that are written.
use air2lean.Base.{
  ℕ, zero, suc, ◌+◌, ◌<◌, ◌≤◌, ◌≡◌, refl, ap, ◌∙◌, sym, inl, inr, Option, none, some, Bool, true,
  false, List, [], ◌∷◌, ltb, ◌==◌, ==-refl, as_count, length, arith, Bool-cases,
}
use air2lean.Par.Schedule.{
  Config, State, remove, lookup, drop_entry, fill, written, advance, finish, finish_all, round,
}
use air2lean.Par.Schedule.Counts.{occurs, entries, sum_of-remove}
use air2lean.Par.Schedule.Once.{EachOnce, none_left, head-jobs, written-EachOnce}

-- Every job that runs ends in the pass.
abbrev pub AllEnd : (ℕ → Option ℕ) → Type 0
AllEnd ended = (i : ℕ) → (code : ℕ) × (ended i ≡ some code)

-- Taking the ended jobs off the running ones leaves the others.
finish_all-running :
    (c : Config) (ended : ℕ → Option ℕ) (is : List ℕ) (s : State)
    → AllEnd ended
    → ((i : ℕ) → occurs i is ≤ occurs i s.running)
    → (k : ℕ) → occurs k (finish_all c ended is s).running + occurs k is ≡ occurs k s.running
unfolding finish_all finish
finish_all-running c ended [] s all among k = omega arith
finish_all-running c ended (i ∷ is) s all among k =
    turn (ended i) refl (finish_all-running c ended is)
  where
    runs : 0 < occurs i s.running
    runs = ground (arith, among i, ==-refl i)

    rest : (j : ℕ) → occurs j is ≤ occurs j (remove i s.running)
    rest j = omega (arith, among j, sum_of-remove (λ n. as_count (n == j)) i s.running runs)

    turn :
        (o : Option ℕ)
        → ended i ≡ o
        → ((t : State)
            → AllEnd ended
            → ((j : ℕ) → occurs j is ≤ occurs j t.running)
            → (j : ℕ)
            → occurs j (finish_all c ended is t).running + occurs j is ≡ occurs j t.running)
        → occurs k
              (finish_all c ended is (elim o [ none ↦ s | some code ↦ finish c i code s ])).running
            + occurs k (i ∷ is)
          ≡ occurs k s.running
    turn none e later =
        (let (code, found) = all i in
          let never : ◌≡◌ {A = Option ℕ} none (some code) = sym e ∙ found in cc)
    turn (some code) e later = omega (
      arith,
      later (finish c i code s) all rest k,
      sum_of-remove (λ n. as_count (n == k)) i s.running runs,
    )

lookup-none : (i : ℕ) (xs : List (ℕ × ℕ)) → lookup i xs ≡ none → entries i xs ≡ 0
unfolding lookup
lookup-none i [] h = refl
lookup-none i ((j, c) ∷ xs) h = elim (Bool-cases (j == i)) [
  | inl e ↦ ground arith
  | inr e ↦ (let rest = lookup-none i xs (ground arith) in ground (arith, rest))
]

length-drop_entry :
    (i code : ℕ) (xs : List (ℕ × ℕ))
    → lookup i xs ≡ some code
    → suc (length (drop_entry i xs)) ≡ length xs
unfolding lookup drop_entry
length-drop_entry i code [] h = cc
length-drop_entry i code ((j, c) ∷ xs) h = elim (Bool-cases (j == i)) [
  | inl e ↦ ground arith
  | inr e ↦ (let rest = length-drop_entry i code xs (ground arith) in ground (arith, rest))
]

-- Neither pending nor running.
abbrev pub Quiet : State → Type 0
Quiet s = (length s.pending ≡ 0) × (length s.running ≡ 0)

pub no_occurrence : (i : ℕ) (xs : List ℕ) → length xs ≡ 0 → occurs i xs ≡ 0
no_occurrence i [] h = refl
no_occurrence i (x ∷ xs) h = absurd (omega arith)

-- Then the job at the head has finished.
head-finished :
    (c : Config) (s : State)
    → EachOnce c s
    → Quiet s
    → ltb s.head c.jobs ≡ true
    → entries s.head s.finished ≡ 1
head-finished c s (once, done) (none_pend, none_run) left = ground (
  arith,
  once s.head,
  no_occurrence s.head s.pending none_pend,
  no_occurrence s.head s.running none_run,
)

no_entry : (i : ℕ) (xs : List (ℕ × ℕ)) → length xs ≡ 0 → entries i xs ≡ 0
no_entry i [] h = refl
no_entry i (x ∷ xs) h = absurd (omega arith)

pub advance-jobs :
    (c : Config) (fuel : ℕ) (s : State)
    → EachOnce c s
    → Quiet s
    → length s.finished ≤ fuel
    → (advance c fuel s).head ≡ c.jobs
unfolding advance
advance-jobs c zero s once quiet enough = elim (Bool-cases (ltb s.head c.jobs)) [
  | inr e ↦ head-jobs c s once e
  | inl e ↦
      absurd
        (omega (arith, head-finished c s once quiet e, no_entry s.head s.finished (omega arith)))
]
advance-jobs c (suc fuel) s once quiet enough =
    turn (ltb s.head c.jobs) refl (lookup s.head s.finished) refl (λ code e n.
      advance-jobs c fuel (written code s) (written-EachOnce c s code e n once) quiet
        (omega (arith, enough, length-drop_entry s.head code s.finished n)))
  where
    turn :
        (b : Bool)
        → ltb s.head c.jobs ≡ b
        → (o : Option ℕ) → lookup s.head s.finished ≡ o
        → ((code : ℕ)
            → ltb s.head c.jobs ≡ true
            → lookup s.head s.finished ≡ some code
            → (advance c fuel (written code s)).head ≡ c.jobs)
        → (elim b as (λ _. State) [
          | false ↦ s
          | true ↦ elim o [ none ↦ s | some code ↦ advance c fuel (written code s) ]
        ]).head
          ≡ c.jobs
    turn false e o n later = head-jobs c s once e
    turn true e none n later =
        absurd (omega (arith, head-finished c s once quiet e, lookup-none s.head s.finished n))
    turn true e (some code) n later = later code e n

no_job : (xs : List ℕ) → ((i : ℕ) → occurs i xs ≡ 0) → length xs ≡ 0
no_job xs h = ap length (none_left xs h)

-- A pass in which every running job ends leaves none running.
pub round-idle :
    (c : Config) (ended : ℕ → Option ℕ) (s : State)
    → AllEnd ended
    → length (round c ended s).running ≡ 0
unfolding round
round-idle c ended s all =
    (let filled = fill c (length s.pending) s in
      let t = advance c (length filled.finished) filled in
      no_job (finish_all c ended t.running t).running
        (λ k. omega (arith, finish_all-running c ended t.running t all (λ i. omega arith) k)))
