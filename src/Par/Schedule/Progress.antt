-- ===== src/Par/Schedule/Progress.antt =====
-- The loops of scripts/par.py come to an end, and the whole run does when the jobs do.
use air2lean.Base.{
  ℕ, zero, suc, ◌<◌, ◌≤◌, ◌≡◌, refl, ap, ◌⊎◌, inl, inr, Option, none, some, Bool, true, false, List,
  [], ◌∷◌, ltb, if-both, length, arith, is_empty, is_empty→eq, Bool-cases, Option-cases,
}
use air2lean.Par.Schedule.{
  Config, State, has_room, fits, first_fit, first_of, next, take, launched, refused, start, fill,
}
use air2lean.Par.Schedule.Counts.{length-remove}
use air2lean.Par.Schedule.Room.{next-eq-some}

fits-alone : (c : Config) (s : State) (i : ℕ) → is_empty s.running ≡ true → fits c s i ≡ true
unfolding fits
fits-alone c s i alone = elim (Option-cases c.mem_budget) [
  | inl e ↦ ground arith
  | inr (b, e) ↦ ground arith
]

first_fit-alone :
    (c : Config) (s : State) (is : List ℕ)
    → is_empty s.running ≡ true
    → first_fit c s is ≡ none
    → is ≡ []
unfolding first_fit
first_fit-alone c s [] alone h = refl
first_fit-alone c s (i ∷ is) alone h = (let fit = fits-alone c s i alone in ground (arith, fit))

first_of-empty : (is : List ℕ) → first_of is ≡ [] → is ≡ []
unfolding first_of
first_of-empty [] h = refl
first_of-empty (i ∷ is) h = cc

-- A job that runs alone fits, so that one is chosen when none runs.
pub next-alone :
    (c : Config) (s : State) → is_empty s.running ≡ true → next c s ≡ none → s.pending ≡ []
unfolding next
next-alone c s alone h = elim (Bool-cases (ltb s.bypassed c.max_workers)) [
  | inl e ↦ first_fit-alone c s s.pending alone (ground arith)
  | inr e ↦ first_of-empty s.pending (first_fit-alone c s (first_of s.pending) alone (ground arith))
]

-- No job can start.
abbrev Settled : Config → State → Type 0
Settled c s = (has_room c s ≡ false) ⊎ (next c s ≡ none)

pub start-pending :
    (c : Config) (s : State) (i : ℕ)
    → next c s ≡ some i
    → suc (length (start c i (take c i s)).pending) ≡ length s.pending
unfolding start launched refused take
start-pending c s i chosen =
    (let (_, waits, _) = next-eq-some c s i chosen in
      if-both {A = State} (λ t. suc (length t.pending) ≡ length s.pending) (c.can_start i)
        (λ _. length-remove i s.pending waits) (λ _. length-remove i s.pending waits))

fill-Settled :
    (c : Config) (fuel : ℕ) (s : State) → length s.pending ≤ fuel → Settled c (fill c fuel s)
unfolding fill
fill-Settled c zero s enough = inl (ground arith)
fill-Settled c (suc fuel) s enough =
    turn (has_room c s) refl (next c s) refl
      (λ i n. fill-Settled c fuel _ (omega (arith, enough, start-pending c s i n)))
  where
    turn :
        (b : Bool)
        → has_room c s ≡ b
        → (o : Option ℕ) → next c s ≡ o
        → ((i : ℕ) → next c s ≡ some i → Settled c (fill c fuel (start c i (take c i s))))
        → Settled c (elim b [
          | false ↦ s
          | true ↦ elim o [ none ↦ s | some i ↦ fill c fuel (start c i (take c i s)) ]
        ])
    turn false e o n later = inl e
    turn true e none n later = inr n
    turn true e (some i) n later = later i n

Settled-busy :
    (c : Config) (s : State) → 0 < c.max_workers → Settled c s → s.running ≡ [] → s.pending ≡ []
Settled-busy c s workers (inl full) idle =
    (let none_run : length s.running ≡ 0 = ap length idle in
      is_empty→eq s.pending (ground (arith, none_run)))
Settled-busy c s workers (inr stuck) idle = next-alone c s (ap is_empty idle) stuck

-- With at least one worker, when no job runs after the loop that starts jobs, none is pending.
pub fill-busy :
    (c : Config) (s : State)
    → 0 < c.max_workers
    → (fill c (length s.pending) s).running ≡ []
    → (fill c (length s.pending) s).pending ≡ []
fill-busy c s workers idle =
    Settled-busy c (fill c (length s.pending) s) workers
      (fill-Settled c (length s.pending) s (omega arith)) idle
