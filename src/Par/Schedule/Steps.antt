-- ===== src/Par/Schedule/Steps.antt =====
-- What the loops of the schedule of scripts/par.py keep, when each of their turns keeps it.
use air2lean.Base.{
  ℕ, length, zero, suc, ◌<◌, ◌≤◌, ◌≡◌, refl, Option, none, some, Bool, true, false, List, [], ◌∷◌,
  ltb, ◌==◌, ==-refl, as_count, arith,
}
use air2lean.Par.Schedule.{
  Config, State, has_room, next, take, start, fill, lookup, written, advance, finish, finish_all,
  remove, round, run,
}
use air2lean.Par.Schedule.Counts.{occurs, sum_of-remove}

module _ {ℓ} (c : Config) (P : State → Type ℓ) where
  pub fill-keeps :
      ((s : State) (i : ℕ)
        → has_room c s ≡ true
        → next c s ≡ some i
        → P s
        → P (start c i (take c i s)))
      → (fuel : ℕ) (s : State) → P s
      → P (fill c fuel s)
  unfolding fill
  fill-keeps each zero s keeps = keeps
  fill-keeps each (suc fuel) s keeps =
      turn (has_room c s) refl (next c s) refl
        (λ i e n. fill-keeps each fuel _ (each s i e n keeps))
    where
      turn :
          (b : Bool)
          → has_room c s ≡ b
          → (o : Option ℕ) → next c s ≡ o
          → ((i : ℕ)
              → has_room c s ≡ true
              → next c s ≡ some i
              → P (fill c fuel (start c i (take c i s))))
          → P (elim b [
            | false ↦ s
            | true ↦ elim o [ none ↦ s | some i ↦ fill c fuel (start c i (take c i s)) ]
          ])
      turn false e o n later = keeps
      turn true e none n later = keeps
      turn true e (some i) n later = later i e n

  pub advance-keeps :
      ((s : State) (code : ℕ)
        → ltb s.head c.jobs ≡ true
        → lookup s.head s.finished ≡ some code
        → P s
        → P (written code s))
      → (fuel : ℕ) (s : State) → P s
      → P (advance c fuel s)
  unfolding advance
  advance-keeps each zero s keeps = keeps
  advance-keeps each (suc fuel) s keeps =
      turn (ltb s.head c.jobs) refl (lookup s.head s.finished) refl
        (λ code e n. advance-keeps each fuel _ (each s code e n keeps))
    where
      turn :
          (b : Bool)
          → ltb s.head c.jobs ≡ b
          → (o : Option ℕ) → lookup s.head s.finished ≡ o
          → ((code : ℕ)
              → ltb s.head c.jobs ≡ true
              → lookup s.head s.finished ≡ some code
              → P (advance c fuel (written code s)))
          → P (elim b [
            | false ↦ s
            | true ↦ elim o [ none ↦ s | some code ↦ advance c fuel (written code s) ]
          ])
      turn false e o n later = keeps
      turn true e none n later = keeps
      turn true e (some code) n later = later code e n

  pub finish_all-keeps :
      ((s : State) (i code : ℕ) → 0 < occurs i s.running → P s → P (finish c i code s))
      → (ended : ℕ → Option ℕ) (is : List ℕ) (s : State)
      → ((i : ℕ) → occurs i is ≤ occurs i s.running)
      → P s
      → P (finish_all c ended is s)
  unfolding finish_all finish
  finish_all-keeps each ended [] s among keeps = keeps
  finish_all-keeps each ended (i ∷ is) s among keeps =
      turn (ended i) (finish_all-keeps each ended is)
    where
      runs : 0 < occurs i s.running
      runs = ground (arith, among i, ==-refl i)

      rest : (k : ℕ) → occurs k is ≤ occurs k (remove i s.running)
      rest k = omega (arith, among k, sum_of-remove (λ j. as_count (j == k)) i s.running runs)

      turn :
          (o : Option ℕ)
          → ((t : State)
              → ((k : ℕ) → occurs k is ≤ occurs k t.running)
              → P t
              → P (finish_all c ended is t))
          → P (finish_all c ended is (elim o [ none ↦ s | some code ↦ finish c i code s ]))
      turn none later = later s (λ k. omega (arith, among k)) keeps
      turn (some code) later = later (finish c i code s) rest (each s i code runs keeps)

-- What every turn of the loops keeps, the whole run keeps.
module _ {ℓ} (c : Config) (P : State → Type ℓ)
    (starts : (s : State) (i : ℕ)
      → has_room c s ≡ true
      → next c s ≡ some i
      → P s
      → P (start c i (take c i s)))
    (writes : (s : State) (code : ℕ)
      → ltb s.head c.jobs ≡ true
      → lookup s.head s.finished ≡ some code
      → P s
      → P (written code s))
    (finishes : (s : State) (i code : ℕ)
      → 0 < occurs i s.running
      → P s
      → P (finish c i code s)) where
  pub round-keeps : (ended : ℕ → Option ℕ) (s : State) → P s → P (round c ended s)
  unfolding round
  round-keeps ended s keeps =
      (let filled = fill c (length s.pending) s in
        let t = advance c (length filled.finished) filled in
        finish_all-keeps c P finishes ended t.running t (λ i. omega arith)
          (advance-keeps c P writes (length filled.finished) filled
            (fill-keeps c P starts (length s.pending) s keeps)))

  pub run-keeps : (events : List (ℕ → Option ℕ)) (s : State) → P s → P (run c events s)
  unfolding run
  run-keeps [] s keeps = keeps
  run-keeps (ended ∷ more) s keeps =
      turn (ltb s.head c.jobs) (run-keeps more (round c ended s) (round-keeps ended s keeps))
    where
      turn :
          (b : Bool)
          → P (run c more (round c ended s))
          → P (elim b [ false ↦ s | true ↦ run c more (round c ended s) ])
      turn false later = keeps
      turn true later = later
