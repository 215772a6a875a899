-- ===== src/Par/Schedule/Ends.antt =====
-- The run of scripts/par.py comes to its end when the jobs do.
use air2lean.Base.{
  ℕ, zero, suc, ◌<◌, ◌≤◌, ◌≡◌, refl, ap, inl, inr, Option, none, some, Bool, true, false, List, [],
  ◌∷◌, ltb, ◌==◌, ==_iff, as_count, length, arith, is_empty, Bool-cases, All,
}
use air2lean.Par.Schedule.{
  Config, State, has_room, next, take, start, fill, written, advance, finish, round, run, initial,
}
use air2lean.Par.Schedule.Counts.{occurs}
use air2lean.Par.Schedule.Steps.{fill-keeps, advance-keeps, finish_all-keeps, round-keeps}
use air2lean.Par.Schedule.Once.{
  EachOnce, none_left, head-jobs, start-EachOnce, written-EachOnce, finish-EachOnce, run-EachOnce,
}
use air2lean.Par.Schedule.Passes.{AllEnd, Quiet, advance-jobs, round-idle}
use air2lean.Par.Schedule.Progress.{next-alone, start-pending}

-- What a pass does to the pending jobs, it does in `fill`.
round-pending :
    (c : Config) (ended : ℕ → Option ℕ) (s : State)
    → (round c ended s).pending ≡ (fill c (length s.pending) s).pending
unfolding round written finish
round-pending c ended s =
    (let filled = fill c (length s.pending) s in
      let t = advance c (length filled.finished) filled in
      finish_all-keeps c (λ u. u.pending ≡ filled.pending) (λ u i code _ h. h) ended t.running t
        (λ i. omega arith)
        (advance-keeps c (λ u. u.pending ≡ filled.pending) (λ u code _ _ h. h)
          (length filled.finished) filled refl))

empty_of : (xs : List ℕ) → length xs ≡ 0 → is_empty xs ≡ true
empty_of [] h = refl
empty_of (x ∷ xs) h = absurd (omega arith)

full_of : (xs : List ℕ) → 0 < length xs → is_empty xs ≡ false
full_of [] h = absurd (omega arith)
full_of (x ∷ xs) h = refl

idle-has_room :
    (c : Config) (s : State)
    → 0 < c.max_workers
    → length s.running ≡ 0
    → 0 < length s.pending
    → has_room c s ≡ true
idle-has_room c s workers idle some_left = ground (arith, full_of s.pending some_left)

-- With a worker and none busy, `fill` starts a job if one is pending.
fill-starts :
    (c : Config) (fuel : ℕ) (s : State)
    → 0 < c.max_workers
    → length s.running ≡ 0
    → 0 < length s.pending
    → length s.pending ≤ fuel
    → length (fill c fuel s).pending < length s.pending
unfolding fill
fill-starts c zero s workers idle some_left enough = absurd (omega arith)
fill-starts c (suc fuel) s workers idle some_left enough =
    turn (has_room c s) refl (next c s) refl (λ i n.
      fill-keeps c (λ t. length t.pending ≤ length (start c i (take c i s)).pending)
        (λ t j room chosen keeps. omega (arith, keeps, start-pending c t j chosen)) fuel
        (start c i (take c i s)) (omega arith))
  where
    turn :
        (b : Bool)
        → has_room c s ≡ b
        → (o : Option ℕ) → next c s ≡ o
        → ((i : ℕ)
            → next c s ≡ some i
            → length (fill c fuel (start c i (take c i s))).pending
              ≤ length (start c i (take c i s)).pending)
        → length
            (elim b as (λ _. State) [
              | false ↦ s
              | true ↦ elim o [ none ↦ s | some i ↦ fill c fuel (start c i (take c i s)) ]
            ]).pending
          < length s.pending
    turn false e o n later = (let room = idle-has_room c s workers idle some_left in cc)
    turn true e none n later =
        (let stuck : length s.pending ≡ 0 =
            ap length (next-alone c s (empty_of s.running idle) n) in
          absurd (omega arith))
    turn true e (some i) n later = omega (arith, later i n, start-pending c s i n)

-- With no job pending or running, a pass writes all jobs that are left.
round-head :
    (c : Config) (ended : ℕ → Option ℕ) (s : State)
    → EachOnce c s
    → Quiet s
    → (round c ended s).head ≡ c.jobs
unfolding round finish
round-head c ended s once quiet =
    (let filled = fill c (length s.pending) s in
      let still : Quiet filled =
        fill-keeps c Quiet
          (λ t i room chosen q. absurd (omega (arith, q.0, start-pending c t i chosen)))
          (length s.pending) s quiet in
      let each : EachOnce c filled =
        fill-keeps c (EachOnce c) (start-EachOnce c) (length s.pending) s once in
      let t = advance c (length filled.finished) filled in
      finish_all-keeps c (λ u. u.head ≡ c.jobs) (λ u i code _ h. h) ended t.running t
        (λ i. omega arith)
        (advance-jobs c (length filled.finished) filled each still (omega arith)))

run-stays :
    (c : Config) (events : List (ℕ → Option ℕ)) (s : State)
    → s.head ≡ c.jobs
    → (run c events s).head ≡ c.jobs
unfolding run
run-stays c [] s h = h
run-stays c (ended ∷ more) s h = turn (ltb s.head c.jobs) refl
  where
    turn :
        (b : Bool)
        → ltb s.head c.jobs ≡ b
        → (elim b as (λ _. State) [ false ↦ s | true ↦ run c more (round c ended s) ]).head ≡ c.jobs
    turn false e = h
    turn true e = absurd (ground (arith, h))

run-jobs :
    (c : Config) (events : List (ℕ → Option ℕ)) (s : State)
    → 0 < c.max_workers
    → All AllEnd events
    → EachOnce c s
    → length s.running ≡ 0
    → length s.pending < length events
    → (run c events s).head ≡ c.jobs
unfolding run
run-jobs c [] s workers all once idle enough = absurd (omega arith)
run-jobs c (ended ∷ more) s workers (all, rest) once idle enough = turn (ltb s.head c.jobs) refl (
    run-jobs c more (round c ended s) workers rest
      (round-keeps c (EachOnce c) (start-EachOnce c) (written-EachOnce c) (finish-EachOnce c) ended
        s once)
      (round-idle c ended s all))
  where
    fewer : 0 < length s.pending → length (round c ended s).pending < length more
    fewer some_left =
        (let same_pending : length (round c ended s).pending
              ≡ length (fill c (length s.pending) s).pending =
            ap length (round-pending c ended s) in
          omega (
            arith,
            same_pending,
            enough,
            fill-starts c (length s.pending) s workers idle some_left (omega arith),
          ))

    turn :
        (b : Bool)
        → ltb s.head c.jobs ≡ b
        → (length (round c ended s).pending < length more
            → (run c more (round c ended s)).head ≡ c.jobs)
        → (elim b as (λ _. State) [ false ↦ s | true ↦ run c more (round c ended s) ]).head ≡ c.jobs
    turn false e later = head-jobs c s once e
    turn true e later = elim (Bool-cases (length s.pending == 0)) [
      | inl none_left ↦
          run-stays c more (round c ended s)
            (round-head c ended s once ((==_iff (length s.pending) 0).0 none_left, idle))
      | inr some_left ↦ later (fewer (ground arith))
    ]

-- Started with a permutation of the job indices and with at least one worker, the run has written
-- every job when it was given more passes than there are jobs and each running job ended in each.
pub run-ends :
    (c : Config) (order : List ℕ) (events : List (ℕ → Option ℕ))
    → ((i : ℕ) → occurs i order ≡ as_count (ltb i c.jobs))
    → 0 < c.max_workers
    → All AllEnd events
    → length order < length events
    → (run c events (initial order)).head ≡ c.jobs
unfolding initial run
run-ends c order events permutation workers all enough =
    run-jobs c events (initial order) workers all (run-EachOnce c order [] permutation) refl enough
