-- ===== src/Par/Exit.antt =====
-- The exit status of scripts/par.py.
use air2lean.Base.{
  ℕ, ◌≡◌, ◌↔◌, refl, none, List, [], ◌∷◌, ◌==◌, ==_iff, All, arith, Bool-cases, inl, inr,
}
use air2lean.Par.{first_failed, exit_status}

succeeded : (statuses : List ℕ) → first_failed statuses ≡ 0 → All (λ c. c ≡ 0) statuses
unfolding first_failed
succeeded [] h = tt
succeeded (c ∷ cs) h = elim (Bool-cases (c == 0)) [
  | inl e ↦ ((==_iff c 0).0 e, succeeded cs (ground (arith, h, e)))
  | inr e ↦ absurd (ground (arith, h, e))
]

none_failed : (statuses : List ℕ) → All (λ c. c ≡ 0) statuses → first_failed statuses ≡ 0
unfolding first_failed
none_failed [] all = refl
none_failed (c ∷ cs) (zero_status, all) = ground (arith, zero_status, none_failed cs all)

-- Where no signal stopped the run, the program exits with 0 exactly when every job did.
pub exit_status-zero_iff :
    (statuses : List ℕ) → (exit_status none statuses ≡ 0) ↔ All (λ c. c ≡ 0) statuses
unfolding exit_status
exit_status-zero_iff statuses = (succeeded statuses, none_failed statuses)
