-- ===== src/Closure/Search/Ends.antt =====
-- The search of scripts/dependency-closure.py ends: every pass takes a function off the queue, and each
-- exported function is queued once.
use air2lean.Base.{
  ℕ, zero, suc, ◌+◌, ◌≤◌, String, none, some, true, List, [], ◌∷◌, ◌≡◌, refl, sym, ap, ◌∙◌, arith,
  length, sum_of, eq_iff, is_empty,
}
use air2lean.Base.Result.{Result, ok, err}
use air2lean.Json.{listed}
use air2lean.Closure.{Inputs, exported, is_exported, Scanned}
use air2lean.Closure.State.{State, Failure, class_of, key_error}
use air2lean.Closure.Search.{function_of, expand, advance, search}
use air2lean.Closure.Search.Reaches.{Searching, expand-Searching}
use air2lean.Closure.Search.Work.{work, is_new, classify-exported, expand-work}

-- An exported name has scanned AIR.
pub exported-known :
    (c : Inputs) (roots : List String) (s : State)
    → Searching c roots s
    → (j : String) → class_of j s ≡ some exported
    → (info : Scanned) × (function_of c j ≡ some info)
exported-known c roots s h j x =
    let (panic, e) = h.judged j exported x in classify-exported c j panic (ap is_exported (sym e))

module _ (c : Inputs) (stable : (name : String) → c.key (c.key name) ≡ c.key name) where
  -- With fuel for the work that is left the search ends, and it finds every function that it looks up.
  pub search-returns :
      (roots : List String) (fuel : ℕ) (s : State)
      → Searching c roots s
      → work c s ≤ fuel
      → (t : State) × (search c fuel s ≡ ok t)
  unfolding search advance class_of listed
  search-returns roots zero s h enough = (s, ground (arith, empty s.pending (omega arith)))
    where
      empty : (xs : List String) → length xs ≡ 0 → is_empty xs ≡ true
      empty [] h = refl
      empty (x ∷ xs) h = absurd (omega arith)
  search-returns roots (suc fuel) s h enough =
      turn s.pending refl (λ u. search-returns roots fuel u)
    where
      turn :
          (pending : List String)
          → s.pending ≡ pending
          → ((u : State)
              → Searching c roots u
              → work c u ≤ fuel
              → (t : State) × (search c fuel u ≡ ok t))
          → (t : State) × ((elim pending [
            | [] ↦ ok s
            | caller ∷ rest ↦ elim (function_of c caller) [
              | none ↦ err key_error
              | some info ↦ search c fuel (expand c caller info (advance caller rest s))
            ]
          ])
              ≡ ok t)
      turn [] e again = (s, refl)
      turn (caller ∷ rest) e again =
          let (info, f) = exported-known c roots s h caller (h.queued caller (first e)) in
          let (t, k) =
            again (expand c caller info (advance caller rest s))
              (expand-Searching c roots s caller rest info e f h)
              (omega (
                arith,
                enough,
                ap length e,
                expand-work c stable caller info (advance caller rest s),
                shorter,
              )) in
          (
            t,
            ap
                  (λ o. elim o as (λ _. Result Failure State) [
                    | none ↦ err key_error
                    | some other ↦ search c fuel (expand c caller other (advance caller rest s))
                  ])
                  f
                ∙ k,
          )
        where
          first : s.pending ≡ caller ∷ rest → listed caller s.pending ≡ true
          first e = ground (arith, ap (listed caller) e, eq_iff caller caller)

          shorter :
              work c (advance caller rest s)
              ≡ length rest + sum_of (λ f. is_new (class_of f.0 s)) c.functions
          shorter = refl
