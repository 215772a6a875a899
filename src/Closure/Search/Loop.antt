-- ===== src/Closure/Search/Loop.antt =====
-- The loop of the search of scripts/dependency-closure.py: what each pass keeps, holds at its end.
use air2lean.Base.{
  ℕ, zero, suc, String, Option, none, some, List, [], ◌∷◌, ◌≡◌, refl, subst, arith, inl, inr,
  is_empty, is_empty→eq, Bool-cases,
}
use air2lean.Base.Result.{ok, err, ok-injective}
use air2lean.Closure.{Inputs, Scanned}
use air2lean.Closure.State.{State, key_error}
use air2lean.Closure.Search.{function_of, expand, advance, search}

module _ {ℓ} (c : Inputs) (P : State → Type ℓ)
    (pass : (s : State) (caller : String) (rest : List String) (info : Scanned)
      → s.pending ≡ caller ∷ rest
      → function_of c caller ≡ some info
      → P s
      → P (expand c caller info (advance caller rest s))) where
  pub search_rule : (fuel : ℕ) (s t : State) → search c fuel s ≡ ok t → P s → P t × (t.pending ≡ [])
  unfolding search
  search_rule zero s t e h = elim (Bool-cases (is_empty s.pending)) [
    | inl g ↦
        (let same : s ≡ t = ground arith in
          subst (λ u. P u × (u.pending ≡ [])) same (h, is_empty→eq s.pending g))
    | inr g ↦ absurd (ground arith)
  ]
  search_rule (suc fuel) s t e h = turn s.pending refl e (λ u. search_rule fuel u t)
    where
      turn :
          (pending : List String)
          → s.pending ≡ pending
          → (elim pending [
            | [] ↦ ok s
            | caller ∷ rest ↦ elim (function_of c caller) [
              | none ↦ err key_error
              | some info ↦ search c fuel (expand c caller info (advance caller rest s))
            ]
          ])
            ≡ ok t
          → ((u : State) → search c fuel u ≡ ok t → P u → P t × (t.pending ≡ []))
          → P t × (t.pending ≡ [])
      turn [] g k again = subst (λ u. P u × (u.pending ≡ [])) (ok-injective k) (h, g)
      turn (caller ∷ rest) g k again = inner (function_of c caller) refl k
        where
          inner :
              (o : Option Scanned)
              → function_of c caller ≡ o
              → (elim o [
                | none ↦ err key_error
                | some info ↦ search c fuel (expand c caller info (advance caller rest s))
              ])
                ≡ ok t
              → P t × (t.pending ≡ [])
          inner none f k = absurd (ground arith)
          inner (some info) f k =
              again (expand c caller info (advance caller rest s)) k (pass s caller rest info g f h)
