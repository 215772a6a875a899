-- ===== src/Fingerprints/Components/Measure.antt =====
-- The turns that are left to `components` of scripts/semantic-fingerprints.py.
use air2lean.Base.{
  ℕ, suc, ◌+◌, ◌≤◌, ◌≡◌, sym, ap, ◌∙◌, String, true, false, List, [], ◌∷◌, ◌++◌, str_eq, eq_iff,
  if◌then◌else◌, length, sum_of, arith, Bool-cases, inl, inr,
}
use air2lean.Json.{listed}
use air2lean.Diff.Config.{has_key}
use air2lean.Fingerprints.Components.{Frame, Tarjan, enter, close, inherit, meet, step}
use air2lean.Fingerprints.Components.Step.{Known, has_key-append}

-- The turns for the frames.
unfoldable pub waiting : List Frame → ℕ
waiting work = sum_of (λ f. suc (length f.1)) work

module _ (edges : String → List String) where
  -- The turns for the nodes that have no index.
  unfoldable pub unseen : List String → List (String × ℕ) → ℕ
  unseen ns d = sum_of (λ n. if has_key n d then 0 else suc (length (edges n))) ns

  pub unseen-append :
      (k : String) (n : ℕ) (d : List (String × ℕ)) (ns : List String)
      → unseen ns (d ++ (k, n) ∷ []) ≤ unseen ns d
  unfolding unseen
  unseen-append k n d [] = ground arith
  unseen-append k n d (m ∷ ns) = ground (arith, unseen-append k n d ns, has_key-append m k n d)

  -- A node that is met for the first time pays for its edges.
  pub unseen_less :
      (k : String) (n : ℕ) (d : List (String × ℕ)) (ns : List String)
      → has_key k d ≡ false
      → listed k ns ≡ true
      → unseen ns (d ++ (k, n) ∷ []) + suc (length (edges k)) ≤ unseen ns d
  unfolding unseen listed
  unseen_less k n d [] new h = cc
  unseen_less k n d (m ∷ ns) new h = elim (Bool-cases (str_eq m k)) [
    | inl e ↦
        (let same : m ≡ k = (eq_iff m k).0 e in
          let old : has_key m d ≡ false = ap (λ y. has_key y d) same ∙ new in
          let many : length (edges m) ≡ length (edges k) = ap (λ y. length (edges y)) same in
          ground (
            arith,
            unseen-append k n d ns,
            has_key-append m k n d,
            (eq_iff k m).1 (sym same),
            old,
            many,
          ))
    | inr e ↦
        (let there : listed k ns ≡ true = ground (arith, e, h) in
          ground (arith, unseen_less k n d ns new there, has_key-append m k n d))
  ]

  module _ (nodes : List String) where
    -- Every turn brings the end nearer.
    pub step-unseen :
        (f : Frame) (work : List Frame) (t : Tarjan)
        → Known nodes f.1
        → suc (unseen nodes (step edges f work t).1.index + waiting (step edges f work t).0)
          ≤ unseen nodes t.index + waiting (f ∷ work)
    unfolding step close inherit meet enter waiting
    step-unseen (node, []) [] t k = ground arith
    step-unseen (node, []) (g ∷ work) t k = ground arith
    step-unseen (node, child ∷ children) work t k =
        ground (arith, unseen_less child (length t.index) t.index nodes, k.0)

    pub step-fewer :
        (f : Frame) (work : List Frame) (t : Tarjan)
        → unseen nodes (step edges f work t).1.index ≤ unseen nodes t.index
    unfolding step close inherit meet enter
    step-fewer (node, []) [] t = ground arith
    step-fewer (node, []) (g ∷ work) t = ground arith
    step-fewer (node, child ∷ children) work t =
        ground (arith, unseen-append child (length t.index) t.index nodes)

    pub step-has_key :
        (x : String) (f : Frame) (work : List Frame) (t : Tarjan)
        → has_key x t.index ≡ true
        → has_key x (step edges f work t).1.index ≡ true
    unfolding step close inherit meet enter
    step-has_key x (node, []) [] t h = ground (arith, h)
    step-has_key x (node, []) (g ∷ work) t h = ground (arith, h)
    step-has_key x (node, child ∷ children) work t h =
        ground (arith, h, has_key-append x child (length t.index) t.index)
