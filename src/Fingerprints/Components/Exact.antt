-- ===== src/Fingerprints/Components/Exact.antt =====
-- The components that `components` of scripts/semantic-fingerprints.py finds are the classes of nodes that
-- reach each other, those of callees first.
use air2lean.Base.{
  ℕ, zero, suc, ◌≤◌, ◌<◌, ◌≡◌, refl, sym, ap, String, true, false, List, [], ◌∷◌, ◌↔◌, some,
  Option-cases, eq_iff, length, as_count, arith, Bool-cases, inl, inr, subst,
}
use air2lean.Json.{listed}
use air2lean.Diff.Config.{has_key}
use air2lean.Fingerprints.Components.{
  Frame, Tarjan, enter, step, loop, turns, search, fresh, components,
}
use air2lean.Fingerprints.Components.Stack.{count}
use air2lean.Fingerprints.Components.Step.{names, Known, Placed, placed, Searching}
use air2lean.Fingerprints.Components.Leave.{step-Searching}
use air2lean.Fingerprints.Components.Once.{All-listed, listed_all, components_once, root-Searching}
use air2lean.Fingerprints.Components.Reach.{
  Reaches, stay, hop, rank, placed-rank, together, together-rank, rank-together,
}
use air2lean.Fingerprints.Components.Linked.{Linked}
use air2lean.Fingerprints.Components.Linked.Push.{push-Linked}
use air2lean.Fingerprints.Components.Linked.Turns.{waits, step-Linked}

module _ (edges : String → List String) (nodes : List String)
    (inside : (n : String) → listed n nodes ≡ true → Known nodes (edges n)) where
  -- Between two searches.
  record Idle (t : Tarjan) : Type 0 where
    pub is_placed : Placed nodes t
    pub empty : t.stack ≡ []
    pub linked : Linked edges [] (waits []) t

  loop-Idle :
      (root : String) (base fuel : ℕ) (work : List Frame) (t u : Tarjan)
      → Searching nodes root base work t
      → Linked edges (names work) (waits work) t
      → loop edges fuel work t ≡ some u
      → Idle u
  unfolding loop
  loop-Idle root base fuel [] t u s l h =
      (let same : t ≡ u = cc in
        subst Idle same (record { is_placed = s.is_placed; empty = s.based; linked = l }))
  loop-Idle root base zero (f ∷ work) t u s l h = absurd cc
  loop-Idle root base (suc fuel) (f ∷ work) t u s l h =
      loop-Idle root base fuel (step edges f work t).0 (step edges f work t).1 u
        (step-Searching nodes root base edges inside f work t s)
        (step-Linked edges nodes root base t f work s l) h

  root-Linked :
      (root : String) (t : Tarjan)
      → has_key root t.index ≡ false
      → Idle t
      → Linked edges (root ∷ []) (waits ((root, edges root) ∷ [])) (enter root t)
  unfolding waits listed
  root-Linked root t new i =
      push-Linked root t new nodes i.is_placed edges [] (waits []) (waits ((root, edges root) ∷ []))
        i.linked (λ x y _ _ _. inl refl)
        (λ x y w.
          subst (λ z. listed y (edges z) ≡ true) ((eq_iff root x).0 (ground (arith, w)))
            (ground (arith, w)))
        (λ y e. ground (arith, e, (eq_iff root root).1 refl)) (λ x h. absurd cc) (λ x h. absurd cc)

  found_next :
      (fuel : ℕ) (root : String) (roots : List String) (t v u : Tarjan)
      → has_key root t.index ≡ false
      → loop edges fuel ((root, edges root) ∷ []) (enter root t) ≡ some v
      → search edges fuel (root ∷ roots) t ≡ some u
      → search edges fuel roots v ≡ some u
  unfolding search
  found_next fuel root roots t v u new ends h = ground (arith, new, ends, h)

  search-Idle :
      (fuel : ℕ) (roots : List String) (t u : Tarjan)
      → Known nodes roots
      → Idle t
      → search edges fuel roots t ≡ some u
      → Idle u
  unfolding search
  search-Idle fuel [] t u k i h = (let same : t ≡ u = cc in subst Idle same i)
  search-Idle fuel (root ∷ roots) t u (given, k) i h = elim (Bool-cases (has_key root t.index)) [
    | inl old ↦ search-Idle fuel roots t u k i (ground (arith, old, h))
    | inr new ↦ elim (Option-cases (loop edges fuel ((root, edges root) ∷ []) (enter root t))) [
      | inl never ↦ absurd (ground (arith, new, never, h))
      | inr (v, ends) ↦
          search-Idle fuel roots v u k
            (loop-Idle root (length t.index) fuel ((root, edges root) ∷ []) (enter root t) v
              (root-Searching edges nodes inside root t given new i.is_placed i.empty)
              (root-Linked root t new i) ends)
            (found_next fuel root roots t v u new ends h)
    ]
  ]

  fresh-Idle : Idle fresh
  unfolding has_key count placed listed rank waits
  fresh-Idle = record {
    is_placed = record { once = λ x. refl; given = λ x h. absurd cc };
    empty = refl;
    linked = record {
      falling = tt;
      bounded = λ x h. absurd cc;
      low_self = λ x h. absurd cc;
      low_edge = λ x y h e w m. absurd cc;
      met = λ x y h e w. absurd cc;
      waits_edges = λ x y w. absurd cc;
      spans = tt;
      reach_up = λ x y h m a. absurd cc;
      reach_low = λ x h. absurd cc;
      left_low = λ x h f. absurd cc;
      downward = λ x y h e. absurd (omega (arith, h));
      strong = λ x y h e. absurd (omega (arith, h));
    };
  }

  module _ (order : List (List String)) (found : components edges nodes ≡ some order) where
    final : (u : Tarjan) × Idle u × (u.order ≡ order)
    unfolding components
    final = elim (Option-cases (search edges (turns edges nodes) nodes fresh)) [
      | inl never ↦ absurd (ground (arith, never, found))
      | inr (u, ends) ↦ (
        u,
        search-Idle (turns edges nodes) nodes fresh u (All-listed nodes nodes (λ x h. h)) fresh-Idle
            ends,
        ground (arith, ends, found),
      )
    ]

    pub order-placed : (x : String) → placed x order ≡ as_count (listed x nodes)
    order-placed x =
        (let (other, same, once) = components_once edges nodes inside in
          let e : other ≡ order = cc in
          subst (λ o. placed x o ≡ as_count (listed x nodes)) e (once x))

    pub node-rank : (x : String) → listed x nodes ≡ true → rank x order < length order
    node-rank x h = placed-rank x order (ground (arith, order-placed x, h))

    -- An edge leads to the same component or to an earlier one.
    pub edge-rank :
        (x y : String)
        → listed x nodes ≡ true
        → listed y (edges x) ≡ true
        → rank y order ≤ rank x order
    edge-rank x y h e =
        (let (u, i, same) = final in
          subst (λ o. rank x o < length o → rank y o ≤ rank x o) same
            (λ r. i.linked.downward x y r e) (node-rank x h))

    strong_rank :
        (x y : String) → listed x nodes ≡ true → rank x order ≡ rank y order → Reaches edges x y
    strong_rank x y h =
        (let (u, i, same) = final in
          subst (λ o. rank x o < length o → rank x o ≡ rank y o → Reaches edges x y) same
            (i.linked.strong x y) (node-rank x h))

    Reaches-rank :
        (x y : String) → Reaches edges x y → listed x nodes ≡ true → rank y order ≤ rank x order
    Reaches-rank x y (stay e) h = (let same = ap (λ z. rank z order) e in omega (arith, same))
    Reaches-rank x y (hop {y = z} l r) h = omega (
      arith,
      edge-rank x z h l,
      Reaches-rank z y r (listed_all (edges x) (λ c. listed c nodes ≡ true) (inside x h) z l),
    )

    pub together_iff :
        (x y : String)
        → listed x nodes ≡ true
        → listed y nodes ≡ true
        → (together x y order ≡ true) ↔ (Reaches edges x y × Reaches edges y x)
    together_iff x y h k = (
      (λ t.
          let same =
            together-rank x y order (ground (arith, order-placed x))
              (ground (arith, order-placed y)) t in
          (strong_rank x y h same, strong_rank y x k (sym same))),
      (λ r.
          let down = Reaches-rank x y r.0 h in
          let up = Reaches-rank y x r.1 k in
          rank-together x y order (node-rank x h) (omega (arith, down, up))),
    )
