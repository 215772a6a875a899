-- ===== src/Fingerprints/Components/Linked/Lower.antt =====
-- A low value goes down, and an edge to a node with an index is followed, in `components` of
-- scripts/semantic-fingerprints.py.
use air2lean.Base.{
  ℕ, ◌≤◌, ◌<◌, ◌≡◌, refl, sym, ap, ◌∙◌, String, Bool, true, false, List, ◌∷◌, ◌⊎◌, str_eq, eq_iff,
  if-both, leb, length, arith, Bool-cases, inl, inr, subst,
}
use air2lean.Json.{listed}
use air2lean.Diff.Config.{has_key}
use air2lean.Fingerprints.Components.{Tarjan, index_of, min, set_low, meet}
use air2lean.Fingerprints.Components.Reach.{Reaches, Reaches-edge}
use air2lean.Fingerprints.Components.Linked.{Spans, Spans-move, Linked}

module _ (edges : String → List String) (waits : String → String → Bool) where
  -- The value of a node goes down to that of a node which it reaches.
  module _ (p : String) (n : ℕ) (t : Tarjan) where
    abbrev lowered : String → ℕ
    lowered = set_low p (min (t.low p) n) t.low

    pub lowered_le : (x : String) → lowered x ≤ t.low x
    lowered_le x = elim (Bool-cases (str_eq x p)) [
      | inl e ↦
          (let same : t.low x ≡ t.low p = ap t.low ((eq_iff x p).0 e) in ground (arith, e, same))
      | inr e ↦ ground (arith, e)
    ]

    pub lowered_other : (x : String) → str_eq x p ≡ false → lowered x ≡ t.low x
    lowered_other x e = ground (arith, e)

    pub lowered_here : lowered p ≤ n
    lowered_here = ground (arith, (eq_iff p p).1 refl)

    pub lower-Linked :
        (ns : List String)
        → (y : String) × (listed y t.stack ≡ true) × (index_of y t ≡ n) × Reaches edges p y
        → Spans (λ x. index_of x t) lowered t.stack (length t.index) ns
        → Linked edges ns waits t
        → Linked edges ns waits (record t { low = lowered })
    lower-Linked ns w spans l = record {
      falling = l.falling;
      bounded = l.bounded;
      low_self = λ x h. omega (arith, lowered_le x, l.low_self x h);
      low_edge = λ x y h e f m. omega (arith, lowered_le x, l.low_edge x y h e f m);
      met = l.met;
      waits_edges = l.waits_edges;
      spans = spans;
      reach_up = l.reach_up;
      reach_low = λ x h. elim (Bool-cases (str_eq x p)) [
        | inl e ↦
            subst
              (λ z.
                (y : String) × (listed y t.stack ≡ true)
                × (index_of y t ≡ lowered z)
                × Reaches edges z y)
              (sym ((eq_iff x p).0 e))
              (witness (
                subst
                  (λ z.
                    (y : String) × (listed y t.stack ≡ true)
                    × (index_of y t ≡ t.low z)
                    × Reaches edges z y)
                  ((eq_iff x p).0 e) (l.reach_low x h)))
        | inr e ↦ (let (y, m, low, r) = l.reach_low x h in (y, m, low ∙ sym (lowered_other x e), r))
      ];
      left_low = λ x h f. (let less = l.left_low x h f in omega (arith, less, lowered_le x));
      downward = l.downward;
      strong = l.strong;
    }
      where
        witness :
            (y : String) × (listed y t.stack ≡ true) × (index_of y t ≡ t.low p) × Reaches edges p y
            → (y : String) × (listed y t.stack ≡ true)
              × (index_of y t ≡ lowered p)
              × Reaches edges p y
        witness (y, m, low, r) = elim (Bool-cases (leb (t.low p) n)) [
          | inl e ↦ (y, m, ground (arith, (eq_iff p p).1 refl, e, low), r)
          | inr e ↦ (w.0, w.1, ground (arith, (eq_iff p p).1 refl, e, w.2), w.3)
        ]

  apart :
      (x p : String) (t : Tarjan)
      → (index_of x t < index_of p t) ⊎ (index_of p t < index_of x t)
      → str_eq x p ≡ false
  apart x p t h = elim (Bool-cases (str_eq x p)) [
    | inl e ↦
        (let same : index_of x t ≡ index_of p t = ap (λ z. index_of z t) ((eq_iff x p).0 e) in
          elim h [
            | inl a ↦ absurd (omega (arith, a, same))
            | inr a ↦ absurd (omega (arith, a, same))
          ])
    | inr e ↦ e
  ]

  lower_below :
      (p : String) (n : ℕ) (ns : List String) (t : Tarjan)
      → Spans (λ x. index_of x t) t.low t.stack (index_of p t) ns
      → Spans (λ x. index_of x t) (lowered p n t) t.stack (index_of p t) ns
  lower_below p n ns t s =
      Spans-move (λ x. index_of x t) t.low (λ x. index_of x t) (lowered p n t) t.stack t.stack
        (index_of p t) ns (λ v l. (refl, λ b. lowered_other p n t v (apart v p t (inl b))))
        (λ x l b. (l, refl, lowered_other p n t x (apart x p t (inl b)))) s

  -- The last frame's node.
  pub lower_last :
      (p : String) (n : ℕ) (ns : List String) (t : Tarjan)
      → Spans (λ x. index_of x t) t.low t.stack (length t.index) (p ∷ ns)
      → Spans (λ x. index_of x t) (lowered p n t) t.stack (length t.index) (p ∷ ns)
  lower_last p n ns t (below, own, s) = (
    below,
    (λ x h a b. elim (Bool-cases (str_eq x p)) [
      | inl e ↦
          (let same : lowered p n t x ≡ lowered p n t p = ap (lowered p n t) ((eq_iff x p).0 e) in
            omega (arith, same))
      | inr e ↦ omega (arith, own x h a b, lowered_le p n t p, lowered_other p n t x e)
    ]),
    lower_below p n ns t s,
  )

  -- The node below it, by the value of the last.
  pub lower_parent :
      (v p : String) (ns : List String) (t : Tarjan)
      → Spans (λ x. index_of x t) t.low t.stack (length t.index) (v ∷ p ∷ ns)
      → Spans (λ x. index_of x t) (lowered p (t.low v) t) t.stack (length t.index) (v ∷ p ∷ ns)
  lower_parent v p ns t (below, own, (below_p, own_p, s)) = (
    below,
    (λ x h a b.
        let x_same =
          lowered_other p (t.low v) t x (apart x p t (inr (omega (arith, a, below_p)))) in
        omega (arith, x_same, lowered_le p (t.low v) t v, own x h a b)),
    (
      below_p,
      (λ x h a b. elim (Bool-cases (str_eq x p)) [
        | inl e ↦
            (let same : lowered p (t.low v) t x ≡ lowered p (t.low v) t p =
                ap (lowered p (t.low v) t) ((eq_iff x p).0 e) in
              omega (arith, same))
        | inr e ↦
            omega
              (arith, own_p x h a b, lowered_le p (t.low v) t p, lowered_other p (t.low v) t x e)
      ]),
      lower_below p (t.low v) ns t s,
    ),
  )

  -- The edge from p to c is followed.
  module _ (waits2 : String → String → Bool) (p c : String)
      (settled : (x y : String)
        → listed y (edges x) ≡ true
        → waits2 x y ≡ false
        → (waits x y ≡ false) ⊎ ((p ≡ x) × (c ≡ y)))
      (still : (x y : String) → waits2 x y ≡ true → listed y (edges x) ≡ true) where
    settle-Linked :
        (ns : List String) (t : Tarjan)
        → has_key c t.index ≡ true
        → (listed c t.stack ≡ true → t.low p ≤ index_of c t)
        → Linked edges ns waits t
        → Linked edges ns waits2 t
    settle-Linked ns t key target l = record {
      falling = l.falling;
      bounded = l.bounded;
      low_self = l.low_self;
      low_edge = λ x y h e f m. elim (settled x y e f) [
        | inl w ↦ l.low_edge x y h e w m
        | inr (a, b) ↦
            (let low_same : t.low p ≡ t.low x = ap t.low a in
              let index_same : index_of c t ≡ index_of y t = ap (λ z. index_of z t) b in
              let m2 : listed c t.stack ≡ true = ap (λ z. listed z t.stack) b ∙ m in
              omega (arith, low_same, index_same, target m2))
      ];
      met = λ x y h e f. elim (settled x y e f) [
        | inl w ↦ l.met x y h e w
        | inr (a, b) ↦ subst (λ z. has_key z t.index ≡ true) b key
      ];
      waits_edges = still;
      spans = l.spans;
      reach_up = l.reach_up;
      reach_low = l.reach_low;
      left_low = l.left_low;
      downward = l.downward;
      strong = l.strong;
    }

    pub meet-Linked :
        (ns : List String) (t : Tarjan)
        → has_key c t.index ≡ true
        → listed c (edges p) ≡ true
        → Linked edges (p ∷ ns) waits t
        → Linked edges (p ∷ ns) waits2 (meet p c t)
    unfolding meet
    meet-Linked ns t key e l =
        if-both (Linked edges (p ∷ ns) waits2) (listed c t.stack)
          (λ there.
            settle-Linked (p ∷ ns) (record t { low = lowered p (index_of c t) t }) key
              (λ _. lowered_here p (index_of c t) t)
              (lower-Linked p (index_of c t) t (p ∷ ns) (c, there, refl, Reaches-edge edges e)
                (lower_last p (index_of c t) ns t l.spans) l))
          (λ gone. settle-Linked (p ∷ ns) t key (λ m. absurd (ground (arith, gone, m))) l)
