-- ===== src/Fingerprints/Components/Linked/Turns.antt =====
-- Every turn of the loop of `components` in scripts/semantic-fingerprints.py keeps what the low values say.
use air2lean.Base.{
  ℕ, ◌≤◌, ◌≡◌, refl, ap, String, Bool, true, false, ◌||◌, ◌&&◌, List, [], ◌∷◌, ◌⊎◌, str_eq, eq_iff,
  if-both, arith, Bool-cases, inl, inr, subst,
}
use air2lean.Json.{listed}
use air2lean.Diff.Config.{has_key}
use air2lean.Fingerprints.Components.{Frame, Tarjan, index_of, enter, inherit, meet, close, step}
use air2lean.Fingerprints.Components.Stack.{listed-Sub}
use air2lean.Fingerprints.Components.Step.{names, Searching}
use air2lean.Fingerprints.Components.Leave.{last_listed, inherit-Searching}
use air2lean.Fingerprints.Components.Reach.{Reaches, Reaches-edge, Reaches-trans}
use air2lean.Fingerprints.Components.Linked.{Spans, Spans-below, Linked}
use air2lean.Fingerprints.Components.Linked.Push.{push-Linked}
use air2lean.Fingerprints.Components.Linked.Lower.{
  lower-Linked, lower_parent, lowered_here, lowered_other, meet-Linked,
}
use air2lean.Fingerprints.Components.Linked.Close.{Inherited, close-Linked}

-- The edge is among those that a frame has left.
unfoldable pub waits : List Frame → String → String → Bool
unfolding listed
waits [] x y = false
waits ((v, children) ∷ work) x y = (str_eq v x && listed y children) || waits work x y

waits-names :
    (work : List Frame) (x y : String) → waits work x y ≡ true → listed x (names work) ≡ true
unfolding waits listed
waits-names [] x y h = h
waits-names ((v, children) ∷ work) x y h = ground (arith, h, waits-names work x y)

taken :
    (v c : String) (children : List String) (work : List Frame) (x y : String)
    → waits ((v, children) ∷ work) x y ≡ false
    → (waits ((v, c ∷ children) ∷ work) x y ≡ false) ⊎ ((v ≡ x) × (c ≡ y))
unfolding waits listed
taken v c children work x y h = elim (Bool-cases (str_eq v x && str_eq c y)) [
  | inl e ↦ inr ((eq_iff v x).0 (ground (arith, e)), (eq_iff c y).0 (ground (arith, e)))
  | inr e ↦ inl (ground (arith, e, h))
]

fewer_wait :
    (v c : String) (children : List String) (work : List Frame) (x y : String)
    → waits ((v, children) ∷ work) x y ≡ true
    → waits ((v, c ∷ children) ∷ work) x y ≡ true
unfolding waits listed
fewer_wait v c children work x y h = ground (arith, h)

module _ (edges : String → List String) (nodes : List String) (root : String) (base : ℕ)
    (t : Tarjan) where
  abbrev InStep : List Frame → Tarjan → Type 0
  InStep work u = Linked edges (names work) (waits work) u

  end_frame :
      (v : String) (work : List Frame)
      → InStep ((v, []) ∷ work) t
      → Linked edges (v ∷ names work) (waits work) t
  unfolding waits listed
  end_frame v work l = subst (λ w. Linked edges (v ∷ names work) w t) (λ i x y. same x y i) l
    where
      same : (x y : String) → waits ((v, []) ∷ work) x y ≡ waits work x y
      same x y = ground arith

  inherit-Linked :
      (v : String) (work : List Frame)
      → listed v t.stack ≡ true
      → Linked edges (v ∷ names work) (waits work) t
      → Linked edges (v ∷ names work) (waits work) (inherit v work t)
  unfolding inherit listed
  inherit-Linked v [] on l = l
  inherit-Linked v ((q, cs) ∷ work) on l =
      (let (y, m, low, r) = l.reach_low v on in
        let up =
          l.reach_up q v (ground (arith, (eq_iff q q).1 refl)) on (omega (arith, l.spans.2.0)) in
        lower-Linked edges (waits ((q, cs) ∷ work)) q (t.low v) t (v ∷ q ∷ names work)
          (y, m, low, Reaches-trans edges up r)
          (lower_parent edges (waits ((q, cs) ∷ work)) v q (names work) t l.spans) l)

  inherit-Inherited :
      (v : String) (work : List Frame)
      → Linked edges (v ∷ names work) (waits work) t
      → Inherited v (names work) (inherit v work t)
  unfolding inherit
  inherit-Inherited v [] l = tt
  inherit-Inherited v ((q, cs) ∷ work) l = elim (Bool-cases (str_eq v q)) [
    | inl e ↦
        (let same : index_of v t ≡ index_of q t = ap (λ z. index_of z t) ((eq_iff v q).0 e) in
          absurd (omega (arith, same, l.spans.2.0)))
    | inr e ↦ omega (
      arith,
      lowered_here edges (waits work) q (t.low v) t,
      lowered_other edges (waits work) q (t.low v) t v e,
    )
  ]

  end-Linked :
      (v : String) (work : List Frame)
      → Searching nodes root base ((v, []) ∷ work) t
      → InStep ((v, []) ∷ work) t
      → InStep work (close v (inherit v work t))
  end-Linked v work s l =
      (let ended = end_frame v work l in
        let on = last_listed nodes root base (v, []) work t s in
        let s2 = inherit-Searching nodes root base (v, []) work t s in
        close-Linked edges nodes v (names work) (waits work) (inherit v work t)
          (inherit-Linked v work on ended) s2.is_placed
          (last_listed nodes root base (v, []) work (inherit v work t) s2) (waits-names work)
          (inherit-Inherited v work ended))

  first_waits :
      (v c : String) (children : List String) (work : List Frame)
      → waits ((v, c ∷ children) ∷ work) v c ≡ true
  unfolding waits listed
  first_waits v c children work = ground (arith, (eq_iff v v).1 refl, (eq_iff c c).1 refl)

  child-Linked :
      (v c : String) (children : List String) (work : List Frame)
      → has_key c t.index ≡ true
      → InStep ((v, c ∷ children) ∷ work) t
      → InStep ((v, children) ∷ work) (meet v c t)
  child-Linked v c children work key l =
      meet-Linked edges (waits ((v, c ∷ children) ∷ work)) (waits ((v, children) ∷ work)) v c
        (λ x y _ w. taken v c children work x y w)
        (λ x y w. l.waits_edges x y (fewer_wait v c children work x y w)) (names work) t key
        (l.waits_edges v c (first_waits v c children work)) l

  below_last :
      (v : String) (work : List Frame) (x : String)
      → listed x (v ∷ names work) ≡ true
      → Spans (λ z. index_of z t) t.low t.stack (index_of v t) (names work)
      → index_of x t ≤ index_of v t
  unfolding listed
  below_last v work x h l = elim (Bool-cases (str_eq v x)) [
    | inl e ↦
        (let same : index_of v t ≡ index_of x t = ap (λ z. index_of z t) ((eq_iff v x).0 e) in
          omega (arith, same))
    | inr e ↦
        (let b =
            Spans-below (λ z. index_of z t) t.low t.stack (index_of v t) (names work) x l
              (ground (arith, e, h)) in
          omega (arith, b))
  ]

  enter-Linked :
      (v c : String) (children : List String) (work : List Frame)
      → has_key c t.index ≡ false
      → Searching nodes root base ((v, c ∷ children) ∷ work) t
      → InStep ((v, c ∷ children) ∷ work) t
      → InStep ((c, edges c) ∷ (v, children) ∷ work) (enter c t)
  unfolding waits listed
  enter-Linked v c children work new s l =
      push-Linked c t new nodes s.is_placed edges (v ∷ names work)
        (waits ((v, c ∷ children) ∷ work)) (waits ((c, edges c) ∷ (v, children) ∷ work)) l
        (λ x y _ _ w. elim (taken v c children work x y (ground (arith, w))) [
          | inl e ↦ inl e
          | inr (a, b) ↦ inr b
        ])
        (λ x y w. elim (Bool-cases (str_eq c x && listed y (edges c))) [
          | inl e ↦
              subst (λ z. listed y (edges z) ≡ true) ((eq_iff c x).0 (ground (arith, e)))
                (ground (arith, e))
          | inr e ↦ l.waits_edges x y (fewer_wait v c children work x y (ground (arith, e, w)))
        ])
        (λ y e. ground (arith, e, (eq_iff c c).1 refl))
        (λ x h.
          Reaches-trans edges (to_last x h)
            (Reaches-edge edges (l.waits_edges v c (first_waits v c children work))))
        (λ x h. listed-Sub x s.on_stack h)
    where
      on : listed v t.stack ≡ true
      on = last_listed nodes root base (v, c ∷ children) work t s

      to_last : (x : String) → listed x (v ∷ names work) ≡ true → Reaches edges x v
      to_last x h = l.reach_up x v h on (below_last v work x h l.spans.2)

  -- One turn.
  pub step-Linked :
      (f : Frame) (work : List Frame)
      → Searching nodes root base (f ∷ work) t
      → InStep (f ∷ work) t
      → InStep (step edges f work t).0 (step edges f work t).1
  unfolding step
  step-Linked (v, []) work s l = end-Linked v work s l
  step-Linked (v, c ∷ children) work s l =
      if-both (λ (w : List Frame × Tarjan). InStep w.0 w.1) (has_key c t.index)
        (λ key. child-Linked v c children work key l)
        (λ new. enter-Linked v c children work new s l)
