-- ===== src/Closure/Search/References.antt =====
-- A node of the answer of scripts/dependency-closure.py keeps 16 references at most.
use air2lean.Base.{
  ℕ, ◌≤◌, String, Option, none, some, Bool, true, false, List, [], ◌∷◌, ◌++◌, ◌≡◌, sym, subst,
  arith, length, length-append, All, str_eq, if◌then◌else◌,
}
use air2lean.Base.Result.{ok}
use air2lean.Closure.{Instruction, Inputs, Class}
use air2lean.Closure.State.{State, Node, Reference, class_of, update, start}
use air2lean.Closure.Visit.{visit, enter, add_reference, refer, explain, explained}
use air2lean.Closure.Search.{advance, search, visit_roots}
use air2lean.Closure.Search.Keeps.{expand-keeps}
use air2lean.Closure.Search.Loop.{search_rule}

abbrev pub IsCapped : State → Type 0
IsCapped s = All (λ n. length n.references ≤ 16) s.nodes

update-All :
    {P : Node → Type 0} (k : String) (f : Node → Node)
    → ((n : Node) → P n → P (f n))
    → (ns : List Node) → All P ns
    → All P (update k f ns)
unfolding update
update-All k f keeps [] tt = tt
update-All {P} k f keeps (n ∷ ns) (p, ps) = turn (str_eq n.name k) (update-All k f keeps ns ps)
  where
    turn : (b : Bool) → All P (update k f ns) → All P (if b then f n ∷ ns else n ∷ update k f ns)
    turn true qs = (keeps n p, ps)
    turn false qs = (p, qs)

append-All : (P : Node → Type 0) (ns : List Node) (n : Node) → All P ns → P n → All P (ns ++ n ∷ [])
append-All P [] n ps p = (p, tt)
append-All P (m ∷ ns) n (q, qs) p = (q, append-All P ns n qs p)

refer-bound :
    (r : Reference) (n : Node) → length n.references ≤ 16 → length (refer r n).references ≤ 16
unfolding refer
refer-bound r n h = ground (arith, length-append n.references (r ∷ []))

explained-bound : (n : Node) → length n.references ≤ 16 → length (explained n).references ≤ 16
unfolding explained
explained-bound n h = ground arith

module _ (c : Inputs) where
  enter-IsCapped :
      (k : String) (caller : Option String) (panic : Bool) (s : State)
      → IsCapped s
      → IsCapped (enter c k caller panic s)
  unfolding enter
  enter-IsCapped k caller panic s h =
      append-All (λ n. length n.references ≤ 16) s.nodes _ h (omega arith)

  add_reference-IsCapped :
      (k : String) (caller : Option String) (edge : String) (i : Instruction) (s : State)
      → IsCapped s
      → IsCapped (add_reference k caller edge i s)
  unfolding add_reference
  add_reference-IsCapped k none edge i s h = h
  add_reference-IsCapped k (some caller) edge i s h =
      update-All k (refer (record { from = caller; edge = edge; instruction = i }))
        (refer-bound (record { from = caller; edge = edge; instruction = i })) s.nodes h

  visit-IsCapped :
      (caller : Option String) (name edge : String) (i : Instruction) (panic : Bool) (s : State)
      → IsCapped s
      → IsCapped (visit c caller name edge i panic s)
  unfolding visit
  visit-IsCapped caller name edge i panic s h =
      add_reference-IsCapped (c.key name) caller edge i
        (elim (class_of (c.key name) s) [ none ↦ enter c (c.key name) caller panic s | some _ ↦ s ])
        (turn (class_of (c.key name) s))
    where
      turn :
          (o : Option Class)
          → IsCapped (elim o [ none ↦ enter c (c.key name) caller panic s | some _ ↦ s ])
      turn none = enter-IsCapped (c.key name) caller panic s h
      turn (some x) = h

  visit_roots-IsCapped :
      (roots : List String) (s : State) → IsCapped s → IsCapped (visit_roots c roots s)
  unfolding visit_roots explain
  visit_roots-IsCapped [] s h = h
  visit_roots-IsCapped (r ∷ roots) s h =
      let t = visit c none r "root" none false s in
      visit_roots-IsCapped roots (explain (c.key r) t) (
        update-All (c.key r) explained explained-bound t.nodes
          (visit-IsCapped none r "root" none false s h))

  pub search-IsCapped :
      (roots : List String) (fuel : ℕ) (t : State)
      → search c fuel (visit_roots c roots start) ≡ ok t
      → IsCapped t
  unfolding advance
  search-IsCapped roots fuel t e =
      (search_rule c IsCapped
        (λ s caller rest info _ _ h.
          expand-keeps c IsCapped caller
            (λ name edge i panic u. visit-IsCapped (some caller) name edge i panic u)
            (λ u v same. subst (All (λ n. length n.references ≤ 16)) (sym same.nodes)) info
            (advance caller rest s) h)
        fuel (visit_roots c roots start) t e (visit_roots-IsCapped roots start tt)).0
