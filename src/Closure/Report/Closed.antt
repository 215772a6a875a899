-- ===== src/Closure/Report/Closed.antt =====
-- What the status of the report of scripts/dependency-closure.py says.
use air2lean.Base.{
  String, Option, some, Bool, true, false, List, [], ◌∷◌, ◌≡◌, refl, sym, ap, ◌∙◌, subst, arith,
  ◌⊎◌, inl, inr, is_empty, length, str_eq, Bool-cases, ◌↔◌, if◌then◌else◌, ◌||◌, All, ◌≤◌, eq_iff,
}
use air2lean.Base.Result.{ok}
use air2lean.Json.{listed}
use air2lean.Closure.{Inputs, Class, exported, modelled, missing, unresolvable, class_eq}
use air2lean.Closure.Names.{covered}
use air2lean.Closure.Names.Covers.{filter_prefixes_cover}
use air2lean.Closure.Search.References.{search-IsCapped}
use air2lean.Closure.State.{State, Node, Boundary, class_of, class_at}
use air2lean.Closure.Search.Extends.{Visited}
use air2lean.Closure.Search.Body.{classes_of}
use air2lean.Closure.Search.Reaches.{Reach}
use air2lean.Closure.Search.Visited.{searched-Visited}
use air2lean.Closure.Report.{Resolved, closed, report, status_of, of_class, wanted, run}
use air2lean.Closure.Report.Resolves.{run-Adds}

-- The functions of the answer are the names that the roots reach through exported functions, by calls,
-- function values and initial values of globals.
pub run-Reach :
    (c : Inputs) (roots : List String) (t : Resolved)
    → run c roots ≡ ok t
    → (j : String) → Visited j t.0 ↔ Reach c (classes_of t.0) roots j
unfolding class_of
run-Reach c roots t h j =
    let (s, e, adds, _) = run-Adds c roots t h in
    let same : (λ k. class_at k s.nodes) ≡ (λ k. class_at k t.0.nodes) =
      ap (λ ns k. class_at k ns) (sym adds.nodes) in
    subst (λ classes. ((x : Class) × (classes j ≡ some x)) ↔ Reach c classes roots j) same
      (searched-Visited c roots (length c.functions) s e j)

class_eq_refl : (x : Class) → class_eq x x ≡ true
class_eq_refl exported = refl
class_eq_refl modelled = refl
class_eq_refl missing = refl
class_eq_refl unresolvable = refl

status_of-closed :
    (ns : List Node) (bs : List Boundary)
    → status_of ns bs ≡ closed
    → (is_empty ns ≡ true) × (is_empty bs ≡ true)
unfolding status_of
status_of-closed [] [] h = (refl, refl)
status_of-closed [] (b ∷ bs) h = absurd (ground arith)
status_of-closed (n ∷ ns) bs h = absurd (ground arith)

-- A name of the class is among the nodes of the class.
of_class-found :
    (class : Class) (k : String) (ns : List Node)
    → class_at k ns ≡ some class
    → is_empty (of_class class ns) ≡ false
unfolding class_at of_class
of_class-found class k [] h = absurd (ground arith)
of_class-found class k (n ∷ ns) h = elim (Bool-cases (str_eq n.name k)) [
  | inl e ↦
      ground (arith, class_eq_refl class, of_class-found class k ns, ap (λ x. class_eq x class))
  | inr e ↦
      (let rest = of_class-found class k ns (ground arith) in kept (class_eq n.class class) rest)
]
  where
    kept :
        (b : Bool)
        → is_empty (of_class class ns) ≡ false
        → is_empty (if b then n ∷ of_class class ns else of_class class ns) ≡ false
    kept true h = refl
    kept false h = h

-- If the status is `closed`, every function that the roots reach is exported or modelled.
pub report_closed :
    (c : Inputs) (roots base_prefixes : List String) (existing : Option (List String))
    (t : Resolved)
    → run c roots ≡ ok t
    → (report c t.0 base_prefixes existing).status ≡ closed
    → (j : String) → Reach c (classes_of t.0) roots j
    → (class_of j t.0 ≡ some exported) ⊎ (class_of j t.0 ≡ some modelled)
unfolding report class_of
report_closed c roots base_prefixes existing t h shut j reached =
    let (x, e) = (run-Reach c roots t h j).1 reached in
    let (s, _, adds, outside) = run-Adds c roots t h in
    let (no_missing, no_boundary) =
      status_of-closed (of_class missing t.0.nodes) t.0.boundaries shut in
    judge x e no_missing no_boundary (λ k u. outside k (ap (class_at k) (sym adds.nodes) ∙ u))
  where
    judge :
        (x : Class)
        → class_of j t.0 ≡ some x
        → is_empty (of_class missing t.0.nodes) ≡ true
        → is_empty t.0.boundaries ≡ true
        → ((k : String) → class_of k t.0 ≡ some unresolvable → is_empty t.0.boundaries ≡ false)
        → (class_of j t.0 ≡ some exported) ⊎ (class_of j t.0 ≡ some modelled)
    judge exported e ms bs outside = inl e
    judge modelled e ms bs outside = inr e
    judge missing e ms bs outside = absurd (ground (arith, of_class-found missing j t.0.nodes e))
    judge unresolvable e ms bs outside = absurd (ground (arith, outside j e))

wanted-listed :
    (j : String) (ns : List Node)
    → (class_at j ns ≡ some exported) ⊎ (class_at j ns ≡ some missing)
    → listed j (wanted ns) ≡ true
unfolding class_at wanted listed
wanted-listed j [] h = absurd (ground arith)
wanted-listed j (n ∷ ns) h = elim (Bool-cases (str_eq n.name j)) [
  | inl e ↦ ground (arith, eq_iff j j, ap (λ x. class_eq x exported || class_eq x missing))
  | inr e ↦ ground (arith, wanted-listed j ns)
]

-- The filter of the report covers every function that is exported already or is missing.
pub report_filter_covers :
    (c : Inputs) (s : State) (base_prefixes : List String) (existing : Option (List String))
    (j : String)
    → (class_of j s ≡ some exported) ⊎ (class_of j s ≡ some missing)
    → covered j (report c s base_prefixes existing).prefixes ≡ true
unfolding report class_of
report_filter_covers c s base_prefixes existing j h =
    filter_prefixes_cover j (wanted s.nodes) base_prefixes (wanted-listed j s.nodes h)

-- Every function of the answer has 16 references at most.
pub run_references_bound :
    (c : Inputs) (roots : List String) (t : Resolved)
    → run c roots ≡ ok t
    → All (λ n. length n.references ≤ 16) t.0.nodes
run_references_bound c roots t h =
    let (s, e, adds, _) = run-Adds c roots t h in
    subst (All (λ n. length n.references ≤ 16)) (sym adds.nodes)
      (search-IsCapped c roots (length c.functions) s e)
