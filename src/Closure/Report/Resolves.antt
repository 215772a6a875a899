-- ===== src/Closure/Report/Resolves.antt =====
-- After the search, `Closure.run` of scripts/dependency-closure.py only adds boundaries and records.
use air2lean.Base.{
  String, Option, none, some, Bool, true, false, List, [], ◌∷◌, ◌++◌, ◌≡◌, refl, sym, ap, ◌∙◌,
  if◌then◌else◌, arith, inl, inr, is_empty, length, Bool-cases, str_eq, subst,
}
use air2lean.Base.Result.{ok, err, ◌>>=◌, >>=-eq-ok, ok-injective, traverse}
use air2lean.Closure.{Inputs, Class, unresolvable, class_eq, Scanned, Site, Instruction}
use air2lean.Closure.State.{State, Node, class_of, class_at, start, key_error}
use air2lean.Closure.Visit.{boundary}
use air2lean.Closure.Search.{function_of, search, visit_roots}
use air2lean.Closure.Report.{
  Resolved, site_boundary, resolve_site, resolve_sites, resolve_all, node_boundaries, parent_of,
  run, targets_of, target_class,
}

-- The visited names and the queue are the same, and no boundary is lost.
pub record Adds (s t : State) : Type 0 where
  pub nodes : t.nodes ≡ s.nodes
  pub finished : t.finished ≡ s.finished
  pub boundaries : is_empty t.boundaries ≡ true → is_empty s.boundaries ≡ true

Adds-refl : (s : State) → Adds s s
Adds-refl s = record { nodes = refl; finished = refl; boundaries = λ h. h }

then-Adds : {s t u : State} → Adds s t → Adds t u → Adds s u
then-Adds a b = record {
  nodes = b.nodes ∙ a.nodes;
  finished = b.finished ∙ a.finished;
  boundaries = λ h. a.boundaries (b.boundaries h);
}

still-not-empty :
    {s t : State} → Adds s t → is_empty s.boundaries ≡ false → is_empty t.boundaries ≡ false
still-not-empty {s} {t} a h = ground (arith, a.boundaries)

append-not-empty {ℓ} : {A : Type ℓ} (xs : List A) (x : A) → is_empty (xs ++ x ∷ []) ≡ false
append-not-empty [] x = refl
append-not-empty (y ∷ xs) x = refl

boundary-not-empty :
    (function : String) (i : Instruction) (class : Class) (kind : String)
    (target reason : Option String) (s : State)
    → is_empty (boundary function i class kind target reason s).boundaries ≡ false
unfolding boundary
boundary-not-empty function i class kind target reason s = append-not-empty s.boundaries _

boundary-Adds :
    (function : String) (i : Instruction) (class : Class) (kind : String)
    (target reason : Option String) (s : State)
    → Adds s (boundary function i class kind target reason s)
unfolding boundary
boundary-Adds function i class kind target reason s = record {
  nodes = refl;
  finished = refl;
  boundaries =
      λ h. absurd (ground (arith, boundary-not-empty function i class kind target reason s));
}

site_boundary-Adds :
    (name : String) (site : Site) (targets : List (String × Class)) (s : State)
    → Adds s (site_boundary name site targets s)
unfolding site_boundary
site_boundary-Adds name site targets s = turn site.fn_type (is_empty targets)
  where
    turn :
        (o : Option String) (b : Bool)
        → Adds s (elim o [
          | none ↦
              boundary name site.instruction unresolvable "non_function_pointer_callee" none
                (some "indirect callee is not a function pointer")
                s
          | some ty ↦
              if b
              then boundary name site.instruction unresolvable "runtime_function_pointer"
                  (some ty)
                  (some
                    "no address-taken function of this type in the closure; the target is a runtime value")
                  s
              else s
        ])
    turn none b =
        boundary-Adds name site.instruction unresolvable "non_function_pointer_callee" none
          (some "indirect callee is not a function pointer") s
    turn (some ty) true =
        boundary-Adds name site.instruction unresolvable "runtime_function_pointer" (some ty)
          (some
            "no address-taken function of this type in the closure; the target is a runtime value")
          s
    turn (some ty) false = Adds-refl s

pub resolve_site-Adds :
    (c : Inputs) (queue : List String) (name : String) (site : Site) (r t : Resolved)
    → resolve_site c queue name site r ≡ ok t
    → Adds r.0 t.0
unfolding resolve_site
resolve_site-Adds c queue name site (s, records) t h =
    let (names, _, h1) = >>=-eq-ok (targets_of c queue site.fn_type) _ h in
    let (targets, _, h2) = >>=-eq-ok (traverse (target_class s) names) _ h1 in
    subst (λ u. Adds s u.0) (ok-injective h2) (site_boundary-Adds name site targets s)

pub resolve_sites-Adds :
    (c : Inputs) (queue : List String) (name : String) (sites : List Site) (r t : Resolved)
    → resolve_sites c queue name sites r ≡ ok t
    → Adds r.0 t.0
unfolding resolve_sites
resolve_sites-Adds c queue name [] r t h =
    subst (λ u. Adds r.0 u.0) (ok-injective h) (Adds-refl r.0)
resolve_sites-Adds c queue name (site ∷ sites) r t h =
    let (u, e, h1) = >>=-eq-ok (resolve_site c queue name site r) _ h in
    then-Adds (resolve_site-Adds c queue name site r u e)
      (resolve_sites-Adds c queue name sites u t h1)

resolve_all-Adds :
    (c : Inputs) (queue names : List String) (r t : Resolved)
    → resolve_all c queue names r ≡ ok t
    → Adds r.0 t.0
unfolding resolve_all
resolve_all-Adds c queue [] r t h = subst (λ u. Adds r.0 u.0) (ok-injective h) (Adds-refl r.0)
resolve_all-Adds c queue (name ∷ names) r t h =
    turn (function_of c name) h (λ u. resolve_all-Adds c queue names u t)
  where
    turn :
        (o : Option Scanned)
        → (elim o [
          | none ↦ err key_error
          | some info ↦ do
            next ← resolve_sites c queue name info.indirect r
            resolve_all c queue names next
        ])
          ≡ ok t
        → ((u : Resolved) → resolve_all c queue names u ≡ ok t → Adds u.0 t.0)
        → Adds r.0 t.0
    turn none h again = absurd (ground arith)
    turn (some info) h again =
        let (u, e, h1) = >>=-eq-ok (resolve_sites c queue name info.indirect r) _ h in
        then-Adds (resolve_sites-Adds c queue name info.indirect r u e) (again u h1)

-- A node outside of the model has a boundary.
node_boundaries-Adds : (ns : List Node) (s : State) → Adds s (node_boundaries ns s)
unfolding node_boundaries
node_boundaries-Adds [] s = Adds-refl s
node_boundaries-Adds (n ∷ ns) s =
    then-Adds (turn (class_eq n.class unresolvable)) (node_boundaries-Adds ns _)
  where
    turn :
        (b : Bool)
        → Adds s (
            if b
            then boundary (parent_of n.name s) none unresolvable n.kind (some n.name) n.reason s
            else s)
    turn true = boundary-Adds (parent_of n.name s) none unresolvable n.kind (some n.name) n.reason s
    turn false = Adds-refl s

node_boundaries-covers :
    (k : String) (ns : List Node) (s : State)
    → class_at k ns ≡ some unresolvable
    → is_empty (node_boundaries ns s).boundaries ≡ false
unfolding class_at node_boundaries
node_boundaries-covers k [] s h = absurd (ground arith)
node_boundaries-covers k (n ∷ ns) s h = elim (Bool-cases (str_eq n.name k)) [
  | inr e ↦ node_boundaries-covers k ns _ (ground arith)
  | inl e ↦
      still-not-empty (node_boundaries-Adds ns _)
        (entered (class_eq n.class unresolvable) (ground arith))
]
  where
    entered :
        (b : Bool)
        → b ≡ true
        → is_empty
            (if b
              then boundary (parent_of n.name s) none unresolvable n.kind (some n.name) n.reason s
              else s).boundaries
          ≡ false
    entered true e =
        boundary-not-empty (parent_of n.name s) none unresolvable n.kind (some n.name) n.reason s
    entered false e = absurd (ground arith)

-- `run` answers with what the search visited, and with a boundary for each node outside of the model.
pub run-Adds :
    (c : Inputs) (roots : List String) (t : Resolved)
    → run c roots ≡ ok t
    → (s : State) × (search c (length c.functions) (visit_roots c roots start) ≡ ok s)
      × Adds s t.0
      × ((k : String) → class_of k s ≡ some unresolvable → is_empty t.0.boundaries ≡ false)
unfolding run class_of
run-Adds c roots t h =
    let (s, e, h1) = >>=-eq-ok (search c (length c.functions) (visit_roots c roots start)) _ h in
    let (r, f, h2) = >>=-eq-ok (resolve_all c s.finished s.finished (s, [])) _ h1 in
    let same = ap (λ u. u.0) (ok-injective h2) in
    (
      s,
      e,
      subst (Adds s) same (
          then-Adds (resolve_all-Adds c s.finished s.finished (s, []) r f)
            (node_boundaries-Adds s.nodes r.0)),
      λ k x. sym (ap (λ u. is_empty u.boundaries) same) ∙ node_boundaries-covers k s.nodes r.0 x,
    )
