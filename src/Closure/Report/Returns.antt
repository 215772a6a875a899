-- ===== src/Closure/Report/Returns.antt =====
-- `Closure.run` of scripts/dependency-closure.py returns: the search ends within the number of
-- functions, and no lookup of a name fails.
use air2lean.Base.{
  All-append, All-implies, String, Option, none, some, Bool, true, false, List, [], ◌∷◌, ◌++◌, ◌≡◌,
  refl, ap, ◌∙◌, subst, arith, inl, inr, length, str_eq, eq_iff, Bool-cases, all, All, Any, here,
  there, and-eq-true, if◌then◌else◌,
}
use air2lean.Base.Result.{traverse-returns, Result, ok, err, ◌>>=◌, >>=-returns, traverse}
use air2lean.Base.Sort.{text_le, sorted, sorted-All}
use air2lean.Json.{listed}
use air2lean.Closure.{Inputs, Class, Scanned, Global, Site, value_of}
use air2lean.Closure.Names.Prefixes.{listed→Any, unique-All}
use air2lean.Closure.Names.{unique, sorted_set}
use air2lean.Closure.State.{State, Failure, key_error, class_of, class_at, start}
use air2lean.Closure.Search.{function_of, search, visit_roots}
use air2lean.Closure.Search.Extends.{Visited}
use air2lean.Closure.Search.Body.{by_global}
use air2lean.Closure.Search.Reaches.{Searching}
use air2lean.Closure.Search.Visited.{visit_roots-Searching, search-Searching}
use air2lean.Closure.Search.Work.{visit_roots-work, start-work}
use air2lean.Closure.Search.Ends.{exported-known, search-returns}
use air2lean.Closure.Report.{
  Resolved, globals_of_type, address_taken, targets_of, target_class, resolve_site, resolve_sites,
  resolve_all, run,
}
use air2lean.Closure.Report.Resolves.{resolve_sites-Adds, resolve_site-Adds}

-- The function that a global holds is among the functions that `scan` finds in its initial value.
unfoldable pub ref_listed : Global → Bool
unfolding listed
ref_listed g = elim g.fn_ref [ none ↦ true | some (ty, name) ↦ listed name g.functions ]

-- `scan` returned the references of each function.
unfoldable pub well_scanned : List (String × Scanned) → Bool
unfolding ref_listed
well_scanned functions = all (λ f. all ref_listed f.1.globals) functions

well_scanned-value :
    (k : String) (fs : List (String × Scanned)) (info : Scanned)
    → well_scanned fs ≡ true
    → value_of k fs ≡ some info
    → all ref_listed info.globals ≡ true
unfolding well_scanned value_of
well_scanned-value k [] info w h = absurd (ground arith)
well_scanned-value k ((j, other) ∷ fs) info w h =
    let (first, rest) = and-eq-true (all ref_listed other.globals) (well_scanned fs) w in
    elim (Bool-cases (str_eq j k)) [
      | inl e ↦
          (let same : other ≡ info = ground arith in
            subst (λ (i : Scanned). all ref_listed i.globals ≡ true) same first)
      | inr e ↦ well_scanned-value k fs info rest (ground arith)
    ]

module _ (c : Inputs) (scanned : well_scanned c.functions ≡ true) (roots : List String) (s : State)
    (h : Searching c roots s) where
  -- The names that a pass found.
  abbrev Passed : List String → Type 0
  Passed names = All (λ u. listed u s.finished ≡ true) names

  globals_of_type-Visited :
      (ty : String) (gs : List Global)
      → all ref_listed gs ≡ true
      → ((j : String) → Any (λ g. Any (λ f. j ≡ c.key f) g.functions) gs → Visited j s)
      → All (λ j. Visited j s) (globals_of_type c ty gs)
  unfolding globals_of_type ref_listed
  globals_of_type-Visited ty [] w covers = tt
  globals_of_type-Visited ty (g ∷ gs) w covers = turn g.fn_ref refl (
      globals_of_type-Visited ty gs (and-eq-true (ref_listed g) (all ref_listed gs) w).1
        (λ j a. covers j (there a)))
    where
      rest : List String
      rest = globals_of_type c ty gs

      turn :
          (o : Option (String × String))
          → g.fn_ref ≡ o
          → All (λ j. Visited j s) rest
          → All
              (λ j. Visited j s)
              (elim o [
                | none ↦ rest
                | some (t, name) ↦ if str_eq t ty then c.key name ∷ rest else rest
              ])
      turn none e vs = vs
      turn (some (t, name)) e vs = inner (str_eq t ty)
        where
          inner : (b : Bool) → All (λ j. Visited j s) (if b then c.key name ∷ rest else rest)
          inner true = (
            covers (c.key name) (here (listed→Any c.key name g.functions (ground (arith, e)))),
            vs,
          )
          inner false = vs

  address_taken-returns :
      (ty : String) (names : List String)
      → Passed names
      → (xs : List String) × (address_taken c ty names ≡ ok xs) × All (λ j. Visited j s) xs
  unfolding address_taken function_of
  address_taken-returns ty [] tt = ([], refl, tt)
  address_taken-returns ty (u ∷ names) (p, ps) =
      (let (info, f) = exported-known c roots s h u (h.passed u p) in
        let (xs, e, vs) = address_taken-returns ty names ps in
        let gs = globals_of_type c ty info.globals in
        (
          gs ++ xs,
          ap
                (λ o. elim o as (λ _. Result Failure (List String)) [
                  | none ↦ err key_error
                  | some i ↦ address_taken c ty names >>= λ rest.
                      ok (globals_of_type c ty i.globals ++ rest)
                ])
                f
              ∙ ap (λ r. r >>= λ rest. ok (gs ++ rest)) e,
          All-append (λ j. Visited j s) gs xs
              (globals_of_type-Visited ty info.globals
                (well_scanned-value (c.key u) c.functions info scanned f)
                (λ j a. h.closed u info p f j (by_global a)))
              vs,
        ))

  targets_of-returns :
      (names : List String)
      → Passed names
      → (ty : Option String)
      → (xs : List String) × (targets_of c names ty ≡ ok xs) × All (λ j. Visited j s) xs
  unfolding targets_of sorted_set
  targets_of-returns names ps none = ([], refl, tt)
  targets_of-returns names ps (some ty) = turn (str_eq ty "")
    where
      turn :
          (b : Bool)
          → (xs : List String) × ((if b
                then ok []
                else (do found ← address_taken c ty names; ok (sorted text_le (unique found))))
              ≡ ok xs)
            × All (λ j. Visited j s) xs
      turn true = ([], refl, tt)
      turn false =
          let (xs, e, vs) = address_taken-returns ty names ps in
          (
            sorted text_le (unique xs),
            ap (λ r. r >>= λ found. ok (sorted text_le (unique found))) e,
            sorted-All text_le (λ j. Visited j s) (unique xs) (unique-All (λ j. Visited j s) xs vs),
          )

  target_class-returns :
      (t : State)
      → t.nodes ≡ s.nodes
      → (j : String) → Visited j s
      → (y : String × Class) × (target_class t j ≡ ok y)
  unfolding target_class class_of
  target_class-returns t same j (x, e) = (
    (j, x),
    ap
        (λ o. elim o as (λ _. Result Failure (String × Class)) [
          | none ↦ err key_error
          | some class ↦ ok (j, class)
        ])
        (ap (class_at j) same ∙ e),
  )

  resolve_site-returns :
      (names : List String)
      → Passed names
      → (name : String) (site : Site) (r : Resolved) → r.0.nodes ≡ s.nodes
      → (t : Resolved) × (resolve_site c names name site r ≡ ok t)
  unfolding resolve_site
  resolve_site-returns names ps name site (u, records) same =
      let (xs, e, vs) = targets_of-returns names ps site.fn_type in
      let (ys, f) =
        traverse-returns (target_class u) xs (All-implies (target_class-returns u same) xs vs) in
      >>=-returns (targets_of c names site.fn_type) _ xs e
        (>>=-returns (traverse (target_class u) xs) _ ys f (_, refl))

  resolve_sites-returns :
      (names : List String)
      → Passed names
      → (name : String) (sites : List Site) (r : Resolved) → r.0.nodes ≡ s.nodes
      → (t : Resolved) × (resolve_sites c names name sites r ≡ ok t)
  unfolding resolve_sites
  resolve_sites-returns names ps name [] r same = (r, refl)
  resolve_sites-returns names ps name (site ∷ sites) r same =
      let (t, e) = resolve_site-returns names ps name site r same in
      >>=-returns (resolve_site c names name site r) _ t e (
        resolve_sites-returns names ps name sites t
          ((resolve_site-Adds c names name site r t e).nodes ∙ same))

  resolve_all-returns :
      (queue : List String)
      → Passed queue
      → (names : List String) → Passed names
      → (r : Resolved) → r.0.nodes ≡ s.nodes
      → (t : Resolved) × (resolve_all c queue names r ≡ ok t)
  unfolding resolve_all
  resolve_all-returns queue qs [] ps r same = (r, refl)
  resolve_all-returns queue qs (u ∷ names) (p, ps) r same =
      let (info, f) = exported-known c roots s h u (h.passed u p) in
      let (t, e) = resolve_sites-returns queue qs u info.indirect r same in
      let (end, g) = >>=-returns (resolve_sites c queue u info.indirect r) _ t e (
        resolve_all-returns queue qs names ps t
          ((resolve_sites-Adds c queue u info.indirect r t e).nodes ∙ same)) in
      (
        end,
        ap
              (λ o. elim o as (λ _. Result Failure Resolved) [
                | none ↦ err key_error
                | some i ↦
                    resolve_sites c queue u i.indirect r >>= λ next. resolve_all c queue names next
              ])
              f
            ∙ g,
      )

All-listed :
    (xs ys : List String)
    → ((x : String) → listed x xs ≡ true → listed x ys ≡ true)
    → All (λ u. listed u ys ≡ true) xs
unfolding listed
All-listed [] ys within = tt
All-listed (x ∷ xs) ys within =
    (within x (ground (arith, eq_iff x x)), All-listed xs ys (λ z e. within z (ground (arith, e))))

-- `run` returns, whatever the roots, if the key of a name is stable and `scan` returned the references
-- of each function: no lookup fails, and the number of functions is fuel enough.
pub run_returns :
    (c : Inputs) (roots : List String)
    → ((name : String) → c.key (c.key name) ≡ c.key name)
    → well_scanned c.functions ≡ true
    → (t : Resolved) × (run c roots ≡ ok t)
unfolding run
run_returns c roots stable scanned =
    let begun = visit_roots c roots start in
    let (s, e) =
      search-returns c stable roots (length c.functions) begun (visit_roots-Searching c roots)
        (omega (arith, visit_roots-work c stable roots start, start-work c stable)) in
    let (h, empty) =
      search-Searching c roots (length c.functions) begun s e (visit_roots-Searching c roots) in
    let passed = All-listed s.finished s.finished (λ x g. g) in
    let (r, f) =
      resolve_all-returns c scanned roots s h s.finished passed s.finished passed (s, []) refl in
    >>=-returns (search c (length c.functions) begun) _ s e
      (>>=-returns (resolve_all c s.finished s.finished (s, [])) _ r f (_, refl))
