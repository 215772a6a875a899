-- ===== src/Closure/Search/Visited.antt =====
-- What a completed search of scripts/dependency-closure.py has visited.
use air2lean.Base.{ℕ, String, none, false, List, [], ◌∷◌, ◌≡◌, refl, ap, arith, inl, inr, Any, ◌↔◌}
use air2lean.Base.Result.{ok}
use air2lean.Json.{listed}
use air2lean.Closure.{Inputs}
use air2lean.Closure.State.{State, class_of, start}
use air2lean.Closure.Visit.{visit, explain}
use air2lean.Closure.Search.{search, visit_roots}
use air2lean.Closure.Search.Loop.{search_rule}
use air2lean.Closure.Search.Visits.{explain-class_of}
use air2lean.Closure.Search.Extends.{Visited, Extends, visit-Extends, same-Extends, then-Extends}
use air2lean.Closure.Search.Expand.{no-Any, Any-cons, cons-Any}
use air2lean.Closure.Search.Body.{classes_of}
use air2lean.Closure.Search.Reaches.{Reach, root, step, Searching, expand-Searching}

module _ (c : Inputs) where
  explain-Extends : (k : String) (s : State) → Extends c (λ j. ⊥) s (explain k s)
  unfolding explain
  explain-Extends k s =
      same-Extends c (λ j. ⊥) (λ j h. h) s (explain k s) (λ j. explain-class_of k j s) refl refl

  visit_roots-Extends :
      (roots : List String) (s : State)
      → Extends c (λ j. Any (λ r. j ≡ c.key r) roots) s (visit_roots c roots s)
  unfolding visit_roots
  visit_roots-Extends [] s = same-Extends c _ (λ j. no-Any) s s (λ j. refl) refl refl
  visit_roots-Extends (r ∷ roots) s =
      let t = visit c none r "root" none false s in
      let first =
        then-Extends c {R = λ j. j ≡ c.key r} (visit-Extends c none r "root" none false s)
          (explain-Extends (c.key r) t) (λ j h. elim h [ inl e ↦ e | inr z ↦ absurd z ])
          (λ j. inl) in
      then-Extends c first (visit_roots-Extends roots (explain (c.key r) t)) (λ j. cons-Any)
        (λ j. Any-cons)

  module _ (roots : List String) where
    pub visit_roots-Searching : Searching c roots (visit_roots c roots start)
    unfolding class_of listed
    visit_roots-Searching =
        let e = visit_roots-Extends roots start in
        record {
          queued = λ j q. elim (e.queued j q) [ inr g ↦ g | inl g ↦ absurd (ground arith) ];
          found = λ j x. elim (e.found j x) [ inr g ↦ inr g | inl g ↦ absurd (ground arith) ];
          passed = λ j q. absurd (ground (arith, ap (listed j) e.same_finished));
          closed = λ j info q g. absurd (ground (arith, ap (listed j) e.same_finished));
          sound = λ j x g. elim (e.only j x g) [
            | inl k ↦ absurd (ground arith)
            | inr (a, panic, k) ↦ root a
          ];
          judged = λ j x g. elim (e.only j x g) [
            | inl k ↦ absurd (ground arith)
            | inr (a, panic, k) ↦ (panic, k)
          ];
          rooted = λ j a. e.covers j a;
        }

    pub search-Searching :
        (fuel : ℕ) (s t : State)
        → search c fuel s ≡ ok t
        → Searching c roots s
        → Searching c roots t × (t.pending ≡ [])
    search-Searching = search_rule c (Searching c roots) (expand-Searching c roots)

    -- The visited names are closed under dependency, and each is reached.
    pub searched-Visited :
        (fuel : ℕ) (t : State)
        → search c fuel (visit_roots c roots start) ≡ ok t
        → (j : String) → Visited j t ↔ Reach c (classes_of t) roots j
    unfolding listed
    searched-Visited fuel t e j =
        let (h, empty) =
          search-Searching fuel (visit_roots c roots start) t e visit_roots-Searching in
        (λ v. h.sound j v.0 v.1, visited h empty j)
      where
        visited :
            Searching c roots t
            → t.pending ≡ []
            → (j : String) → Reach c (classes_of t) roots j
            → Visited j t
        visited h empty j (root a) = h.rooted j a
        visited h empty j (step {u} {info = info} p x f d) = elim (h.found u x) [
          | inl g ↦ h.closed u info g f j d
          | inr g ↦ absurd (ground (arith, ap (listed u) empty))
        ]
