-- ===== src/Diff/Observe/Consistent.antt =====
-- What an accepted observation of scripts/diff-report.py guarantees.
use air2lean.Base.{
  ℕ, ◌≤◌, ◌<◌, String, ◌≡◌, Option, none, some, true, false, ◌&&◌, ◌||◌, not, ◌==◌, leb, arith, sym,
  ==_iff, implies, not-false,
}
use mathlib.Core.Path.{subst}
use air2lean.Base.Result.{ok, ◌>>=◌, refuse_if-eq-ok, >>=-eq-ok, ok-injective}
use air2lean.Json.{Json, null, bool, obj, get}
use air2lean.Diff.{Kind, kind_eq, Search, is_status_capped, is_status_bounded}
use air2lean.Diff.Wire.{Wire}
use air2lean.Diff.Kinds.{Side, native, model, allowed, fits}
use air2lean.Diff.Observe.{
  check_search, read_search, no_search, search_of, bound_kind, checked, observation,
}

-- The search metadata agree with one another and with the kind.
pub record IsSearch (kind : Kind) (s : Search) : Type 0 where
  pub ran : 0 < s.runs
  pub within : s.runs ≤ s.cap
  pub bounded_saw : is_status_bounded s.status ≡ true → s.saw_no_result ≡ true
  pub capped_full : is_status_capped s.status ≡ true → s.runs ≡ s.cap
  pub cap_kind : kind_eq kind Kind.search_cap ≡ true → is_status_capped s.status ≡ true

abbrev pub SearchFits : Side → Kind → Option Search → Type 0
SearchFits side kind none = kind_eq kind Kind.search_cap ≡ false
SearchFits native kind (some s) = ⊥
SearchFits model kind (some s) = IsSearch kind s

-- The kind is one that the side produces, the result line has the form that it wants, and the
-- search metadata come from the model and fit.
pub record IsConsistent (side : Side) (w : Wire) (kind : Kind) (search : Option Search)
    : Type 0 where
  pub by_side : allowed side kind ≡ true
  pub of_form : fits kind w ≡ true
  pub searched : SearchFits side kind search

check_search-IsSearch :
    (kind : Kind) (s : Search) {t : Search} → check_search kind s ≡ ok t → (t ≡ s) × IsSearch kind s
unfolding check_search
check_search-IsSearch kind s h =
    let (a, h₁) = refuse_if-eq-ok (s.runs == 0 || not (leb s.runs s.cap)) _ _ h in
    let (b, h₂) = refuse_if-eq-ok (is_status_bounded s.status && not s.saw_no_result) _ _ h₁ in
    let (c, h₃) = refuse_if-eq-ok (is_status_capped s.status && not (s.runs == s.cap)) _ _ h₂ in
    let (d, h₄) =
      refuse_if-eq-ok (kind_eq kind Kind.search_cap && not (is_status_capped s.status)) _ _ h₃ in
    (
      sym (ok-injective h₄),
      record {
        ran = runs_pos s.runs s.cap a;
        within = runs_within s.runs s.cap a;
        bounded_saw = implies _ _ b;
        capped_full = λ e. (==_iff s.runs s.cap).0 (implies _ _ c e);
        cap_kind = implies _ _ d;
      },
    )
  where
    runs_pos : (m n : ℕ) → (m == 0 || not (leb m n)) ≡ false → 0 < m
    runs_pos m n e = ground arith

    runs_within : (m n : ℕ) → (m == 0 || not (leb m n)) ≡ false → m ≤ n
    runs_within m n e = ground arith

no_search-SearchFits :
    (side : Side) (kind : Kind) {found : Option Search}
    → no_search kind ≡ ok found
    → SearchFits side kind found
unfolding no_search
no_search-SearchFits side kind h =
    let (a, e) = refuse_if-eq-ok (kind_eq kind Kind.search_cap) _ _ h in
    subst (SearchFits side kind) (ok-injective e) a

read-SearchFits :
    (kind : Kind) (v : Json) {found : Option Search}
    → (do s ← read_search v; s ← check_search kind s; ok (some s)) ≡ ok found
    → SearchFits model kind found
read-SearchFits kind v h =
    let (s, _, h₁) = >>=-eq-ok (read_search v) _ h in
    let (t, checked, h₂) = >>=-eq-ok (check_search kind s) _ h₁ in
    let (t_is, fine) = check_search-IsSearch kind s checked in
    subst (SearchFits model kind) (ok-injective h₂) (subst (IsSearch kind) (sym t_is) fine)

search_of-SearchFits :
    (side : Side) (kind : Kind) (v : Option Json) {found : Option Search}
    → search_of side kind v ≡ ok found
    → SearchFits side kind found
unfolding search_of
search_of-SearchFits side kind none h = no_search-SearchFits side kind h
search_of-SearchFits side kind (some null) h = no_search-SearchFits side kind h
search_of-SearchFits native kind (some (bool b)) h = cc
search_of-SearchFits native kind (some _) h = cc
search_of-SearchFits model kind (some v) h = read-SearchFits kind v h

checked-IsConsistent :
    (side : Side) (kind : Kind) (legacy : Wire) (v : Option Json) {p : Kind × Option Search}
    → checked side kind legacy v ≡ ok p
    → IsConsistent side legacy p.0 p.1
unfolding checked
checked-IsConsistent side kind legacy v h =
    let (by_side, h₁) = refuse_if-eq-ok (not (allowed side kind)) _ _ h in
    let (of_form, h₂) = refuse_if-eq-ok (not (fits kind legacy)) _ _ h₁ in
    let (found, searched, h₃) = >>=-eq-ok (search_of side kind v) _ h₂ in
    let good : IsConsistent side legacy kind found = record {
      by_side = not-false _ by_side;
      of_form = not-false _ of_form;
      searched = search_of-SearchFits side kind v searched;
    } in
    subst (λ (q : Kind × Option Search). IsConsistent side legacy q.0 q.1) (ok-injective h₃) good

-- An accepted observation has a kind that its side produces, a result line of the form that the
-- kind wants, and search metadata only from the model: a search that ran at least once and at most
-- up to its cap, that a bounded status marks as having seen no result, that used up its cap when it
-- was capped, and that was capped when the observation is a search cap.
pub observation-IsConsistent :
    (decode : String → Option Json) (line : Json) (legacy : Wire) (side : Side) {kind : Kind}
    {found : Option Search}
    → observation decode line legacy side ≡ ok (kind, found)
    → IsConsistent side legacy kind found
unfolding observation
observation-IsConsistent decode (obj fs) legacy side h =
    let (kind, _, e) = >>=-eq-ok (bound_kind decode fs legacy) _ h in
    checked-IsConsistent side kind legacy (get "search" fs) e
observation-IsConsistent decode null legacy side h = cc
observation-IsConsistent decode _ legacy side h = cc
