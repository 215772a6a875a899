-- ===== src/Diff/Run/Explored.antt =====
-- The exploration that `compare_summary` of scripts/diff-report.py reports: of its receipts, then of
-- the rows of its report.
use air2lean.Base.{
  ℕ, ◌≡◌, refl, ap, ◌∙◌, sym, String, Option, Bool, ◌||◌, List, [], ◌∷◌, ◌++◌, map, subst,
}
use air2lean.Base.Result.{ok, refuse_if-eq-ok, ok-injective}
use air2lean.Json.{Json, listed}
use air2lean.Diff.{Policy, invalid}
use air2lean.Diff.Exploration.{Key, Exploration, unexplored}
use air2lean.Diff.Exploration.Scopes.{
  Event, compared, enumerated, record_event, explore, scope_at, blockers,
}
use air2lean.Diff.Exploration.Scopes.Counted.{cases_in, receipts_in}
use air2lean.Diff.Exploration.Scopes.Clear.{IsClear, blockers-IsClear}
use air2lean.Diff.Run.{Compared, Row, row, State, count_case, Violation}
use air2lean.Diff.Run.Functions.{violate}
use air2lean.Diff.Run.Keeps.{compare_examples-keeps}
use air2lean.Diff.Run.Selection.{Directory, Skipped}
use air2lean.Diff.Run.Summary.{
  Call, Example, Loaded, started, add_receipts, Outcome, outcome, summary_of, compare_summary,
}
use air2lean.Diff.Run.Report.{compare_summary-Ended}

unfoldable pub event_of : Row → Event
event_of r = compared (record {
  key = (r.example, r.function);
  input_index = r.input_index;
  status = r.case.status;
  search = r.case.search;
})

-- The events of a comparison: its receipts, and the cases of its rows.
unfoldable pub events : List Loaded → List Row → List Event
events receipts rows = map (λ l. enumerated l.receipt) receipts ++ map event_of rows

explore-append :
    (es fs : List Event) (x : Exploration) → explore (es ++ fs) x ≡ explore fs (explore es x)
unfolding explore
explore-append [] fs x = refl
explore-append (e ∷ es) fs x = explore-append es fs (record_event e x)

map-append :
    (rows more : List Row) → map event_of (rows ++ more) ≡ map event_of rows ++ map event_of more
map-append [] more = refl
map-append (r ∷ rows) more = ap (◌∷◌ (event_of r)) (map-append rows more)

-- The exploration is that of the rows, from the one at the start.
IsExplored : Exploration → State → Type 0
IsExplored x s = s.exploration ≡ explore (map event_of s.rows) x

count_case-IsExplored :
    (x : Exploration) (example fn : String) (index : ℕ) (c : Compared) (s : State)
    → IsExplored x s
    → IsExplored x (count_case example fn index c s)
unfolding IsExplored count_case row event_of explore record_event
count_case-IsExplored x example fn index c s h =
    let r = row example fn index c in
    ap (record_event (event_of r)) h
    ∙ sym (explore-append (map event_of s.rows) (event_of r ∷ []) x)
    ∙ ap (λ es. explore es x) (sym (map-append s.rows (r ∷ [])))

violate-IsExplored :
    (x : Exploration) (o : Bool) (v : Violation) (s : State)
    → IsExplored x s
    → IsExplored x (violate o v s)
unfolding IsExplored violate
violate-IsExplored x o v s h = h

started-IsExplored : (x : Exploration) → IsExplored x (started x)
unfolding IsExplored explore
started-IsExplored x = refl

add_receipts-explore :
    (receipts : List Loaded) (paths digests : List String) (x y : Exploration)
    → add_receipts receipts paths digests x ≡ ok y
    → explore (map (λ l. enumerated l.receipt) receipts) x ≡ y
unfolding add_receipts explore record_event
add_receipts-explore [] paths digests x y h = ok-injective h
add_receipts-explore (r ∷ rs) paths digests x y h =
    let (_, rest) =
      refuse_if-eq-ok (listed r.resolved paths || listed r.digest digests) invalid _ h in
    add_receipts-explore rs (r.resolved ∷ paths) (r.digest ∷ digests) _ y rest

outcome-explores :
    (call : Call) (skipped : List Skipped) (receipts : List Loaded) (x : Exploration) (s : State)
    → explore (map (λ l. enumerated l.receipt) receipts) unexplored ≡ x
    → IsExplored x s
    → (outcome call skipped s).summary.exploration
      ≡ explore (events receipts (outcome call skipped s).rows) unexplored
unfolding IsExplored outcome summary_of events
outcome-explores call skipped receipts x s start h =
    h
    ∙ ap (explore (map event_of s.rows)) (sym start)
    ∙ sym
        (explore-append (map (λ l. enumerated l.receipt) receipts) (map event_of s.rows) unexplored)

module _ (is_space : ℕ → Bool) (decode : String → Option Json) (sha256 : String → String)
    (panics : Policy) (call : Call) (directories : List Directory) (files : String → Example)
    (receipts : List Loaded) (o : Outcome) where
  -- The exploration in the summary of a comparison that returned is that of its receipts, followed by
  -- the cases of the rows of its report, in order.
  pub compare_summary-explores :
      compare_summary is_space decode sha256 panics call directories files receipts ≡ ok o
      → o.summary.exploration ≡ explore (events receipts o.rows) unexplored
  compare_summary-explores h =
      let ended =
        compare_summary-Ended is_space decode sha256 panics call directories files receipts o h in
      let x = ended.explored in
      let start = add_receipts-explore receipts [] [] unexplored x ended.receipts_are in
      let explored =
        compare_examples-keeps (IsExplored x) (violate-IsExplored x) is_space decode sha256 panics
          (λ at lines c example fn index s e k. count_case-IsExplored x example fn index c s k) call
          files call.examples (started x) ended.done ended.ran (started-IsExplored x) in
      subst (λ (p : Outcome). p.summary.exploration ≡ explore (events receipts p.rows) unexplored)
        ended.is_outcome (outcome-explores call ended.skipped receipts x ended.done start explored)

  -- A function whose scope has no blockers in the summary of a comparison that returned has a row in
  -- the report, all its rows match, without a capped search or one that saw a run without a result,
  -- and none of its enumerated receipts is truncated or saw one.
  pub compare_summary-IsClear :
      (k : Key)
      → compare_summary is_space decode sha256 panics call directories files receipts ≡ ok o
      → blockers (scope_at k o.summary.exploration.scopes) ≡ []
      → IsClear (cases_in k (events receipts o.rows)) (receipts_in k (events receipts o.rows))
  compare_summary-IsClear k h none_blocks = blockers-IsClear k (events receipts o.rows) (
      ap (λ (x : Exploration). blockers (scope_at k x.scopes)) (sym (compare_summary-explores h))
      ∙ none_blocks)
