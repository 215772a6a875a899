-- ===== src/Diff/Exploration.antt =====
-- `Exploration` of scripts/diff-report.py: the coverage of schedules, by matching of observed results
-- and by bounded enumeration, in total and for each function of an example (a scope). The records of
-- receipts, which are copied into the summary, are left out; a set of bounds is a list.
pub mod Scopes
use air2lean.Base.{
  ℕ, ◌+◌, ◌-◌, String, Option, none, some, Bool, true, false, ◌&&◌, ◌||◌, not, List, [], ◌∷◌, ◌++◌,
  str_eq, ◌==◌, if◌then◌else◌, leb, as_count, length,
}
use air2lean.Diff.{
  Status, matches, SearchStatus, Search, is_status_capped, witness, exhausted, bounded, capped,
}

-- The key of a scope: the example and the function.
abbrev pub Key : Type 0
Key = String × String

abbrev pub key_eq : Key → Key → Bool
key_eq a b = str_eq a.0 b.0 && str_eq a.1 b.1

-- The counters of a scope.
pub record Scope : Type 0 where
  pub cases : ℕ
  pub exact_matches : ℕ
  pub searched_cases : ℕ
  pub observed_schedules : ℕ
  pub capped_cases : ℕ
  pub bounded_cases : ℕ
  pub receipts : ℕ
  pub enumerated_schedules : ℕ
  pub complete : ℕ
  pub truncated : ℕ
  pub saw_no_result : ℕ

abbrev pub empty_scope : Scope
empty_scope = record {
  cases = 0;
  exact_matches = 0;
  searched_cases = 0;
  observed_schedules = 0;
  capped_cases = 0;
  bounded_cases = 0;
  receipts = 0;
  enumerated_schedules = 0;
  complete = 0;
  truncated = 0;
  saw_no_result = 0;
}

-- The counters of observed-result matching, in total.
pub record Observed : Type 0 where
  pub searched_cases : ℕ
  pub unsearched_cases : ℕ
  pub schedules_explored : ℕ
  pub max_runs : ℕ
  pub status_counts : SearchStatus → ℕ
  pub saw_no_result_cases : ℕ
  pub replayable_witnesses : ℕ
  pub fuel : List ℕ
  pub cap : List ℕ

-- The request and the result of a receipt, and which executions have a complete trace.
pub record Receipt : Type 0 where
  pub key : Key
  pub is_replay : Bool
  pub fuel : ℕ
  pub node_cap : ℕ
  pub prefix_cap : ℕ
  pub runs : ℕ
  pub node_cap_reached : Bool
  pub prefix_cap_reached : Bool
  pub saw_no_result : Bool
  pub truncated : Bool
  pub exploration_complete : Bool
  pub complete_traces : ℕ

-- The counters of bounded enumeration, in total.
pub record Enumeration : Type 0 where
  pub receipts : ℕ
  pub schedules_explored : ℕ
  pub complete : ℕ
  pub truncated : ℕ
  pub node_cap_reached : ℕ
  pub prefix_cap_reached : ℕ
  pub saw_no_result : ℕ
  pub replay_seeds : ℕ
  pub replays : ℕ
  pub fuel : List ℕ
  pub node_cap : List ℕ
  pub prefix_cap : List ℕ

-- The comparison of one input: its function, its status and its search.
pub record Case : Type 0 where
  pub key : Key
  pub input_index : ℕ
  pub status : Status
  pub search : Option Search

pub record Exploration : Type 0 where
  pub observed : Observed
  pub enumeration : Enumeration
  pub scopes : List (Key × Scope)
  pub capped_cases : List Case

-- `scope(ex, fn)`, then a change of its counters: a missing scope is added empty first.
unfoldable pub in_scope : Key → (Scope → Scope) → List (Key × Scope) → List (Key × Scope)
in_scope k change [] = (k, change empty_scope) ∷ []
in_scope k change ((j, s) ∷ scopes) =
    if key_eq j k then (j, change s) ∷ scopes else (j, s) ∷ in_scope k change scopes

abbrev max : ℕ → ℕ → ℕ
max a b = if leb a b then b else a

abbrev status_eq_search : SearchStatus → SearchStatus → Bool
status_eq_search witness witness = true
status_eq_search exhausted exhausted = true
status_eq_search bounded bounded = true
status_eq_search capped capped = true
status_eq_search _ _ = false

-- The counters of the scope of a case.
unfoldable pub scope_case : Status → Option Search → Scope → Scope
scope_case status none s = record s {
  cases = s.cases + 1;
  exact_matches = s.exact_matches + as_count (matches status);
}
scope_case status (some found) s = record s {
  cases = s.cases + 1;
  exact_matches = s.exact_matches + as_count (matches status);
  searched_cases = s.searched_cases + 1;
  observed_schedules = s.observed_schedules + found.runs;
  capped_cases = s.capped_cases + as_count (is_status_capped found.status);
  bounded_cases = s.bounded_cases + as_count found.saw_no_result;
}

-- The total counters of a case.
unfoldable pub observed_case : Option Search → Observed → Observed
observed_case none o = record o { unsearched_cases = o.unsearched_cases + 1 }
observed_case (some found) o = record o {
  searched_cases = o.searched_cases + 1;
  schedules_explored = o.schedules_explored + found.runs;
  max_runs = max o.max_runs found.runs;
  status_counts = λ t. o.status_counts t + as_count (status_eq_search t found.status);
  saw_no_result_cases = o.saw_no_result_cases + as_count found.saw_no_result;
  replayable_witnesses = o.replayable_witnesses + as_count (status_eq_search found.status witness);
  fuel = found.fuel ∷ o.fuel;
  cap = found.cap ∷ o.cap;
}

abbrev is_capped : Option Search → Bool
is_capped none = false
is_capped (some found) = is_status_capped found.status

-- `case`
unfoldable pub add_case : Case → Exploration → Exploration
unfolding in_scope scope_case observed_case
add_case c x = record x {
  observed = observed_case c.search x.observed;
  scopes = in_scope c.key (scope_case c.status c.search) x.scopes;
  capped_cases = if is_capped c.search then x.capped_cases ++ (c ∷ []) else x.capped_cases;
}

unfoldable pub scope_receipt : Receipt → Scope → Scope
scope_receipt r s = record s {
  receipts = s.receipts + 1;
  enumerated_schedules = s.enumerated_schedules + r.runs;
  complete = s.complete + as_count r.exploration_complete;
  truncated = s.truncated + as_count r.truncated;
  saw_no_result = s.saw_no_result + as_count r.saw_no_result;
}

-- `receipt`: a replay is only counted.
unfoldable pub add_receipt : Receipt → Exploration → Exploration
unfolding in_scope scope_receipt
add_receipt r x =
    let e = x.enumeration in
    if r.is_replay
    then record x { enumeration = record e { replays = e.replays + 1 } }
    else record x {
      enumeration = record e {
        receipts = e.receipts + 1;
        schedules_explored = e.schedules_explored + r.runs;
        complete = e.complete + as_count r.exploration_complete;
        truncated = e.truncated + as_count r.truncated;
        node_cap_reached = e.node_cap_reached + as_count r.node_cap_reached;
        prefix_cap_reached = e.prefix_cap_reached + as_count r.prefix_cap_reached;
        saw_no_result = e.saw_no_result + as_count r.saw_no_result;
        replay_seeds = e.replay_seeds + r.complete_traces;
        fuel = r.fuel ∷ e.fuel;
        node_cap = r.node_cap ∷ e.node_cap;
        prefix_cap = r.prefix_cap ∷ e.prefix_cap;
      };
      scopes = in_scope r.key (scope_receipt r) x.scopes;
    }

-- `__init__`
abbrev pub unexplored : Exploration
unexplored = record {
  observed = record {
    searched_cases = 0;
    unsearched_cases = 0;
    schedules_explored = 0;
    max_runs = 0;
    status_counts = λ t. 0;
    saw_no_result_cases = 0;
    replayable_witnesses = 0;
    fuel = [];
    cap = [];
  };
  enumeration = record {
    receipts = 0;
    schedules_explored = 0;
    complete = 0;
    truncated = 0;
    node_cap_reached = 0;
    prefix_cap_reached = 0;
    saw_no_result = 0;
    replay_seeds = 0;
    replays = 0;
    fuel = [];
    node_cap = [];
    prefix_cap = [];
  };
  scopes = [];
  capped_cases = [];
}
