-- ===== src/Tests/Exploration.antt =====
-- The coverage of schedules of scripts/diff-report.py at a concrete run.
use air2lean.Base.{refl, none, some, true, false, List, [], ◌∷◌}
use air2lean.Diff.{Status, Search, witness}
use air2lean.Diff.Exploration.{Key, Receipt}
use air2lean.Diff.Exploration.Scopes.{Event, compared, enumerated, explore, scope_at, blockers}
use air2lean.Diff.Exploration.Scopes.Counted.{cases_in, receipts_in}
use air2lean.Diff.Exploration.Scopes.Clear.{IsClear, blockers-IsClear}

abbrev load : Key
load = ("atomics", "load")

abbrev store : Key
store = ("atomics", "store")

abbrev found : Search
found = record {
  prefix = 0 ∷ [];
  options = 2 ∷ [];
  runs = 3;
  fuel = 10;
  cap = 8;
  status = witness;
  saw_no_result = false;
}

abbrev enumeration : Receipt
enumeration = record {
  key = load;
  is_replay = false;
  fuel = 10;
  node_cap = 100;
  prefix_cap = 100;
  runs = 6;
  node_cap_reached = false;
  prefix_cap_reached = false;
  saw_no_result = false;
  truncated = false;
  exploration_complete = true;
  complete_traces = 6;
}

-- A matching case of one function, its enumeration, and a mismatch of another function.
abbrev three_events : List Event
three_events =
    compared
      (record { key = load; input_index = 0; status = Status.value_match; search = some found })
    ∷ enumerated enumeration
    ∷ compared (record { key = store; input_index = 0; status = Status.mismatch; search = none })
    ∷ []

blockers-IsClear_example : IsClear (cases_in load three_events) (receipts_in load three_events)
unfolding explore blockers scope_at air2lean.Diff.matches
blockers-IsClear_example = blockers-IsClear load three_events refl
