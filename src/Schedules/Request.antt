-- ===== src/Schedules/Request.antt =====
-- What `validate_response` of scripts/schedules.py reads of a request, and `nat`.
use air2lean.Base.{
  ℕ, String, Option, none, some, Bool, true, false, not, ◌&&◌, List, [], ◌∷◌, str_eq, if◌then◌else◌,
  leb,
}
use air2lean.Base.Int.{pos, int_eq}
use air2lean.Base.Result.{Result, ok, err, ◌>>=◌}
use air2lean.Json.{
  Json, Items, Fields, null, bool, int, str, nil, cons, get, json_equal, natural_of,
}
use air2lean.Diff.{Failure, invalid}

pub data Mode : Type 0 where
  enumerate replay : Mode

pub record Limits : Type 0 where
  pub mode : Mode
  pub fuel : ℕ
  pub node_cap : ℕ
  pub prefix_cap : ℕ

unfoldable pub nat : ℕ → Option Json → Result Failure ℕ
nat limit v = elim (natural_of v) [
  | none ↦ err invalid
  | some n ↦ if leb n limit then ok n else err invalid
]

unfoldable pub mode_of : Option Json → Result Failure Mode
mode_of (some (str s)) =
    if str_eq s "enumerate"
    then ok enumerate
    else if str_eq s "replay"
    then ok replay
    else err invalid
mode_of _ = err invalid

unfoldable pub limits : Fields → Result Failure Limits
unfolding nat mode_of
limits request = do
  fuel ← nat 100000 (get "fuel" request)
  node_cap ← nat 2000 (get "node_cap" request)
  prefix_cap ← nat 4096 (get "prefix_cap" request)
  mode ← mode_of (get "mode" request)
  ok (record { mode = mode; fuel = fuel; node_cap = node_cap; prefix_cap = prefix_cap })

-- `d.get(k)`, which is None where the key is missing
abbrev pub or_null : Option Json → Json
or_null none = null
or_null (some v) = v

-- Each of the keys has the same value in the response.
unfoldable pub echoes : List String → Fields → Fields → Bool
echoes [] response request = true
echoes (k ∷ ks) response request =
    json_equal (or_null (get k response)) (or_null (get k request)) && echoes ks response request

-- `type(d.get('schema')) is int and d['schema'] == 1 and d.get('qualified') is False`
unfoldable pub is_plain : Fields → Bool
is_plain fs = is_one (get "schema" fs) && is_false (get "qualified" fs)
  where
    is_one : Option Json → Bool
    is_one (some (int n)) = int_eq n (pos 1)
    is_one _ = false

    is_false : Option Json → Bool
    is_false (some (bool b)) = not b
    is_false _ = false

-- A list of numbers as a decoded list.
unfoldable pub number_items : List ℕ → Items
number_items [] = nil
number_items (n ∷ ns) = cons (int (pos n)) (number_items ns)
