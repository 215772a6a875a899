-- ===== src/Schedules/Validate/Caps.antt =====
-- The limits that `validate_response` of scripts/schedules.py reads of a request.
use air2lean.Base.{◌≤◌, String, Option, none, some, ◌≡◌, refl, ap, subst, eq_iff, arith}
use air2lean.Base.Result.{ok, >>=-eq-ok, ok-injective}
use air2lean.Json.{Json, Fields, str, get, natural_of}
use air2lean.Schedules.Request.{Mode, mode_of, enumerate, replay, Limits, limits, nat}
use air2lean.Schedules.Validate.Traces.{nat-number}

-- The text of a mode.
unfoldable pub mode_text : Mode → String
mode_text enumerate = "enumerate"
mode_text replay = "replay"

-- The limits are the numbers and the mode of the request, within the fixed bounds.
pub record IsLimits (request : Fields) (l : Limits) : Type 0 where
  pub fuel : natural_of (get "fuel" request) ≡ some l.fuel
  pub node_cap : natural_of (get "node_cap" request) ≡ some l.node_cap
  pub prefix_cap : natural_of (get "prefix_cap" request) ≡ some l.prefix_cap
  pub mode : get "mode" request ≡ some (str (mode_text l.mode))
  pub bounds : (l.fuel ≤ 100000) × (l.node_cap ≤ 2000) × (l.prefix_cap ≤ 4096)

pub mode_text-mode : (m n : Mode) → some (str (mode_text m)) ≡ some (str (mode_text n)) → m ≡ n
unfolding mode_text
mode_text-mode enumerate enumerate h = refl
mode_text-mode enumerate replay h = absurd cc
mode_text-mode replay enumerate h = absurd cc
mode_text-mode replay replay h = refl

mode_of-text : (v : Option Json) (m : Mode) → mode_of v ≡ ok m → v ≡ some (str (mode_text m))
unfolding mode_of mode_text
mode_of-text none m h = cc
mode_of-text (some (str s)) enumerate h =
    ground (arith, eq_iff s "enumerate", eq_iff s "replay", ap (λ t. some (str t)))
mode_of-text (some (str s)) replay h =
    ground (arith, eq_iff s "enumerate", eq_iff s "replay", ap (λ t. some (str t)))
mode_of-text _ m h = cc

pub limits-IsLimits : (request : Fields) (l : Limits) → limits request ≡ ok l → IsLimits request l
unfolding limits
limits-IsLimits request l h =
    let (fuel, e1, h1) = >>=-eq-ok (nat 100000 (get "fuel" request)) _ h in
    let (nodes, e2, h2) = >>=-eq-ok (nat 2000 (get "node_cap" request)) _ h1 in
    let (prefixes, e3, h3) = >>=-eq-ok (nat 4096 (get "prefix_cap" request)) _ h2 in
    let (mode, e4, h4) = >>=-eq-ok (mode_of (get "mode" request)) _ h3 in
    let (f, fuel_bound) = nat-number 100000 (get "fuel" request) fuel e1 in
    let (n, node_bound) = nat-number 2000 (get "node_cap" request) nodes e2 in
    let (p, prefix_bound) = nat-number 4096 (get "prefix_cap" request) prefixes e3 in
    subst (IsLimits request) (ok-injective h4) (record {
      fuel = f;
      node_cap = n;
      prefix_cap = p;
      mode = mode_of-text (get "mode" request) mode e4;
      bounds = (fuel_bound, node_bound, prefix_bound);
    })
