-- ===== src/Diff/Config.antt =====
-- The per-example configuration of scripts/diff-report.py: `config_rows`, `pins`, `pin_file` and
-- `host_allowances`. A file is the list of its lines, or `none` where it does not exist. Which code
-- points Python's `str.isspace` accepts is a parameter; a word of more than 4300 digits, which
-- Python's `int` refuses, is read as its number.
pub mod Sound
use air2lean.Base.{
  ℕ, zero, suc, String, Option, none, some, Bool, true, false, ◌&&◌, ◌||◌, not, List, [], ◌∷◌, ◌++◌,
  str_eq, ◌==◌, leb, ltb, if◌then◌else◌, length, is_empty, all, map,
}
use air2lean.Base.Result.{Result, ok, err, ◌>>=◌, ◌>>◌, refuse_if, traverse}
use air2lean.Base.Text.{codes, is_digit, is_hex, is_ident, decimal}
use air2lean.Diff.{Failure, invalid}
use air2lean.Diff.Floats.{HostKind, nan_payload, zero_sign, libm_ulp}
use Prim.Native.Char.{code}

-- The text before the first character that has the code point.
unfoldable pub up_to : ℕ → String → String
up_to mark String.[] = ""
up_to mark (String.◌∷◌ c s) =
    let rest = up_to mark s in if code c == mark then "" else String.◌∷◌ c rest

-- The text behind it; `none` where there is no such character.
unfoldable pub behind : ℕ → String → Option String
behind mark String.[] = none
behind mark (String.◌∷◌ c s) = let rest = behind mark s in if code c == mark then some s else rest

module _ (is_space : ℕ → Bool) where
  -- `lstrip()` and `rstrip()`
  unfoldable pub left_stripped : String → String
  left_stripped String.[] = ""
  left_stripped (String.◌∷◌ c s) =
      let rest = left_stripped s in if is_space (code c) then rest else String.◌∷◌ c s

  unfoldable pub right_stripped : String → String
  right_stripped String.[] = ""
  right_stripped (String.◌∷◌ c s) =
      let rest = right_stripped s in
      if is_space (code c) && is_empty (codes rest) then "" else String.◌∷◌ c rest

  -- The first word of a text without space in front, and what follows it.
  unfoldable pub word : String → String
  word String.[] = ""
  word (String.◌∷◌ c s) = let rest = word s in if is_space (code c) then "" else String.◌∷◌ c rest

  unfoldable pub after_word : String → String
  after_word String.[] = ""
  after_word (String.◌∷◌ c s) =
      let rest = after_word s in if is_space (code c) then String.◌∷◌ c s else rest

  -- `split(None, n)`: at most `n` splits, and the rest as it is.
  unfoldable pub split_words : ℕ → String → List String
  unfolding left_stripped word after_word
  split_words zero s = let t = left_stripped s in if is_empty (codes t) then [] else t ∷ []
  split_words (suc n) s =
      let t = left_stripped s in
      let rest = split_words n (after_word t) in if is_empty (codes t) then [] else word t ∷ rest

  -- `split()`: a word has a character at least.
  unfoldable pub split_all : String → List String
  unfolding split_words
  split_all s = split_words (length (codes s)) s

  -- `config_rows`
  unfoldable pub config_rows : Option (List String) → List String
  unfolding up_to left_stripped right_stripped
  config_rows none = []
  config_rows (some []) = []
  config_rows (some (line ∷ rest)) =
      let row = right_stripped (left_stripped (up_to b'#' line)) in
      let rows = config_rows (some rest) in if is_empty (codes row) then rows else row ∷ rows

-- A range of counts and its reason.
pub record Pin : Type 0 where
  pub lo : ℕ
  pub hi : ℕ
  pub reason : String

-- `{fn: {sha256: (lo, hi, reason)}}`, each in the order of insertion.
abbrev pub FunctionPins : Type 0
FunctionPins = List (String × Pin)

abbrev pub Pins : Type 0
Pins = List (String × FunctionPins)

-- `d.get(key, default)`
unfoldable pub get_or {ℓ} : {A : Type ℓ} → A → String → List (String × A) → A
get_or default key [] = default
get_or default key ((k, v) ∷ d) = if str_eq k key then v else get_or default key d

unfoldable pub has_key {ℓ} : {A : Type ℓ} → String → List (String × A) → Bool
has_key key [] = false
has_key key ((k, v) ∷ d) = str_eq k key || has_key key d

-- `[0-9]+(?:-[0-9]+)?` and the numbers of the text.
unfoldable pub number : String → Option ℕ
number s =
    if not (is_empty (codes s)) && all is_digit (codes s) then some (decimal 0 (codes s)) else none

unfoldable pub number_range : String → Option (ℕ × ℕ)
unfolding number up_to behind
number_range s = elim (number (up_to b'-' s)) [
  | none ↦ none
  | some lo ↦ elim (behind b'-' s) [
    | none ↦ some (lo, lo)
    | some t ↦ elim (number t) [ none ↦ none | some hi ↦ some (lo, hi) ]
  ]
]

-- `SHA256.fullmatch(s)`
unfoldable pub is_sha256 : String → Bool
is_sha256 s = length (codes s) == 64 && all is_hex (codes s)

-- `result.setdefault(fn, {})[sha] = pin`, where `sha` is not a key of it.
unfoldable pub set_pin : String → String → Pin → Pins → Pins
set_pin fn sha pin [] = (fn, (sha, pin) ∷ []) ∷ []
set_pin fn sha pin ((g, own) ∷ d) =
    if str_eq g fn then (g, own ++ (sha, pin) ∷ []) ∷ d else (g, own) ∷ set_pin fn sha pin d

-- The pin of the range that the text gave.
unfoldable pub add_range : String → String → String → Option (ℕ × ℕ) → Pins → Result Failure Pins
unfolding set_pin
add_range fn sha reason none result = err invalid
add_range fn sha reason (some (lo, hi)) result = do
  refuse_if (ltb hi lo) invalid
  ok (set_pin fn sha (record { lo = lo; hi = hi; reason = reason }) result)

unfoldable pub read_pin : List String → Pins → Result Failure Pins
unfolding get_or has_key number_range is_sha256 add_range
read_pin (fn ∷ sha ∷ range ∷ reason ∷ []) result = do
  refuse_if (not (is_ident fn) || not (is_sha256 sha) || has_key sha (get_or [] fn result)) invalid
  add_range fn sha reason (number_range range) result
read_pin _ result = err invalid

unfoldable pub read_pins : (ℕ → Bool) → List String → Pins → Result Failure Pins
unfolding read_pin
read_pins is_space [] result = ok result
read_pins is_space (raw ∷ rows) result =
    read_pin (split_words is_space 3 raw) result >>= read_pins is_space rows

unfoldable pub pins : (ℕ → Bool) → Option (List String) → Result Failure Pins
unfolding read_pins
pins is_space lines = read_pins is_space (config_rows is_space lines) []

-- `pin_file`: the file of the host replaces the shared one.
unfoldable pub pin_file : Option (List String) → Option (List String) → Option (List String)
pin_file none shared = shared
pin_file (some own) shared = some own

abbrev pub Allowances : Type 0
Allowances = List (String × List HostKind)

-- `HOST_KINDS`
unfoldable pub host_kind : String → Option HostKind
host_kind s =
    if str_eq s "nan_payload"
    then some nan_payload
    else if str_eq s "zero_sign"
    then some zero_sign
    else if str_eq s "libm_ulp"
    then some libm_ulp
    else none

-- `split(',')`
unfoldable pub split_commas : ℕ → String → List String
unfolding up_to behind
split_commas zero s = s ∷ []
split_commas (suc n) s = elim (behind b',' s) [
  | none ↦ s ∷ []
  | some t ↦ up_to b',' s ∷ split_commas n t
]

unfoldable pub read_kind : String → Result Failure HostKind
unfolding host_kind
read_kind s = elim (host_kind s) [ none ↦ err invalid | some k ↦ ok k ]

unfoldable pub read_allowance : List String → Allowances → Result Failure Allowances
unfolding read_kind split_commas has_key
read_allowance (fn ∷ names ∷ []) result = do
  refuse_if (not (is_ident fn) || has_key fn result) invalid
  kinds ← traverse read_kind (split_commas (length (codes names)) names)
  ok (result ++ (fn, kinds) ∷ [])
read_allowance _ result = err invalid

unfoldable pub read_allowances : (ℕ → Bool) → List String → Allowances → Result Failure Allowances
unfolding read_allowance
read_allowances is_space [] result = ok result
read_allowances is_space (raw ∷ rows) result =
    read_allowance (split_all is_space raw) result >>= read_allowances is_space rows

unfoldable pub host_allowances : (ℕ → Bool) → Option (List String) → Result Failure Allowances
unfolding read_allowances
host_allowances is_space lines = read_allowances is_space (config_rows is_space lines) []
