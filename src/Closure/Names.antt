-- ===== src/Closure/Names.antt =====
-- The names of scripts/dependency-closure.py: `instance_base`, `filter_prefix`, `panic_handler`, and
-- `filter_prefixes`, which reduces the names to the prefixes of an export filter.
pub mod Prefixes
pub mod Covers
use Prim.Native.Char.{Char, code}
use Prim.Native.String.{◌++◌ as joined}
use air2lean.Base.{
  ℕ, String, Option, none, some, Bool, true, false, ◌&&◌, ◌||◌, not, List, [], ◌∷◌, ◌++◌, map,
  str_eq, if◌then◌else◌, ◌==◌, any,
}
use air2lean.Base.Text.{is_digit}
use air2lean.Base.Sort.{text_le, sorted}
use air2lean.Json.{listed}

-- `s.startswith(p)`
unfoldable pub begins_with : String → String → Bool
begins_with String.[] s = true
begins_with (String.◌∷◌ c p) String.[] = false
begins_with (String.◌∷◌ c p) (String.◌∷◌ d s) = code c == code d && begins_with p s

-- `s.split(sep)[0]`
unfoldable pub before : String → String → String
unfolding begins_with
before sep String.[] = ""
before sep (String.◌∷◌ c s) =
    let rest = before sep s in if begins_with sep (String.◌∷◌ c s) then "" else String.◌∷◌ c rest

unfoldable pub without : String → String → String
without String.[] s = s
without (String.◌∷◌ c p) String.[] = String.[]
without (String.◌∷◌ c p) (String.◌∷◌ d s) = without p s

-- `s.split(sep)[-1]`, where the split has two parts at least; `sep` is `).` or `.`.
unfoldable after_last : String → String → Option String
unfolding begins_with without
after_last sep String.[] = none
after_last sep (String.◌∷◌ c s) = elim (after_last sep s) [
  | some t ↦ some t
  | none ↦ if begins_with sep (String.◌∷◌ c s) then some (without sep (String.◌∷◌ c s)) else none
]

generic_method : String → List String → String
unfolding begins_with after_last
generic_method base [] = base
generic_method base (generic ∷ generics) =
    let rest = generic_method base generics in
    elim (after_last ")." base) [
      | none ↦ rest
      | some method ↦
          if begins_with (joined generic "(") base then joined generic (joined "." method) else rest
    ]

unfoldable pub instance_base : String → String
unfolding before generic_method
instance_base name = generic_method (before "__anon_" name) ("Io.Future" ∷ "Io.Select" ∷ [])

-- `[0-9]+|N` matches at the start of the text.
number_starts : String → Bool
unfolding is_digit
number_starts String.[] = false
number_starts (String.◌∷◌ c s) = is_digit (code c) || code c == b'N'

unfoldable pub marker_starts : List String → String → Bool
unfolding begins_with without number_starts
marker_starts [] s = false
marker_starts (m ∷ ms) s = begins_with m s && number_starts (without m s) || marker_starts ms s

abbrev pub markers : List String
markers = "__anon_" ∷ "__enum_" ∷ "__opaque_" ∷ "__union_" ∷ "__struct_" ∷ []

-- Everything before the first match of `PREFIX_STOP`.
unfoldable pub filter_prefix : String → String
unfolding marker_starts
filter_prefix String.[] = ""
filter_prefix (String.◌∷◌ c s) =
    let rest = filter_prefix s in
    if marker_starts markers (String.◌∷◌ c s) then "" else String.◌∷◌ c rest

abbrev panic_prefix : String
panic_prefix = "debug.FullPanic((function 'defaultPanic'))."

abbrev panic_handlers : List String
panic_handlers =
    "integerOverflow" ∷ "integerOutOfBounds" ∷ "integerPartOutOfBounds" ∷ "shlOverflow"
    ∷ "shrOverflow" ∷ "outOfBounds" ∷ "divideByZero" ∷ "reachedUnreachable"
    ∷ "exactDivisionRemainder" ∷ "unwrapNull" ∷ "unwrapError" ∷ "forLenMismatch"
    ∷ "invalidEnumValue" ∷ "inactiveUnionField" ∷ "corruptSwitch" ∷ "call" ∷ "sentinelMismatch"
    ∷ "copyLenMismatch" ∷ "memcpyLenMismatch" ∷ "memcpyAlias" ∷ "castToNull" ∷ "incorrectAlignment"
    ∷ "startGreaterThanEnd" ∷ []

-- `name.rsplit('.', 1)[-1]`
last_part : String → String
unfolding after_last
last_part name = elim (after_last "." name) [ none ↦ name | some t ↦ t ]

unfoldable pub panic_handler : String → Bool
unfolding begins_with last_part instance_base listed
panic_handler name =
    if str_eq name "debug.defaultPanic"
    then true
    else if not (begins_with panic_prefix name)
    then false
    else listed (instance_base (last_part name)) panic_handlers

-- The elements of a list of texts, each once.
unfoldable pub unique : List String → List String
unfolding listed
unique [] = []
unique (s ∷ ss) = let rest = unique ss in if listed s rest then rest else s ∷ rest

-- `sorted(set(...))`
unfoldable pub sorted_set : List String → List String
unfolding unique sorted
sorted_set ss = sorted text_le (unique ss)

unfoldable pub keep_if : (String → Bool) → List String → List String
keep_if p [] = []
keep_if p (s ∷ ss) = let rest = keep_if p ss in if p s then s ∷ rest else rest

-- No other prefix begins `p`.
unfoldable pub shortest : List String → String → Bool
unfolding begins_with
shortest prefixes p = not (any (λ q. not (str_eq q p) && begins_with q p) prefixes)

-- The first result of `filter_prefixes`.
unfoldable pub reduced_prefixes : List String → List String → List String
unfolding sorted_set keep_if shortest filter_prefix
reduced_prefixes names base_prefixes =
    let prefixes =
      sorted_set (keep_if (λ p. not (str_eq p "")) base_prefixes ++ map filter_prefix names) in
    keep_if (shortest prefixes) prefixes

-- The second result: the prefixes that export a symbol of the models too.
unfoldable pub collisions : List String → List String → List String
unfolding sorted_set keep_if begins_with
collisions reduced symbols = sorted_set (keep_if (λ p. any (begins_with p) symbols) reduced)

unfoldable pub covered : String → List String → Bool
unfolding begins_with
covered name prefixes = any (λ p. begins_with p name) prefixes
