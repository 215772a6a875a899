-- ===== src/Diff/Floats.antt =====
-- Float leaves of scripts/diff-report.py: `float_leaf` and `leaf_host_kinds`. A leaf is the text
-- "0x<bits>"; masks and shifts by a constant are `%` and `/` by a power of two, and `a << k | b` with
-- `b < 2 ^ k` is `a * 2 ^ k + b`.
pub mod Ulps
use air2lean.Base.{
  ℕ, ◌+◌, ◌-◌, ◌*◌, ◌/◌, ◌%◌, ◌^◌, String, Option, none, some, Bool, true, false, ◌&&◌, ◌||◌, not,
  List, [], ◌∷◌, ◌==◌, leb, if◌then◌else◌, same, all, length, is_empty,
}
use air2lean.Base.Int.{ℤ, pos, neg_ℕ, distance, pos_part, neg_part}
use air2lean.Base.Text.{codes, is_hex, hexadecimal}
use air2lean.Json.{Json, str}

-- Exponent bits, mantissa bits, and whether the integer bit is explicit.
pub record Format : Type 0 where
  pub exp_bits : ℕ
  pub man_bits : ℕ
  pub explicit : Bool

-- `FLOAT_FORMATS`, by the number of hexadecimal digits
unfoldable pub format_of : ℕ → Option Format
format_of digits =
    if digits == 4
    then some (record { exp_bits = 5; man_bits = 10; explicit = false })
    else if digits == 8
    then some (record { exp_bits = 8; man_bits = 23; explicit = false })
    else if digits == 16
    then some (record { exp_bits = 11; man_bits = 52; explicit = false })
    else if digits == 20
    then some (record { exp_bits = 15; man_bits = 64; explicit = true })
    else if digits == 32
    then some (record { exp_bits = 15; man_bits = 112; explicit = false })
    else none

pub data Class : Type 0 where
  nan inf zero finite invalid : Class

pub record Leaf : Type 0 where
  pub digits : ℕ
  pub class : Class
  pub ordinal : ℤ

abbrev signed : Bool → ℕ → ℤ
signed negative n = if negative then neg_ℕ n else pos n

-- The class of an exponent and a mantissa without its integer bit; `top` marks the last exponent.
unfoldable pub class_of : Bool → ℕ → ℕ → Class
class_of top exp man =
    if top
    then (if man == 0 then Class.inf else Class.nan)
    else if exp == 0 && man == 0
    then Class.zero
    else Class.finite

-- Class and signed ordinal of a bit pattern.
unfoldable pub decode_bits : Format → ℕ → Class × ℤ
unfolding class_of
decode_bits f bits =
    let man = bits % 2 ^ f.man_bits in
    let exp = bits / 2 ^ f.man_bits % 2 ^ f.exp_bits in
    let negative = not (bits / 2 ^ (f.man_bits + f.exp_bits) == 0) in
    let top = exp == 2 ^ f.exp_bits - 1 in
    if f.explicit
    then (let width = f.man_bits - 1 in
        let integer = man / 2 ^ width in
        let fraction = man % 2 ^ width in
        (
          (if not (same (integer == 1) (not (exp == 0)))
              then Class.invalid
              else class_of top exp fraction),
          signed negative (exp * 2 ^ width + fraction),
        ))
    else (class_of top exp man, signed negative (exp * 2 ^ f.man_bits + man))

leaf_of : List ℕ → Option Leaf
unfolding decode_bits format_of
leaf_of (z ∷ x ∷ digits) =
    if z == b'0' && x == b'x' && all is_hex digits
    then elim (format_of (length digits)) [
      | none ↦ none
      | some f ↦
          let d = decode_bits f (hexadecimal 0 digits) in
          some (record { digits = length digits; class = d.0; ordinal = d.1 })
    ]
    else none
leaf_of _ = none

unfoldable pub float_leaf : Json → Option Leaf
unfolding leaf_of
float_leaf (str s) = leaf_of (codes s)
float_leaf _ = none

pub data HostKind : Type 0 where
  nan_payload zero_sign libm_ulp : HostKind

abbrev pub libm_ulps : ℕ
libm_ulps = 2

-- The mantissa bits of the wide formats beyond those of f64.
unfoldable pub wide_shift : ℕ → Option ℕ
wide_shift digits = if digits == 20 then some 11 else if digits == 32 then some 60 else none

-- `n % (1 << shift) == 0`, also for a negative `n`
abbrev divides : ℕ → ℤ → Bool
divides shift n = (pos_part n + neg_part n) % 2 ^ shift == 0

-- The distance in ulps; two f64 values in a wide format are measured in f64 ulps.
unfoldable pub ulps : Leaf → Leaf → ℕ
unfolding wide_shift
ulps n m =
    let d = distance n.ordinal m.ordinal in
    elim (wide_shift n.digits) [
      | none ↦ d
      | some shift ↦ if divides shift n.ordinal && divides shift m.ordinal then d / 2 ^ shift else d
    ]

abbrev pub is_nan : Class → Bool
is_nan Class.nan = true
is_nan _ = false

abbrev pub is_zero : Class → Bool
is_zero Class.zero = true
is_zero _ = false

-- `finite` or `zero`
abbrev pub is_number : Class → Bool
is_number Class.finite = true
is_number Class.zero = true
is_number _ = false

unfoldable pub leaf_kinds : Option Leaf → Option Leaf → Option HostKind
unfolding ulps
leaf_kinds (some n) (some m) =
    if not (n.digits == m.digits)
    then none
    else if is_nan n.class && is_nan m.class
    then some nan_payload
    else if is_zero n.class && is_zero m.class
    then some zero_sign
    else if is_number n.class && is_number m.class
    then (if leb (ulps n m) libm_ulps then some libm_ulp else none)
    else none
leaf_kinds _ _ = none

-- The host-difference kind that explains one differing leaf pair: at most one does.
unfoldable pub leaf_host_kinds : Json → Json → Option HostKind
unfolding leaf_kinds float_leaf
leaf_host_kinds native model = leaf_kinds (float_leaf native) (float_leaf model)
