-- ===== src/Diff/Floats/Ulps.antt =====
-- Ordinals of the float formats of scripts/diff-report.py, whose differences are distances in ulps.
use air2lean.Base.{
  ℕ, ◌+◌, ◌*◌, ◌/◌, ◌%◌, ◌^◌, ◌<◌, ◌≡◌, Option, none, some, Bool, true, false, arith, ◌==◌,
  if◌then◌else◌, ◌⊎◌, inl, inr, ap, sym, ◌∙◌,
}
use mathlib.Core.Path.{subst}
use air2lean.Base.Int.{pos, neg_ℕ}
use air2lean.Diff.Floats.{Format, format_of, decode_bits}

-- A format with the bits of its parts given.
abbrev plain : ℕ → ℕ → Format
plain e m = record { exp_bits = e; man_bits = m; explicit = false }

positive_plain :
    (e m bits : ℕ)
    → bits / 2 ^ (m + e) ≡ 0
    → bits / 2 ^ m % 2 ^ e * 2 ^ m + bits % 2 ^ m ≡ bits
    → (decode_bits (plain e m) bits).1 ≡ pos bits
unfolding decode_bits
positive_plain e m bits sign whole = ground arith

negative_plain :
    (e m bits n : ℕ)
    → 0 < bits / 2 ^ (m + e)
    → bits / 2 ^ m % 2 ^ e * 2 ^ m + bits % 2 ^ m ≡ n
    → (decode_bits (plain e m) bits).1 ≡ neg_ℕ n
unfolding decode_bits
negative_plain e m bits n sign whole = ground arith

-- What the ordinals of a format are at a pattern without the sign bit: it stands for itself, and
-- the same pattern with the sign bit for its negation.
abbrev pub CountsPattern : Format → ℕ → Type 0
CountsPattern f bits =
    ((decode_bits f bits).1 ≡ pos bits)
    × ((decode_bits f (2 ^ (f.man_bits + f.exp_bits) + bits)).1 ≡ neg_ℕ bits)

abbrev CountsPatterns : Format → Type 0
CountsPatterns f = (bits : ℕ) → bits < 2 ^ (f.man_bits + f.exp_bits) → CountsPattern f bits

f16 : CountsPatterns (plain 5 10)
f16 bits h = (
  positive_plain 5 10 bits (omega arith) (omega arith),
  negative_plain 5 10 (2 ^ 15 + bits) bits (omega arith) (omega arith),
)

f32 : CountsPatterns (plain 8 23)
f32 bits h = (
  positive_plain 8 23 bits (omega arith) (omega arith),
  negative_plain 8 23 (2 ^ 31 + bits) bits (omega arith) (omega arith),
)

f64 : CountsPatterns (plain 11 52)
f64 bits h = (
  positive_plain 11 52 bits (omega arith) (omega arith),
  negative_plain 11 52 (2 ^ 63 + bits) bits (omega arith) (omega arith),
)

f128 : CountsPatterns (plain 15 112)
f128 bits h = (
  positive_plain 15 112 bits (omega arith) (omega arith),
  negative_plain 15 112 (2 ^ 127 + bits) bits (omega arith) (omega arith),
)

-- One row of the table: it is the format, or a later row is.
row :
    (b : Bool) (x f : Format) (rest : Option Format)
    → (if b then some x else rest) ≡ some f
    → (x ≡ f) ⊎ (rest ≡ some f)
row true x f rest h = inl (cc)
row false x f rest h = inr h

explicit_row :
    (f : Format) → record { exp_bits = 15; man_bits = 64; explicit = true } ≡ f → f.explicit ≡ true
explicit_row f h = ap (λ g. g.explicit) (sym h)

counts : {f g : Format} → CountsPatterns f → f ≡ g → CountsPatterns g
counts c h = subst CountsPatterns h c

format_of-CountsPatterns :
    (digits : ℕ) (f : Format) → format_of digits ≡ some f → f.explicit ≡ false → CountsPatterns f
unfolding format_of
format_of-CountsPatterns digits f h e = elim (row (digits == 4) _ f _ h) [
  | inl x ↦ counts f16 x
  | inr h8 ↦ elim (row (digits == 8) _ f _ h8) [
    | inl x ↦ counts f32 x
    | inr h16 ↦ elim (row (digits == 16) _ f _ h16) [
      | inl x ↦ counts f64 x
      | inr h20 ↦ elim (row (digits == 20) _ f _ h20) [
        | inl x ↦ (let never : ◌≡◌ {A = Bool} true false = sym (explicit_row f x) ∙ e in cc)
        | inr h32 ↦ elim (row (digits == 32) _ f none h32) [ inl x ↦ counts f128 x | inr h0 ↦ cc ]
      ]
    ]
  ]
]

-- In every format without an explicit integer bit, the ordinal of a pattern without the sign bit
-- is the pattern, and the ordinal of that pattern with the sign bit is its negation.
pub format_of-CountsPattern :
    (digits : ℕ) (f : Format)
    → format_of digits ≡ some f
    → f.explicit ≡ false
    → (bits : ℕ) → bits < 2 ^ (f.man_bits + f.exp_bits)
    → CountsPattern f bits
format_of-CountsPattern digits f h e bits bound = format_of-CountsPatterns digits f h e bits bound
