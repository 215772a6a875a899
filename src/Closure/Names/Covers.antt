-- ===== src/Closure/Names/Covers.antt =====
-- The export filter of `filter_prefixes` in scripts/dependency-closure.py loses no name.
use Prim.Native.Char.{code}
use text.Mathlib.TextEquality.{Char-path}
use air2lean.Base.{
  ℕ, suc, zero, ◌≤◌, ◌<◌, String, Bool, true, false, List, [], ◌∷◌, ◌++◌, ◌≡◌, ap, ◌∙◌, arith, map,
  str_eq, eq_iff, ◌&&◌, not, any, Bool-cases, inl, inr,
}
use air2lean.Json.{listed}
use air2lean.Closure.Names.{
  begins_with, filter_prefix, sorted_set, keep_if, shortest, reduced_prefixes, covered,
}
use air2lean.Closure.Names.Prefixes.{
  size, begins_with_refl, begins_with_trans, filter_prefix-begins, listed-sorted_set,
  listed-append_right, listed-map, listed-keep_if,
}

-- A text that begins another and is not longer is the other.
begins_with-shorter : (p s : String) → str_eq p s ≡ false → begins_with p s ≡ true → size p < size s
unfolding begins_with
begins_with-shorter String.[] String.[] e h = absurd (ground (arith, eq_iff "" ""))
begins_with-shorter String.[] (String.◌∷◌ d s) e h = omega arith
begins_with-shorter (String.◌∷◌ c p) String.[] e h = absurd (ground arith)
begins_with-shorter (String.◌∷◌ c p) (String.◌∷◌ d s) e h = elim (Bool-cases (str_eq p s)) [
  | inr g ↦ ground (arith, begins_with-shorter p s g)
  | inl g ↦
      (let same : code c ≡ code d = ground arith in
        let whole =
          ap (λ x. String.◌∷◌ x p) (Char-path c d same) ∙ ap (String.◌∷◌ d) ((eq_iff p s).0 g) in
        absurd (ground (arith, (eq_iff (String.◌∷◌ c p) (String.◌∷◌ d s)).1 whole)))
]

-- Another prefix that begins `p`.
another :
    (prefixes : List String) (p : String)
    → any (λ q. not (str_eq q p) && begins_with q p) prefixes ≡ true
    → (q : String) × (listed q prefixes ≡ true) × (str_eq q p ≡ false) × (begins_with q p ≡ true)
unfolding listed
another [] p h = absurd (ground arith)
another (x ∷ xs) p h = elim (Bool-cases (not (str_eq x p) && begins_with x p)) [
  | inl e ↦ (x, ground (arith, eq_iff x x), ground (arith, e), ground (arith, e))
  | inr e ↦ (let (q, m, n, b) = another xs p (ground arith) in (q, ground (arith, m), n, b))
]

-- Each prefix is begun by one that no other begins.
reduced :
    (prefixes : List String) (fuel : ℕ) (p : String)
    → size p ≤ fuel
    → listed p prefixes ≡ true
    → (q : String) × (listed q (keep_if (shortest prefixes) prefixes) ≡ true)
      × (begins_with q p ≡ true)
unfolding shortest
reduced prefixes zero p bound m =
    elim (Bool-cases (any (λ q. not (str_eq q p) && begins_with q p) prefixes)) [
      | inl e ↦
          (let (q, _, n, b) = another prefixes p e in
            absurd (omega (arith, begins_with-shorter q p n b)))
      | inr e ↦ (p, listed-keep_if (shortest prefixes) p prefixes m (ap not e), begins_with_refl p)
    ]
reduced prefixes (suc fuel) p bound m =
    elim (Bool-cases (any (λ q. not (str_eq q p) && begins_with q p) prefixes)) [
      | inl e ↦
          (let (q, k, n, b) = another prefixes p e in
            let (r, l, d) =
              reduced prefixes fuel q (omega (arith, begins_with-shorter q p n b)) k in
            (r, l, begins_with_trans r q p d b))
      | inr e ↦ (p, listed-keep_if (shortest prefixes) p prefixes m (ap not e), begins_with_refl p)
    ]

any-listed :
    (f : String → Bool) (x : String) (xs : List String)
    → listed x xs ≡ true
    → f x ≡ true
    → any f xs ≡ true
unfolding listed
any-listed f x [] h g = absurd (ground arith)
any-listed f x (y ∷ ys) h g = ground (arith, any-listed f x ys, eq_iff y x, ap f)

-- A name is covered by the filter that `filter_prefixes` makes for it and other names.
pub filter_prefixes_cover :
    (name : String) (names base_prefixes : List String)
    → listed name names ≡ true
    → covered name (reduced_prefixes names base_prefixes) ≡ true
unfolding covered reduced_prefixes
filter_prefixes_cover name names base_prefixes h =
    let prefixes =
      sorted_set (keep_if (λ p. not (str_eq p "")) base_prefixes ++ map filter_prefix names) in
    let p = filter_prefix name in
    let member =
      listed-sorted_set p _
      ∙ listed-append_right p (keep_if (λ p. not (str_eq p "")) base_prefixes)
          (map filter_prefix names) (listed-map filter_prefix name names h) in
    let (q, m, b) = reduced prefixes (size p) p (omega arith) member in
    any-listed (λ r. begins_with r name) q (keep_if (shortest prefixes) prefixes) m
      (begins_with_trans q p name b (filter_prefix-begins name))
