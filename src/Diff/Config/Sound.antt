-- ===== src/Diff/Config/Sound.antt =====
-- What an accepted file of pins holds (`pins` of scripts/diff-report.py).
use air2lean.Base.{
  ℕ, ◌≤◌, String, Option, none, some, Bool, true, false, ◌||◌, not, List, [], ◌∷◌, ◌++◌, ◌≡◌, refl,
  inl, inr, str_eq, eq_iff, arith, ltb, if◌then◌else◌, Bool-cases, All, All-append, not-ltb→le, sym,
  ◌∙◌, subst,
}
use air2lean.Base.Result.{ok, >>=-eq-ok, refuse_if-eq-ok, ok-injective}
use air2lean.Base.Text.{is_ident}
use air2lean.Diff.{invalid}
use air2lean.Diff.Config.{
  Pin, FunctionPins, Pins, get_or, has_key, number_range, is_sha256, set_pin, add_range, read_pin,
  read_pins, pins,
}

-- No key comes twice.
abbrev pub Distinct {ℓ} : {A : Type ℓ} → List (String × A) → Type 0
Distinct [] = Unit
Distinct ((k, v) ∷ d) = (has_key k d ≡ false) × Distinct d

abbrev pub IsPin : String × Pin → Type 0
IsPin (sha, p) = (is_sha256 sha ≡ true) × (p.lo ≤ p.hi)

abbrev pub IsFunction : String × FunctionPins → Type 0
IsFunction (fn, own) = (is_ident fn ≡ true) × All IsPin own × Distinct own

-- Functions with names, each once, whose pins are ranges of distinct digests.
abbrev pub IsSound : Pins → Type 0
IsSound d = All IsFunction d × Distinct d

has_key-append {ℓ} :
    {A : Type ℓ} (key k : String) (v : A) (d : List (String × A))
    → has_key key (d ++ (k, v) ∷ []) ≡ (has_key key d || str_eq k key)
unfolding has_key
has_key-append key k v [] = ground arith
has_key-append key k v ((j, w) ∷ d) = ground (arith, has_key-append key k v d)

Distinct-append {ℓ} :
    {A : Type ℓ} (k : String) (v : A) (d : List (String × A))
    → has_key k d ≡ false
    → Distinct d
    → Distinct (d ++ (k, v) ∷ [])
unfolding has_key
Distinct-append k v [] h s = (refl, tt)
Distinct-append k v ((j, w) ∷ d) h (fresh, s) =
    ground (arith, has_key-append j k v d, Distinct-append k v d, eq_iff j k, eq_iff k j)

has_key-set_pin :
    (key fn sha : String) (p : Pin) (d : Pins)
    → str_eq fn key ≡ false
    → has_key key (set_pin fn sha p d) ≡ has_key key d
unfolding has_key set_pin
has_key-set_pin key fn sha p [] h = ground arith
has_key-set_pin key fn sha p ((g, own) ∷ d) h = ground (arith, has_key-set_pin key fn sha p d h)

-- One more pin of a digest that the function has no pin for.
set_pin-IsSound :
    (fn sha : String) (p : Pin) (d : Pins)
    → is_ident fn ≡ true
    → IsPin (sha, p)
    → has_key sha (get_or [] fn d) ≡ false
    → IsSound d
    → IsSound (set_pin fn sha p d)
unfolding has_key set_pin get_or
set_pin-IsSound fn sha p [] i q h s = (((i, (q, tt), (refl, tt)), tt), (refl, tt))
set_pin-IsSound fn sha p ((g, own) ∷ d) i q h (((gi, ps, ds), fs), (fresh, outer)) =
    elim (Bool-cases (str_eq g fn)) [
      | inl e ↦
          let new : has_key sha own ≡ false = ground arith in
          let whole : IsSound ((g, own ++ (sha, p) ∷ []) ∷ d) = (
            (
              (
                gi,
                All-append IsPin own ((sha, p) ∷ []) ps (q, tt),
                Distinct-append sha p own new ds,
              ),
              fs,
            ),
            (fresh, outer),
          ) in
          subst
            (λ (b : Bool).
              IsSound (if b then (g, own ++ (sha, p) ∷ []) ∷ d else (g, own) ∷ set_pin fn sha p d))
            (sym e) whole
      | inr e ↦
          let new : has_key sha (get_or [] fn d) ≡ false = ground arith in
          let (fs', outer') = set_pin-IsSound fn sha p d i q new (fs, outer) in
          let other : str_eq fn g ≡ false = ground (arith, eq_iff g fn, eq_iff fn g) in
          let whole : IsSound ((g, own) ∷ set_pin fn sha p d) =
            (((gi, ps, ds), fs'), (has_key-set_pin g fn sha p d other ∙ fresh, outer')) in
          subst
            (λ (b : Bool).
              IsSound (if b then (g, own ++ (sha, p) ∷ []) ∷ d else (g, own) ∷ set_pin fn sha p d))
            (sym e) whole
    ]

either-false :
    (a b c : Bool) → (not a || not b || c) ≡ false → (a ≡ true) × (b ≡ true) × (c ≡ false)
either-false a b c h = ground arith

add_range-IsSound :
    (fn sha reason : String) (range : Option (ℕ × ℕ)) (d done : Pins)
    → is_ident fn ≡ true
    → is_sha256 sha ≡ true
    → has_key sha (get_or [] fn d) ≡ false
    → add_range fn sha reason range d ≡ ok done
    → IsSound d
    → IsSound done
unfolding add_range
add_range-IsSound fn sha reason none d done i q new h s = cc
add_range-IsSound fn sha reason (some (lo, hi)) d done i q new h s =
    let (below, whole) = refuse_if-eq-ok (ltb hi lo) invalid _ h in
    subst IsSound (ok-injective whole)
      (set_pin-IsSound fn sha _ d i (q, not-ltb→le hi lo below) new s)

read_pin-IsSound :
    (parts : List String) (d done : Pins) → read_pin parts d ≡ ok done → IsSound d → IsSound done
unfolding read_pin
read_pin-IsSound [] d done h s = cc
read_pin-IsSound (fn ∷ []) d done h s = cc
read_pin-IsSound (fn ∷ sha ∷ []) d done h s = cc
read_pin-IsSound (fn ∷ sha ∷ range ∷ []) d done h s = cc
read_pin-IsSound (fn ∷ sha ∷ range ∷ reason ∷ []) d done h s =
    let (checks, h1) =
      refuse_if-eq-ok (not (is_ident fn) || not (is_sha256 sha) || has_key sha (get_or [] fn d))
        invalid (add_range fn sha reason (number_range range) d) h in
    let (i, q, new) = either-false (is_ident fn) (is_sha256 sha) _ checks in
    add_range-IsSound fn sha reason (number_range range) d done i q new h1 s
read_pin-IsSound (fn ∷ sha ∷ range ∷ reason ∷ more ∷ parts) d done h s = cc

read_pins-IsSound :
    (is_space : ℕ → Bool) (rows : List String) (d done : Pins)
    → read_pins is_space rows d ≡ ok done
    → IsSound d
    → IsSound done
unfolding read_pins
read_pins-IsSound is_space [] d done h s = subst IsSound (ok-injective h) s
read_pins-IsSound is_space (raw ∷ rows) d done h s =
    let (next, first, rest) = >>=-eq-ok (read_pin _ d) _ h in
    read_pins-IsSound is_space rows next done rest (read_pin-IsSound _ d next first s)

-- An accepted file of pins names each function once, by an identifier, and gives each of its digests,
-- of 64 hexadecimal digits, one range, which is not reversed.
pub pins-IsSound :
    (is_space : ℕ → Bool) (lines : Option (List String)) (d : Pins)
    → pins is_space lines ≡ ok d
    → IsSound d
unfolding pins
pins-IsSound is_space lines d h = read_pins-IsSound is_space _ [] d h (tt, tt)
