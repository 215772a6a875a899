-- ===== src/Closure/Names/Prefixes.antt =====
-- Prefixes of texts, and the sets of texts of scripts/dependency-closure.py.
use air2lean.Base.{
  All, Any, here, there, sym, ℕ, suc, ◌≤◌, String, Bool, true, false, List, [], ◌∷◌, ◌++◌, ◌≡◌,
  refl, ap, ◌∙◌, arith, map, str_eq, eq_iff, ◌||◌, Bool-cases, inl, inr, if◌then◌else◌,
}
use air2lean.Base.Sort.{insert, sorted, text_le}
use air2lean.Json.{listed}
use air2lean.Closure.Names.{
  begins_with, filter_prefix, marker_starts, markers, unique, sorted_set, keep_if,
}

abbrev pub size : String → ℕ
size String.[] = 0
size (String.◌∷◌ c s) = suc (size s)

pub begins_with_refl : (s : String) → begins_with s s ≡ true
unfolding begins_with
begins_with_refl String.[] = refl
begins_with_refl (String.◌∷◌ c s) = ground (arith, begins_with_refl s)

pub begins_with_trans :
    (p q s : String) → begins_with p q ≡ true → begins_with q s ≡ true → begins_with p s ≡ true
unfolding begins_with
begins_with_trans String.[] q s h g = refl
begins_with_trans (String.◌∷◌ c p) String.[] s h g = absurd (ground arith)
begins_with_trans (String.◌∷◌ c p) (String.◌∷◌ d q) String.[] h g = absurd (ground arith)
begins_with_trans (String.◌∷◌ c p) (String.◌∷◌ d q) (String.◌∷◌ e s) h g =
    ground (arith, begins_with_trans p q s)

begins_with-size : (p s : String) → begins_with p s ≡ true → size p ≤ size s
unfolding begins_with
begins_with-size String.[] s h = omega arith
begins_with-size (String.◌∷◌ c p) String.[] h = absurd (ground arith)
begins_with-size (String.◌∷◌ c p) (String.◌∷◌ d s) h = ground (arith, begins_with-size p s)

pub filter_prefix-begins : (s : String) → begins_with (filter_prefix s) s ≡ true
unfolding begins_with filter_prefix
filter_prefix-begins String.[] = refl
filter_prefix-begins (String.◌∷◌ c s) =
    turn (marker_starts markers (String.◌∷◌ c s)) (filter_prefix-begins s)
  where
    turn :
        (b : Bool)
        → begins_with (filter_prefix s) s ≡ true
        → begins_with (if b then "" else String.◌∷◌ c (filter_prefix s)) (String.◌∷◌ c s) ≡ true
    turn true h = refl
    turn false h = ground (arith, h)

-- Sorting and removing copies keep the members.
listed-insert :
    (x y : String) (ys : List String) → listed x (insert text_le y ys) ≡ (str_eq y x || listed x ys)
unfolding listed insert
listed-insert x y [] = refl
listed-insert x y (z ∷ zs) = turn (text_le y z) (listed-insert x y zs)
  where
    turn :
        (b : Bool)
        → listed x (insert text_le y zs) ≡ (str_eq y x || listed x zs)
        → listed x (if b then y ∷ z ∷ zs else z ∷ insert text_le y zs)
          ≡ (str_eq y x || (str_eq z x || listed x zs))
    turn true h = refl
    turn false h = ground (arith, h)

pub listed-sorted : (x : String) (xs : List String) → listed x (sorted text_le xs) ≡ listed x xs
unfolding listed sorted
listed-sorted x [] = refl
listed-sorted x (y ∷ ys) = ground (arith, listed-insert x y (sorted text_le ys), listed-sorted x ys)

listed-unique : (x : String) (xs : List String) → listed x (unique xs) ≡ listed x xs
unfolding listed unique
listed-unique x [] = refl
listed-unique x (y ∷ ys) = elim (Bool-cases (listed y (unique ys))) [
  | inl e ↦
      ground (arith, e, listed-unique x ys, listed-unique y ys, eq_iff y x, ap (λ z. listed z ys))
  | inr e ↦ ground (arith, e, listed-unique x ys)
]

pub listed-sorted_set : (x : String) (xs : List String) → listed x (sorted_set xs) ≡ listed x xs
unfolding sorted_set
listed-sorted_set x xs = listed-sorted x (unique xs) ∙ listed-unique x xs

pub listed-append :
    (x : String) (xs ys : List String) → listed x (xs ++ ys) ≡ (listed x xs || listed x ys)
unfolding listed
listed-append x [] ys = refl
listed-append x (y ∷ xs) ys = ground (arith, listed-append x xs ys)

pub listed-append_right :
    (x : String) (xs ys : List String) → listed x ys ≡ true → listed x (xs ++ ys) ≡ true
unfolding listed
listed-append_right x [] ys h = h
listed-append_right x (z ∷ xs) ys h = ground (arith, listed-append_right x xs ys h)

pub listed-map :
    (f : String → String) (x : String) (xs : List String)
    → listed x xs ≡ true
    → listed (f x) (map f xs) ≡ true
unfolding listed
listed-map f x [] h = absurd (ground arith)
listed-map f x (y ∷ ys) h = ground (arith, listed-map f x ys, eq_iff y x, eq_iff (f y) (f x), ap f)

pub listed-keep_if :
    (p : String → Bool) (x : String) (xs : List String)
    → listed x xs ≡ true
    → p x ≡ true
    → listed x (keep_if p xs) ≡ true
unfolding listed keep_if
listed-keep_if p x [] h g = absurd (ground arith)
listed-keep_if p x (y ∷ ys) h g = ground (arith, listed-keep_if p x ys, eq_iff y x, ap p)

pub listed-keep_if_source :
    (p : String → Bool) (x : String) (xs : List String)
    → listed x (keep_if p xs) ≡ true
    → listed x xs ≡ true
unfolding listed keep_if
listed-keep_if_source p x [] h = h
listed-keep_if_source p x (y ∷ xs) h = ground (arith, listed-keep_if_source p x xs, h)

pub listed→Any :
    (key : String → String) (name : String) (xs : List String)
    → listed name xs ≡ true
    → Any (λ f. key name ≡ key f) xs
unfolding listed
listed→Any key name [] h = absurd (ground arith)
listed→Any key name (x ∷ xs) h = elim (Bool-cases (str_eq x name)) [
  | inl e ↦ here (ap key (sym ((eq_iff x name).0 e)))
  | inr e ↦ there (listed→Any key name xs (ground arith))
]

pub unique-All {κ} : (P : String → Type κ) (xs : List String) → All P xs → All P (unique xs)
unfolding unique
unique-All P [] tt = tt
unique-All P (x ∷ xs) (p, ps) = turn (listed x (unique xs)) (unique-All P xs ps)
  where
    turn : (b : Bool) → All P (unique xs) → All P (if b then unique xs else x ∷ unique xs)
    turn true qs = qs
    turn false qs = (p, qs)
