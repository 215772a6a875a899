-- ===== src/Schedules/Replay/Holds.antt =====
-- What the replay request of scripts/schedules.py holds, and equality of decoded numbers and texts.
use air2lean.Base.{
  ℕ, String, some, Bool, true, false, List, [], ◌∷◌, ◌≡◌, refl, ap, ◌∙◌, map, str_eq, eq_iff,
  Bool-cases, inl, inr, arith, and-eq-true, ◌==◌, ==_iff,
}
use air2lean.Base.Int.{ℤ, pos}
use air2lean.Json.{Json, Fields, int, str, arr, obj, end, field, get, json_equal, items_equal}
use air2lean.Schedules.Equality.{py_equal, py_items_equal, number_equal}
use air2lean.Schedules.Request.{number_items}
use air2lean.Schedules.{Execution}
use air2lean.Schedules.Replay.{put, expected, replay_request}

pub get-put : (k : String) (v : Json) (fs : Fields) → get k (put k v fs) ≡ some v
unfolding get put
get-put k v end = ground (arith, eq_iff k k)
get-put k v (field j w fs) = elim (Bool-cases (str_eq j k)) [
  | inl e ↦ ground arith
  | inr e ↦ ground (arith, get-put k v fs)
]

pub get-put_other :
    (j k : String) (v : Json) (fs : Fields) → str_eq k j ≡ false → get j (put k v fs) ≡ get j fs
unfolding get put
get-put_other j k v end d = ground arith
get-put_other j k v (field i w fs) d = elim (Bool-cases (str_eq i k)) [
  | inl e ↦ ground (arith, eq_iff i k, ap (λ n. str_eq n j))
  | inr e ↦ elim (Bool-cases (str_eq i j)) [
    | inl g ↦ ground arith
    | inr g ↦ ground (arith, get-put_other j k v fs d)
  ]
]

-- Lists of numbers that compare equal are equal.
pub number_items-equal :
    (xs ys : List ℕ) → items_equal (number_items xs) (number_items ys) ≡ true → xs ≡ ys
unfolding items_equal json_equal number_items
number_items-equal [] [] h = refl
number_items-equal [] (y ∷ ys) h = cc
number_items-equal (x ∷ xs) [] h = cc
number_items-equal (x ∷ xs) (y ∷ ys) h =
    (let (same, rest) = and-eq-true (x == y) (items_equal (number_items xs) (number_items ys)) h in
      ap (λ n. n ∷ xs) ((==_iff x y).0 same) ∙ ap (λ ns. y ∷ ns) (number_items-equal xs ys rest))

module _ (float_is : Bool → ℕ → ℤ → Bool) where
  pub number_items-py_equal :
      (xs ys : List ℕ)
      → py_items_equal float_is (number_items xs) (number_items ys) ≡ true
      → xs ≡ ys
  unfolding py_items_equal py_equal number_equal number_items
  number_items-py_equal [] [] h = refl
  number_items-py_equal [] (y ∷ ys) h = cc
  number_items-py_equal (x ∷ xs) [] h = cc
  number_items-py_equal (x ∷ xs) (y ∷ ys) h =
      (let (same, rest) =
          and-eq-true (x == y) (py_items_equal float_is (number_items xs) (number_items ys)) h in
        ap (λ n. n ∷ xs) ((==_iff x y).0 same)
        ∙ ap (λ ns. y ∷ ns) (number_items-py_equal xs ys rest))

pub str-equal : (s t : String) → json_equal (str s) (str t) ≡ true → s ≡ t
unfolding json_equal
str-equal s t h = (eq_iff s t).0 h

pub arr-equal :
    (xs ys : List ℕ) → json_equal (arr (number_items xs)) (arr (number_items ys)) ≡ true → xs ≡ ys
unfolding json_equal
arr-equal xs ys h = number_items-equal xs ys h

-- What the request holds.
pub request-prefix :
    (original : Fields) (e : Execution)
    → get "prefix" (replay_request original e) ≡ some (arr (number_items (map (λ s. s.0) e.steps)))
unfolding replay_request
request-prefix original e =
    get-put_other "prefix" "expected" (obj (expected e))
      (put "prefix" (arr (number_items (map (λ s. s.0) e.steps)))
        (put "node_cap" (int (pos 1)) (put "mode" (str "replay") original)))
      refl
    ∙ get-put "prefix" (arr (number_items (map (λ s. s.0) e.steps)))
        (put "node_cap" (int (pos 1)) (put "mode" (str "replay") original))

pub request-expected :
    (original : Fields) (e : Execution)
    → get "expected" (replay_request original e) ≡ some (obj (expected e))
unfolding replay_request
request-expected original e = get-put "expected" (obj (expected e)) (
    put "prefix" (arr (number_items (map (λ s. s.0) e.steps)))
      (put "node_cap" (int (pos 1)) (put "mode" (str "replay") original)))

pub request-mode :
    (original : Fields) (e : Execution)
    → get "mode" (replay_request original e) ≡ some (str "replay")
unfolding replay_request
request-mode original e =
    let moded = put "mode" (str "replay") original in
    let capped = put "node_cap" (int (pos 1)) moded in
    let prefixed = put "prefix" (arr (number_items (map (λ s. s.0) e.steps))) capped in
    get-put_other "mode" "expected" (obj (expected e)) prefixed refl
    ∙ get-put_other "mode" "prefix" (arr (number_items (map (λ s. s.0) e.steps))) capped refl
    ∙ get-put_other "mode" "node_cap" (int (pos 1)) moded refl
    ∙ get-put "mode" (str "replay") original

-- A list of pairs is determined by its two columns.
pub columns :
    (xs ys : List (ℕ × ℕ))
    → map (λ s. s.0) xs ≡ map (λ s. s.0) ys
    → map (λ s. s.1) xs ≡ map (λ s. s.1) ys
    → xs ≡ ys
columns [] [] h g = refl
columns [] (y ∷ ys) h g = cc
columns (x ∷ xs) [] h g = cc
columns ((a, b) ∷ xs) ((c, d) ∷ ys) h g = ground (arith, columns xs ys)
