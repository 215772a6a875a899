-- ===== src/Json.antt =====
-- Decoded JSON values (`decode` of scripts/diff-report.py) and their exact equality, `json_equal`.
-- A `dict` is its list of fields in order; a finite float is its sign and its 63 other bits, and
-- two of them are the same number when the bits agree or both are zero.
pub mod Equality
use air2lean.Base.{
  ℕ, String, Option, none, some, Bool, true, false, ◌&&◌, ◌||◌, not, str_eq, same, ◌==◌,
  if◌then◌else◌, List, [], ◌∷◌,
}
use air2lean.Base.Int.{ℤ, pos, int_eq}

mutual
  pub data Json : Type 0 where
    null : Json
    bool : Bool → Json
    int : ℤ → Json
    float : Bool → ℕ → Json
    str : String → Json
    arr : Items → Json
    obj : Fields → Json

  pub data Items : Type 0 where
    nil : Items
    cons : Json → Items → Items

  pub data Fields : Type 0 where
    end : Fields
    field : String → Json → Fields → Fields

-- `d.get(k)`
unfoldable pub get : String → Fields → Option Json
get k end = none
get k (field j v fs) = if str_eq j k then some v else get k fs

-- `k in d`
unfoldable pub has : String → Fields → Bool
has k end = false
has k (field j v fs) = str_eq j k || has k fs

-- Every key of the first is a key of the second.
unfoldable pub keys_within : Fields → Fields → Bool
keys_within end gs = true
keys_within (field k v fs) gs = has k gs && keys_within fs gs

-- `no_duplicates` accepts the pairs of an object when no key comes twice.
unfoldable pub no_duplicates : Fields → Bool
no_duplicates end = true
no_duplicates (field k v fs) = not (has k fs) && no_duplicates fs

-- `decode` applies the check to every object of the text.
unfoldable mutual
  pub decoded : Json → Bool
  decoded (arr xs) = decoded_items xs
  decoded (obj fs) = no_duplicates fs && decoded_fields fs
  decoded _ = true

  pub decoded_items : Items → Bool
  decoded_items nil = true
  decoded_items (cons x xs) = decoded x && decoded_items xs

  pub decoded_fields : Fields → Bool
  decoded_fields end = true
  decoded_fields (field k v fs) = decoded v && decoded_fields fs

unfoldable mutual
  pub json_equal : Json → Json → Bool
  json_equal null null = true
  json_equal (bool a) (bool b) = same a b
  json_equal (int a) (int b) = int_eq a b
  json_equal (float s a) (float t b) = a == b && same s t
  json_equal (str s) (str t) = str_eq s t
  json_equal (arr xs) (arr ys) = items_equal xs ys
  json_equal (obj fs) (obj gs) = keys_within fs gs && keys_within gs fs && fields_equal fs gs
  json_equal _ _ = false

  pub items_equal : Items → Items → Bool
  items_equal nil nil = true
  items_equal (cons x xs) (cons y ys) = json_equal x y && items_equal xs ys
  items_equal _ _ = false

  -- `all(json_equal(left[k], right[k]) for k in left)`
  pub fields_equal : Fields → Fields → Bool
  fields_equal end gs = true
  fields_equal (field k v fs) gs =
      (elim (get k gs) [ none ↦ false | some w ↦ json_equal v w ]) && fields_equal fs gs

-- `s in names`, for a collection of strings
unfoldable pub listed : String → List String → Bool
listed s [] = false
listed s (n ∷ ns) = str_eq n s || listed s ns

-- The keys of the object are among the names.
unfoldable pub keys_among : List String → Fields → Bool
unfolding listed
keys_among names end = true
keys_among names (field k v fs) = listed k names && keys_among names fs

-- The strings of a list that holds nothing else.
unfoldable pub strings_of : Items → Option (List String)
strings_of nil = some []
strings_of (cons (str s) xs) = elim (strings_of xs) [ none ↦ none | some ss ↦ some (s ∷ ss) ]
strings_of (cons _ xs) = none

-- The numbers of a list of integers that are not negative: `type(n) is int and n >= 0`.
unfoldable pub naturals_of : Items → Option (List ℕ)
naturals_of nil = some []
naturals_of (cons (int (pos n)) xs) = elim (naturals_of xs) [
  | none ↦ none
  | some ns ↦ some (n ∷ ns)
]
naturals_of (cons _ xs) = none

unfoldable pub natural_of : Option Json → Option ℕ
natural_of (some (int (pos n))) = some n
natural_of _ = none
