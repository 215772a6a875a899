-- ===== src/Json/Equality.antt =====
-- `json_equal` is an equality of decoded values: it forgets the order of fields and nothing else.
use text.Mathlib.TextPositions.{eq_refl}
use air2lean.Base.{
  ◌≡◌, refl, String, some, Bool, true, false, arith, eq_iff, ==-refl, same, and-eq-true,
}
use air2lean.Base.Int.{int_eq_refl}
use air2lean.Json.{
  Json, Items, Fields, null, bool, int, float, str, arr, obj, nil, cons, end, field, get, has,
  keys_within, no_duplicates, decoded, decoded_items, decoded_fields, json_equal, items_equal,
  fields_equal,
}

-- Each field of the first object is the one that the second has under its key.
abbrev Holds : Fields → Fields → Type 0
Holds end gs = Unit
Holds (field k v fs) gs = (get k gs ≡ some v) × Holds fs gs

has-get : (k : String) (fs : Fields) (v : Json) → get k fs ≡ some v → has k fs ≡ true
unfolding get has
has-get k end v h = cc
has-get k (field j w fs) v h = ground (arith, has-get k fs v)

keys_within-of_Holds : (fs gs : Fields) → Holds fs gs → keys_within fs gs ≡ true
unfolding keys_within
keys_within-of_Holds end gs h = refl
keys_within-of_Holds (field k v fs) gs h =
    ground (arith, has-get k gs v h.0, keys_within-of_Holds fs gs h.1)

-- A new field in front hides no other when its key is new.
Holds-cons :
    (fs gs : Fields) (k : String) (v : Json)
    → has k fs ≡ false
    → Holds fs gs
    → Holds fs (field k v gs)
unfolding get has
Holds-cons end gs k v fresh h = tt
Holds-cons (field j w fs) gs k v fresh h =
    (ground (arith, eq_iff k j, eq_iff j k, h.0), Holds-cons fs gs k v (ground arith) h.1)

Holds-refl : (fs : Fields) → no_duplicates fs ≡ true → Holds fs fs
unfolding no_duplicates get
Holds-refl end h = tt
Holds-refl (field k v fs) h =
    (ground (arith, eq_refl k), Holds-cons fs fs k v (ground arith) (Holds-refl fs (ground arith)))

same_refl : (b : Bool) → same b b ≡ true
same_refl true = refl
same_refl false = refl

mutual
  unfolding json_equal decoded

  equal_self : (v : Json) → decoded v ≡ true → json_equal v v ≡ true
  equal_self null h = refl
  equal_self (bool b) h = same_refl b
  equal_self (int n) h = int_eq_refl n
  equal_self (float s n) h = ground (arith, ==-refl n, same_refl s)
  equal_self (str s) h = eq_refl s
  equal_self (arr xs) h = items_equal_self xs h
  equal_self (obj fs) h =
      let parts = and-eq-true _ _ h in
      let held = Holds-refl fs parts.0 in
      ground (arith, keys_within-of_Holds fs fs held, fields_equal_self fs fs parts.1 held)

  items_equal_self : (xs : Items) → decoded_items xs ≡ true → items_equal xs xs ≡ true
  items_equal_self nil h = refl
  items_equal_self (cons x xs) h =
      let parts = and-eq-true _ _ h in
      ground (arith, equal_self x parts.0, items_equal_self xs parts.1)

  fields_equal_self :
      (fs gs : Fields) → decoded_fields fs ≡ true → Holds fs gs → fields_equal fs gs ≡ true
  fields_equal_self end gs h held = refl
  fields_equal_self (field k v fs) gs h held =
      let parts = and-eq-true _ _ h in
      ground (arith, held.0, equal_self v parts.0, fields_equal_self fs gs parts.1 held.1)

-- Every value that `decode` accepts, with no key twice in an object, equals itself.
pub json_equal_refl : (v : Json) → decoded v ≡ true → json_equal v v ≡ true
json_equal_refl v h = equal_self v h
