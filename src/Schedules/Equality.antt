-- ===== src/Schedules/Equality.antt =====
-- Python's `==` on decoded values, by which scripts/schedules.py compares observations and prefixes: a
-- truth value is the integer 0 or 1, and when a float equals an integer is an argument.
use air2lean.Base.{ℕ, none, some, Bool, true, false, ◌&&◌, ◌||◌, same, str_eq, ◌==◌, as_count}
use air2lean.Base.Int.{ℤ, pos, int_eq}
use air2lean.Json.{
  Json, Items, Fields, null, bool, int, float, str, arr, obj, nil, cons, end, field, get,
  keys_within,
}

module _ (float_is : Bool → ℕ → ℤ → Bool) where
  -- The two numbers are equal, where both are numbers.
  unfoldable pub number_equal : Json → Json → Bool
  number_equal (bool a) (bool b) = same a b
  number_equal (bool a) (int j) = int_eq (pos (as_count a)) j
  number_equal (int i) (bool b) = int_eq i (pos (as_count b))
  number_equal (int i) (int j) = int_eq i j
  number_equal (bool a) (float t b) = float_is t b (pos (as_count a))
  number_equal (int i) (float t b) = float_is t b i
  number_equal (float s a) (bool b) = float_is s a (pos (as_count b))
  number_equal (float s a) (int j) = float_is s a j
  number_equal (float s a) (float t b) = a == b && (same s t || a == 0)
  number_equal _ _ = false

  unfoldable mutual
    unfolding number_equal

    pub py_equal : Json → Json → Bool
    py_equal null null = true
    py_equal (str s) (str t) = str_eq s t
    py_equal (arr xs) (arr ys) = py_items_equal xs ys
    py_equal (obj fs) (obj gs) = keys_within fs gs && keys_within gs fs && py_fields_equal fs gs
    py_equal v w = number_equal v w

    pub py_items_equal : Items → Items → Bool
    py_items_equal nil nil = true
    py_items_equal (cons x xs) (cons y ys) = py_equal x y && py_items_equal xs ys
    py_items_equal _ _ = false

    py_fields_equal : Fields → Fields → Bool
    py_fields_equal end gs = true
    py_fields_equal (field k v fs) gs =
        (elim (get k gs) [ none ↦ false | some w ↦ py_equal v w ]) && py_fields_equal fs gs
