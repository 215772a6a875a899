-- ===== src/Closure/Scan.antt =====
-- `scan` and `fn_type` of scripts/dependency-closure.py: the references of one AIR function. The stack
-- of the walk is the recursion: what is pushed last is walked first. An id that is not a number is none.
pub mod Walk
pub mod Collect
pub mod References
use Prim.Native.Char.{code}
use Prim.Native.String.{◌++◌ as joined}
use air2lean.Base.{
  ℕ, zero, suc, String, Option, none, some, Bool, true, false, ◌&&◌, ◌||◌, not, List, [], ◌∷◌, ◌++◌,
  str_eq, ◌==◌, if◌then◌else◌,
}
use air2lean.Base.Result.{Result, ok, err, ◌>>=◌, ◌>>◌}
use air2lean.Base.Text.{is_digit}
use air2lean.Json.{
  Json, Items, Fields, null, bool, int, float, str, arr, obj, nil, cons, end, field, get, has,
  listed, natural_of,
}
use air2lean.Closure.{Instruction, Call, Site, Global, Scanned}
use air2lean.Closure.Names.{begins_with, without}

-- A function of Zig 0.17.0 is renamed: `FUNC_017.sub(r'__anon_\1', ...)`.
digit_starts : String → Bool
unfolding is_digit
digit_starts String.[] = false
digit_starts (String.◌∷◌ d t) = is_digit (code d)

-- The six characters after the first of a match are taken off the rest, where no match can start.
unfoldable pub renamed : String → String
unfolding begins_with without digit_starts
renamed String.[] = String.[]
renamed (String.◌∷◌ c s) =
    let rest = renamed s in
    if begins_with "__func_" (String.◌∷◌ c s) && digit_starts (without "__func_" (String.◌∷◌ c s))
    then joined "__anon_" (without "_func_" rest)
    else String.◌∷◌ c rest

unfoldable mutual
  unfolding renamed

  pub renamed_json : Json → Json
  renamed_json (str s) = str (renamed s)
  renamed_json (arr xs) = arr (renamed_items xs)
  renamed_json (obj fs) = obj (renamed_fields fs)
  renamed_json v = v

  renamed_items : Items → Items
  renamed_items nil = nil
  renamed_items (cons x xs) = cons (renamed_json x) (renamed_items xs)

  renamed_fields : Fields → Fields
  renamed_fields end = end
  renamed_fields (field k v fs) = field (renamed k) (renamed_json v) (renamed_fields fs)

-- `types[ty]` of an index in range
unfoldable type_at : Items → ℕ → Option Json
type_at nil i = none
type_at (cons x xs) zero = some x
type_at (cons x xs) (suc i) = type_at xs i

unfoldable pub entry : Items → Option Json → Option Json
unfolding type_at
entry types ty = elim (natural_of ty) [ none ↦ none | some i ↦ type_at types i ]

-- The name of a function type: `k` is `other` and the name starts with `fn (`.
unfoldable pub fn_name : Option Json → Option String
unfolding begins_with
fn_name (some (obj fs)) = named (get "k" fs) (get "name" fs)
  where
    named : Option Json → Option Json → Option String
    named (some (str k)) (some (str name)) =
        if str_eq k "other" && begins_with "fn (" name then some name else none
    named _ _ = none
fn_name _ = none

unfoldable pub fn_type : Items → Option Json → Option String
unfolding entry fn_name
fn_type types ty = pointer (entry types ty)
  where
    is_ptr : Option Json → Bool
    is_ptr (some (str k)) = str_eq k "ptr"
    is_ptr _ = false

    pointer : Option Json → Option String
    pointer (some (obj fs)) =
        if is_ptr (get "k" fs) then fn_name (entry types (get "child" fs)) else none
    pointer _ = none

-- The function that a value names.
unfoldable pub func : Json → Option String
func (obj fs) = named (get "func" fs)
  where
    named : Option Json → Option String
    named (some (str s)) = some s
    named _ = none
func _ = none

abbrev pub as_list : Option String → List String
as_list none = []
as_list (some s) = s ∷ []

-- `refs`: the functions that a value names, from the outside in.
unfoldable mutual
  unfolding func

  pub refs : Json → List String
  refs (arr xs) = item_refs xs
  refs (obj fs) = as_list (func (obj fs)) ++ field_refs fs
  refs _ = []

  item_refs : Items → List String
  item_refs nil = []
  item_refs (cons x xs) = refs x ++ item_refs xs

  pub field_refs : Fields → List String
  field_refs end = []
  field_refs (field k v fs) = refs v ++ field_refs fs
