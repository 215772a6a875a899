-- ===== src/Closure/Scan/Walk.antt =====
-- The walk of `scan` of scripts/dependency-closure.py over the body of an AIR function.
use air2lean.Base.{
  String, Option, none, some, Bool, true, false, List, [], ◌∷◌, ◌++◌, map, str_eq, if◌then◌else◌,
}
use air2lean.Json.{
  Json, Items, Fields, bool, str, arr, obj, nil, cons, end, field, get, has, listed, natural_of,
}
use air2lean.Closure.{Instruction, Call}
use air2lean.Closure.Names.{begins_with}
use air2lean.Closure.Scan.{fn_type, func, refs}

-- An indirect call: the type of its callee, or the instruction that gives it.
pub data Callee : Type 0 where
  typed : Option String → Callee
  operand : Instruction → Callee

pub record Walk : Type 0 where
  pub calls : List Call
  pub values : List (String × Instruction)
  pub indirect : List (Instruction × Callee)
  -- the types of the instructions, the newest first
  pub insts : List (Instruction × Option Json)

unfoldable pub text_of : Option Json → Option String
text_of (some (str s)) = some s
text_of _ = none

-- `v is True`
unfoldable pub is_true : Option Json → Bool
is_true (some (bool b)) = b
is_true _ = false

-- `str(item['tag']).startswith('call')`
pub is_call : Option Json → Bool
unfolding begins_with
is_call (some (str s)) = begins_with "call" s
is_call _ = false

pub is_object : Option Json → Bool
is_object (some (obj fs)) = true
is_object _ = false

pub add_callee : Items → Instruction → Option Json → Walk → Walk
unfolding func text_of is_true fn_type is_object
add_callee types id (some (obj fs)) w = elim (func (obj fs)) [
  | some target ↦ record w {
    calls =
        w.calls
        ++ (record {
          target = target;
          instruction = id;
          noreturn = is_true (get "noreturn" fs);
          comptime_fn = text_of (get "comptime_fn" fs);
        }
            ∷ []);
  }
  | none ↦
      if has "inst" fs
      then record w { indirect = w.indirect ++ (id, operand (natural_of (get "inst" fs))) ∷ [] }
      else if is_object (get "ptr" fs)
      then record w { indirect = w.indirect ++ (id, typed (fn_type types (get "ty" fs))) ∷ [] }
      else w
]
add_callee types id _ w = w

pub add_values : Instruction → List String → Walk → Walk
add_values id names w = record w { values = w.values ++ map (λ name. (name, id)) names }

-- The items and ranges of the cases.
pub case_refs : Items → List String
unfolding refs
case_refs nil = []
case_refs (cons (obj fs) cs) = of_key (get "items" fs) ++ of_key (get "ranges" fs) ++ case_refs cs
  where
    of_key : Option Json → List String
    of_key none = []
    of_key (some v) = refs v
case_refs (cons _ cs) = case_refs cs

-- The functions that one field of an instruction names.
pub own_refs : String → Json → List String
unfolding refs case_refs
own_refs key v =
    if listed key ("callee" ∷ "id" ∷ "tag" ∷ "ty" ∷ "body" ∷ "then" ∷ "else" ∷ [])
    then []
    else if str_eq key "cases"
    then of_cases v
    else refs v
  where
    of_cases : Json → List String
    of_cases (arr cs) = case_refs cs
    of_cases v = refs v

pub own_values : Fields → List String
unfolding own_refs
own_values end = []
own_values (field key v fs) = own_refs key v ++ own_values fs

-- One instruction, before the blocks within it.
unfoldable pub instruction : Items → Fields → Walk → Walk
unfolding add_callee add_values own_values is_call
instruction types fs w =
    let id = natural_of (get "id" fs) in
    let typed = record w { insts = (id, get "ty" fs) ∷ w.insts } in
    let called =
      if is_call (get "tag" fs) then add_callee types id (get "callee" fs) typed else typed in
    add_values id (own_values fs) called

unfoldable mutual
  unfolding instruction

  pub walk : Items → Json → Walk → Walk
  walk types (arr xs) w = walk_items types xs w
  walk types (obj fs) w = if has "tag" fs then walk_blocks types fs (instruction types fs w) else w
  walk types _ w = w

  pub walk_items : Items → Items → Walk → Walk
  walk_items types nil w = w
  walk_items types (cons x xs) w = walk_items types xs (walk types x w)

  -- The blocks of an instruction, the last one first.
  pub walk_blocks : Items → Fields → Walk → Walk
  walk_blocks types end w = w
  walk_blocks types (field key v fs) w =
      let later = walk_blocks types fs w in
      if listed key ("body" ∷ "then" ∷ "else" ∷ [])
      then walk types v later
      else if str_eq key "cases"
      then walk_cases types v later
      else later

  pub walk_cases : Items → Json → Walk → Walk
  walk_cases types (arr cs) w = walk_case_items types cs w
  walk_cases types _ w = w

  pub walk_case_items : Items → Items → Walk → Walk
  walk_case_items types nil w = w
  walk_case_items types (cons c cs) w = walk_case types c (walk_case_items types cs w)

  pub walk_case : Items → Json → Walk → Walk
  walk_case types (obj fs) w = walk_case_body types fs w
  walk_case types _ w = w

  pub walk_case_body : Items → Fields → Walk → Walk
  walk_case_body types end w = w
  walk_case_body types (field key v fs) w =
      let rest = walk_case_body types fs w in if str_eq key "body" then walk types v w else rest
