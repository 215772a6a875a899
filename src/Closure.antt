-- ===== src/Closure.antt =====
-- scripts/dependency-closure.py: which functions the exported AIR of a program still lacks. Here the
-- references that `scan` collects from the AIR of a function, the classes of the answer, and the
-- arguments of `Closure`. `std_models` reads its table by regular expressions from the translator's
-- source: the table is a parameter. An instruction id is a number.
pub mod Names
pub mod State
pub mod Scan
pub mod Visit
pub mod Search
pub mod Report
use air2lean.Base.{
  ◌==◌, ℕ, String, Option, none, some, Bool, true, false, List, [], ◌∷◌, str_eq, if◌then◌else◌,
}

-- The position of an instruction, where the reference has one.
abbrev pub Instruction : Type 0
Instruction = Option ℕ

pub record Call : Type 0 where
  pub target : String
  pub instruction : Instruction
  pub noreturn : Bool
  -- the `comptime_fn` of the callee, where it is a string
  pub comptime_fn : Option String

pub record Site : Type 0 where
  pub instruction : Instruction
  pub fn_type : Option String

pub record Global : Type 0 where
  pub index : ℕ
  pub name : Option String
  pub is_extern : Bool
  pub threadlocal : Bool
  pub has_init : Bool
  pub functions : List String
  -- the function type and the function of an initial value that is a function
  pub fn_ref : Option (String × String)

-- What `scan` returns for one AIR function.
pub record Scanned : Type 0 where
  pub calls : List Call
  pub values : List (String × Instruction)
  pub indirect : List Site
  pub globals : List Global

-- A row of `std_models`.
pub record Model : Type 0 where
  pub is_rejected : Bool
  pub versions : List String
  pub reason : Option String

-- The arguments of `Closure(functions, zig_version, models, registry, key)`.
pub record Inputs : Type 0 where
  pub functions : List (String × Scanned)
  pub version : String
  pub models : List (String × Model)
  pub registry : List String
  pub key : String → String

pub data Class : Type 0 where
  exported : Class
  modelled : Class
  missing : Class
  unresolvable : Class

abbrev pub is_exported : Class → Bool
is_exported exported = true
is_exported _ = false

abbrev pub class_eq : Class → Class → Bool
class_eq exported exported = true
class_eq modelled modelled = true
class_eq missing missing = true
class_eq unresolvable unresolvable = true
class_eq _ _ = false

-- `d.get(name)` of a dict whose keys are strings
unfoldable pub value_of {ℓ} : {A : Type ℓ} → String → List (String × A) → Option A
value_of name [] = none
value_of name ((k, v) ∷ rest) = if str_eq k name then some v else value_of name rest

unfoldable pub instruction_eq : Instruction → Instruction → Bool
instruction_eq none none = true
instruction_eq (some i) (some j) = i == j
instruction_eq _ _ = false
