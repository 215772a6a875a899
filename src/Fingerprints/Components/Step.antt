-- ===== src/Fingerprints/Components/Step.antt =====
-- The invariant of one search of `components` in scripts/semantic-fingerprints.py.
use air2lean.Base.{
  ℕ, ◌+◌, ◌≤◌, ◌≡◌, refl, sym, ap, ◌∙◌, String, true, false, ◌||◌, List, [], ◌∷◌, ◌++◌, map, str_eq,
  eq_iff, if◌then◌else◌, as_count, length, sum_of, arith, All, Bool-cases, inl, inr, subst,
}
use air2lean.Json.{listed}
use air2lean.Diff.Config.{has_key, get_or}
use air2lean.Fingerprints.Components.{Frame, Tarjan, index_of, enter}
use air2lean.Fingerprints.Components.Stack.{count, Sub, Bottom, listed-count}

-- How often a node is in a component.
unfoldable pub placed : String → List (List String) → ℕ
placed x order = sum_of (count x) order

-- With no frame left the stack is empty; before, the root is the lowest frame and lowest on the stack.
abbrev pub Based : String → List String → List String → Type 0
Based root [] stack = stack ≡ []
Based root (n ∷ ns) stack = Bottom root (n ∷ ns) × Bottom root stack

abbrev pub names : List Frame → List String
names work = map (λ f. f.0) work

-- The nodes are given, and every edge leads to one.
module _ (nodes : List String) where
  abbrev pub Known : List String → Type 0
  Known children = All (λ c. listed c nodes ≡ true) children

  -- Each node with an index is on the stack or in one component, once.
  pub record Placed (t : Tarjan) : Type 0 where
    pub once : (x : String) → placed x t.order + count x t.stack ≡ as_count (has_key x t.index)
    pub given : (x : String) → has_key x t.index ≡ true → listed x nodes ≡ true

  -- During the search from the root, which has the index `base`.
  pub record Searching (root : String) (base : ℕ) (work : List Frame) (t : Tarjan) : Type 0 where
    pub is_placed : Placed t
    pub known : All (λ f. Known f.1) work
    pub on_stack : Sub (names work) t.stack
    pub based : Based root (names work) t.stack
    pub stack_high : (x : String) → listed x t.stack ≡ true → base ≤ index_of x t
    pub low_high : (x : String) → listed x t.stack ≡ true → base ≤ t.low x
    pub root_in : has_key root t.index ≡ true
    pub root_low : t.low root ≤ base
    pub root_index : index_of root t ≡ base
    pub size : base ≤ length t.index

pub has_key-append :
    (x k : String) (n : ℕ) (d : List (String × ℕ))
    → has_key x (d ++ (k, n) ∷ []) ≡ (has_key x d || str_eq k x)
unfolding has_key
has_key-append x k n [] = ground arith
has_key-append x k n ((j, m) ∷ d) = ground (arith, has_key-append x k n d)

pub get_or-append :
    (x k : String) (n : ℕ) (d : List (String × ℕ))
    → get_or 0 x (d ++ (k, n) ∷ [])
      ≡ (if has_key x d then get_or 0 x d else if str_eq k x then n else 0)
unfolding has_key get_or
get_or-append x k n [] = refl
get_or-append x k n ((j, m) ∷ d) = ground (arith, get_or-append x k n d)

-- What is on the stack has an index.
pub stack-index :
    (nodes : List String) (x : String) (t : Tarjan)
    → Placed nodes t
    → listed x t.stack ≡ true
    → has_key x t.index ≡ true
stack-index nodes x t p h = elim (Bool-cases (has_key x t.index)) [
  | inl e ↦ e
  | inr e ↦ absurd (ground (arith, listed-count x t.stack h, p.once x, e))
]

pub enter-Placed :
    (nodes : List String) (k : String) (t : Tarjan)
    → listed k nodes ≡ true
    → has_key k t.index ≡ false
    → Placed nodes t
    → Placed nodes (enter k t)
unfolding enter count
enter-Placed nodes k t l new p = record {
  once = λ x. elim (Bool-cases (str_eq k x)) [
    | inl e ↦
        (let same : has_key x t.index ≡ false =
            sym (ap (λ y. has_key y t.index) ((eq_iff k x).0 e)) ∙ new in
          ground (arith, p.once x, has_key-append x k (length t.index) t.index, e, same))
    | inr e ↦ ground (arith, p.once x, has_key-append x k (length t.index) t.index, e)
  ];
  given = λ x h. elim (Bool-cases (str_eq k x)) [
    | inl e ↦ subst (λ y. listed y nodes ≡ true) ((eq_iff k x).0 e) l
    | inr e ↦ p.given x (ground (arith, has_key-append x k (length t.index) t.index, e, h))
  ];
}

-- Only `low` changes.
pub Placed-low :
    (nodes : List String) (low : String → ℕ) (t : Tarjan)
    → Placed nodes t
    → Placed nodes (record t { low = low })
Placed-low nodes low t p = record { once = p.once; given = p.given }
