-- ===== src/Fingerprints/Components/Linked/Met.antt =====
-- The nodes after one is met for the first time, in `components` of scripts/semantic-fingerprints.py.
use air2lean.Base.{
  ◌≡◌, refl, ap, String, true, false, List, ◌⊎◌, str_eq, eq_iff, length, arith, Bool-cases, inl,
  inr, subst,
}
use air2lean.Json.{listed}
use air2lean.Diff.Config.{has_key}
use air2lean.Fingerprints.Components.{Tarjan, index_of, enter}
use air2lean.Fingerprints.Components.Step.{Placed, has_key-append, get_or-append, stack-index}

module _ (k : String) (t : Tarjan) where
  pub record New (x : String) : Type 0 where
    pub same : k ≡ x
    pub key : has_key x (enter k t).index ≡ true
    pub index : index_of x (enter k t) ≡ length t.index
    pub low : (enter k t).low x ≡ length t.index

  -- A node that had an index keeps it.
  pub record Old (x : String) : Type 0 where
    pub other : str_eq k x ≡ false
    pub key : has_key x t.index ≡ true
    pub index : index_of x (enter k t) ≡ index_of x t
    pub low : (enter k t).low x ≡ t.low x

  pub stack_grows : (y : String) → listed y t.stack ≡ true → listed y (enter k t).stack ≡ true
  unfolding enter listed
  stack_grows y m = ground (arith, m)

  module _ (new : has_key k t.index ≡ false) where
    pub New-node : New k
    unfolding enter
    New-node = record {
      same = refl;
      key = ground (arith, has_key-append k k (length t.index) t.index, (eq_iff k k).1 refl);
      index = ground (arith, get_or-append k k (length t.index) t.index, (eq_iff k k).1 refl, new);
      low = ground (arith, (eq_iff k k).1 refl);
    }

    pub Old-node : (x : String) → has_key x t.index ≡ true → Old x
    unfolding enter
    Old-node x h = elim (Bool-cases (str_eq k x)) [
      | inl e ↦
          (let same : has_key k t.index ≡ has_key x t.index =
              ap (λ z. has_key z t.index) ((eq_iff k x).0 e) in
            absurd (ground (arith, same, new, h)))
      | inr e ↦ record {
        other = e;
        key = h;
        index = ground (arith, get_or-append x k (length t.index) t.index, h);
        low = ground (arith, eq_iff k x, eq_iff x k, e);
      }
    ]

    pub key_cases : (x : String) → has_key x (enter k t).index ≡ true → New x ⊎ Old x
    unfolding enter
    key_cases x h = elim (Bool-cases (str_eq k x)) [
      | inl e ↦ inl (subst New ((eq_iff k x).0 e) New-node)
      | inr e ↦ inr (Old-node x (ground (arith, has_key-append x k (length t.index) t.index, e, h)))
    ]

    module _ (nodes : List String) (p : Placed nodes t) where
      pub stack_cases :
          (x : String)
          → listed x (enter k t).stack ≡ true
          → New x ⊎ ((listed x t.stack ≡ true) × Old x)
      unfolding enter listed
      stack_cases x h = elim (Bool-cases (str_eq k x)) [
        | inl e ↦ inl (subst New ((eq_iff k x).0 e) New-node)
        | inr e ↦
            (let there : listed x t.stack ≡ true = ground (arith, e, h) in
              inr (there, Old-node x (stack-index nodes x t p there)))
      ]
