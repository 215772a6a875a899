-- ===== src/Tests/Claims.antt =====
-- The README claims of scripts/accounting.py at concrete files.
use air2lean.Base.{ℕ, ◌≡◌, refl, String, some, true, false, List, [], ◌∷◌}
use air2lean.Accounting.{Column, cases, exact_matches, skipped_examples, Row}
use air2lean.Accounting.Claims.{Readme, Job, claims}
use air2lean.Accounting.Claims.Agree.{Holds}
use air2lean.Accounting.Claims.Hold.{claims-Holds}

abbrev readme : Readme
readme = record {
  supported = "0.15.1" ∷ "0.14.1" ∷ [];
  rows =
      record {
        version = "0.15.1";
        ci = "full job with the diff test";
        examples = "arith" ∷ "asm" ∷ [];
      }
      ∷ record {
        version = "0.14.1";
        ci = "restricted job, no diff harness";
        examples = "arith" ∷ [];
      }
      ∷ [];
  skipping = "0.14.1" ∷ [];
  headline = some (record { cases = 10; exact = 7; illegal = 2; unspecified = 1 });
}

abbrev jobs : List Job
jobs =
    record { zig = "0.14.1"; mutate = false; full = false; examples = "arith" ∷ [] }
    ∷ record { zig = "0.15.1"; mutate = false; full = true; examples = [] }
    ∷ record { zig = "0.15.1"; mutate = true; full = true; examples = [] }
    ∷ []

abbrev cells : Column → ℕ
cells cases = 10
cells exact_matches = 10
cells skipped_examples = 2
cells _ = 0

-- A run off x86_64, which leaves `asm` out.
abbrev on_arm : Row
on_arm = record {
  version = "0.15.1";
  target = "Darwin-arm64";
  summary_sha256 = "digest";
  cells = cells;
  selected_examples = "arith" ∷ [];
}

claims-Holds_example : Holds readme jobs 3 (on_arm ∷ [])
unfolding claims air2lean.Base.Sort.text_le
claims-Holds_example = claims-Holds readme jobs 3 (on_arm ∷ []) refl
