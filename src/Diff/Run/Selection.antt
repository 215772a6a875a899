-- ===== src/Diff/Run/Selection.antt =====
-- `selection` of scripts/diff-report.py: the examples that a comparison skips, and why.
use air2lean.Base.{
  String, Option, none, some, Bool, ◌&&◌, ◌||◌, not, List, [], ◌∷◌, str_eq, if◌then◌else◌, all,
}
use air2lean.Base.Result.{Result, ok, ◌>>=◌, ◌>>◌, refuse_if}
use air2lean.Base.Text.{is_ident}
use air2lean.Json.{listed}
use air2lean.Diff.{Failure, invalid}

-- A directory of the examples: its versions file, and the names of the functions that have inputs.
pub record Directory : Type 0 where
  pub name : String
  pub versions : Option (List String)
  pub functions : List String

pub data Reason : Type 0 where
  not_requested host_excluded version_excluded : Reason

pub record Skipped : Type 0 where
  pub example : String
  pub reason : Reason
  pub functions : List String

-- `host.endswith(suffix)`
unfoldable pub ends_with : String → String → Bool
ends_with suffix String.[] = str_eq "" suffix
ends_with suffix (String.◌∷◌ c s) = str_eq (String.◌∷◌ c s) suffix || ends_with suffix s

-- The reason why an example is skipped.
unfoldable pub skip_reason : String → String → Directory → Reason
unfolding listed ends_with
skip_reason host version d =
    let from_host =
      if str_eq d.name "asm" && not (ends_with "-x86_64" host)
      then host_excluded
      else not_requested in
    elim d.versions [
      | none ↦ from_host
      | some lines ↦ if listed version lines then from_host else version_excluded
    ]

-- `selection`, of the directories in order
unfoldable pub selection :
    List String → String → String → List Directory → Result Failure (List Skipped)
unfolding listed skip_reason
selection examples host version [] = ok []
selection examples host version (d ∷ ds) =
    let rest = selection examples host version ds in
    if listed d.name examples then rest else (do
      refuse_if (not (all is_ident d.functions)) invalid
      rows ← rest
      ok (
          record { example = d.name; reason = skip_reason host version d; functions = d.functions }
          ∷ rows))
