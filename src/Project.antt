-- ===== src/Project.antt =====
-- `get_project_root` of python/ai_how/src/ai_how/utils/vm_utils.py. An absolute path is the list of its
-- components, the last one first; the root is empty.
pub mod Nearest
mod Tests
use ai_hyperscaler_on_workst.Common.{
  ℕ, zero, suc, Option, none, some, List, [], ◌∷◌, Bool, true, false, Text, codes, any,
  if◌then◌else◌,
}

abbrev pub FilePath : Type 0
FilePath = List Text

-- The file system that the search reads.
pub record Files : Type 0 where
  pub resolve : Text → FilePath
  pub is_file : FilePath → Bool
  pub path_exists : FilePath → Bool

abbrev pub parent : FilePath → FilePath
parent [] = []
parent (c ∷ p) = p

abbrev pub markers : List Text
markers = codes ".git" ∷ codes "pyproject.toml" ∷ codes "CMakeLists.txt" ∷ []

module _ (fs : Files) where
  pub has_marker : FilePath → Bool
  has_marker current = any (λ marker. fs.path_exists (marker ∷ current)) markers

  -- The `for` loop, with the levels that are left. At the root it breaks.
  pub search : (levels : ℕ) → FilePath → Option FilePath
  search zero current = none
  search (suc levels) [] = if has_marker [] then some [] else none
  search (suc levels) (c ∷ p) =
      let above = search levels p in if has_marker (c ∷ p) then some (c ∷ p) else above

  -- The directory in which the search begins.
  abbrev pub start : Text → FilePath
  start reference_path =
      let current = fs.resolve reference_path in
      if fs.is_file current then parent current else current

  -- `none` is `FileNotFoundError`.
  unfoldable pub get_project_root : Text → Option FilePath
  unfolding search has_marker
  get_project_root reference_path = search 10 (start reference_path)
