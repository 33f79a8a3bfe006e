-- ===== src/Project/Tests.antt =====
-- A search in a small file system.
use ai_hyperscaler_on_workst.Common.{
  ℕ, ◌≡◌, ◌<◌, refl, some, [], ◌∷◌, Bool, true, false, codes, text_eq, All, ◌&&◌,
}
use ai_hyperscaler_on_workst.Project.{FilePath, Files, has_marker, start, get_project_root}
use ai_hyperscaler_on_workst.Project.Nearest.{nearest, above, Unmarked, get_project_root-nearest}

-- "/p/.git" exists, and the search begins in "/p/a".
abbrev is_git_of_p : FilePath → Bool
is_git_of_p (name ∷ dir ∷ []) = text_eq name (codes ".git") && text_eq dir (codes "p")
is_git_of_p _ = false

abbrev files : Files
files = record {
  resolve = λ t. codes "a" ∷ codes "p" ∷ [];
  is_file = λ p. false;
  path_exists = is_git_of_p;
}

program : Unit {0}
unfolding get_project_root text_eq
program = tt

found : get_project_root files (codes "a") ≡ some (codes "p" ∷ [])
unfolding program
found = refl

get_project_root-nearest_example :
    (k : ℕ) × (k < 10)
    × ((codes "p" ∷ []) ≡ above k (start files (codes "a")))
    × (has_marker files (codes "p" ∷ []) ≡ true)
    × All (Unmarked files) (nearest k (start files (codes "a")))
get_project_root-nearest_example = get_project_root-nearest files (codes "a") (codes "p" ∷ []) found
