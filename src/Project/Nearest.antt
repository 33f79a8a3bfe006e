-- ===== src/Project/Nearest.antt =====
-- The directories that `get_project_root` passes and finds.
use ai_hyperscaler_on_workst.Common.{
  ℕ, zero, suc, ◌≡◌, ◌<◌, ◌↔◌, refl, none, some, List, [], ◌∷◌, true, false, Text, arith, All,
  Bool-cases, inl, inr,
}
use ai_hyperscaler_on_workst.Project.{
  FilePath, Files, parent, has_marker, search, start, get_project_root,
}

-- A directory and those above it, nearest first, as many as asked for; the root is above itself.
abbrev pub nearest : ℕ → FilePath → List FilePath
nearest zero p = []
nearest (suc n) p = p ∷ nearest n (parent p)

abbrev pub above : ℕ → FilePath → FilePath
above zero p = p
above (suc n) p = above n (parent p)

module _ (fs : Files) where
  abbrev pub Unmarked : FilePath → Type 0
  Unmarked p = has_marker fs p ≡ false

  root-Unmarked : (n : ℕ) → Unmarked [] → All Unmarked (nearest n [])
  root-Unmarked zero h = tt
  root-Unmarked (suc n) h = (h, root-Unmarked n h)

  search-none : (n : ℕ) (p : FilePath) → search fs n p ≡ none → All Unmarked (nearest n p)
  unfolding search
  search-none zero p h = tt
  search-none (suc n) [] h =
      let unmarked : Unmarked [] = ground arith in (unmarked, root-Unmarked n unmarked)
  search-none (suc n) (c ∷ p) h = (ground arith, search-none n p (ground arith))

  none-search : (n : ℕ) (p : FilePath) → All Unmarked (nearest n p) → search fs n p ≡ none
  unfolding search
  none-search zero p h = refl
  none-search (suc n) [] h = ground (arith, h.0)
  none-search (suc n) (c ∷ p) h = ground (arith, h.0, none-search n p h.1)

  search-nearest :
      (n : ℕ) (p found : FilePath)
      → search fs n p ≡ some found
      → (k : ℕ) × (k < n)
        × (found ≡ above k p)
        × (has_marker fs found ≡ true)
        × All Unmarked (nearest k p)
  unfolding search
  search-nearest zero p found h = absurd (ground arith)
  search-nearest (suc n) [] found h = (0, omega arith, ground arith, ground arith, tt)
  search-nearest (suc n) (c ∷ p) found h = elim (Bool-cases (has_marker fs (c ∷ p))) [
    | inl marked ↦ (0, omega arith, ground arith, ground arith, tt)
    | inr unmarked ↦
        let (k, less, place, marked, nearer) = search-nearest n p found (ground arith) in
        (suc k, omega arith, place, marked, (unmarked, nearer))
  ]

-- What is found is a directory with a marker, less than ten levels above the start, and no directory
-- nearer to the start has a marker.
pub get_project_root-nearest :
    (fs : Files) (reference_path : Text) (found : FilePath)
    → get_project_root fs reference_path ≡ some found
    → (k : ℕ) × (k < 10)
      × (found ≡ above k (start fs reference_path))
      × (has_marker fs found ≡ true)
      × All (Unmarked fs) (nearest k (start fs reference_path))
unfolding get_project_root
get_project_root-nearest fs reference_path found h =
    search-nearest fs 10 (start fs reference_path) found h

-- The search fails exactly where none of the ten directories from the start upwards has a marker.
pub get_project_root_fails :
    (fs : Files) (reference_path : Text)
    → (get_project_root fs reference_path ≡ none)
      ↔ All (Unmarked fs) (nearest 10 (start fs reference_path))
unfolding get_project_root
get_project_root_fails fs reference_path =
    (search-none fs 10 (start fs reference_path), none-search fs 10 (start fs reference_path))
