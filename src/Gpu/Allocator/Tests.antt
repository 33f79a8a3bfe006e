-- ===== src/Gpu/Allocator/Tests.antt =====
-- Runs of the allocator.
use ai_hyperscaler_on_workst.Common.{
  ◌≡◌, ◌≢◌, ◌↔◌, refl, none, some, List, [], ◌∷◌, true, Text, codes, arith, All,
}
use ai_hyperscaler_on_workst.Common.Exec.{ok}
use ai_hyperscaler_on_workst.Gpu.Allocator.{
  StateFile, written, refused, unreadable, holds, stamped, allocate_gpu, is_gpu_available,
  validate_gpu_availability, running_allocator,
}
use ai_hyperscaler_on_workst.Gpu.Allocator.Laws.{
  owner_of, Call, allocate, release, perform_all, allocate_gpu-view, perform_all-keeps_owner,
}
use ai_hyperscaler_on_workst.Gpu.Allocator.Batch.{allocate_all, validate-allocate_all}

abbrev gpu : Text
gpu = codes "0000:01:00.0"

abbrev gpu2 : Text
gpu2 = codes "0000:02:00.0"

-- One GPU is held by "a".
abbrev file : StateFile
file = holds (stamped (codes "t") ((gpu, codes "a") ∷ []))

readable : file ≢ unreadable
readable = λ e. ground arith

-- Another owner asks for the same GPU, and another GPU is released.
abbrev calls : List Call
calls = allocate refused (codes "t") gpu (codes "b") ∷ release written (codes "t") gpu2 ∷ []

program : Unit {0}
unfolding running_allocator
program = tt

allocate_gpu-view_example :
    ((allocate_gpu written (codes "t") gpu2 (codes "b") file).0 ≡ ok true)
    × ((is_gpu_available gpu2 (codes "b") file).0 ≡ ok true)
    × (owner_of (allocate_gpu written (codes "t") gpu2 (codes "b") file).1 gpu2 ≡ some (codes "b"))
unfolding program
allocate_gpu-view_example =
    allocate_gpu-view written (codes "t") gpu2 (codes "b") file gpu2 readable

held_by_a : owner_of file gpu ≡ some (codes "a")
unfolding program
held_by_a = refl

perform_all-keeps_owner_example : owner_of (perform_all calls file) gpu ≡ some (codes "a")
unfolding program
perform_all-keeps_owner_example =
    perform_all-keeps_owner calls file gpu (codes "a") (refl, (refl, tt)) held_by_a

validate-allocate_all_example :
    ((validate_gpu_availability (gpu ∷ gpu2 ∷ []) (codes "a") file).0 ≡ ok (true, none)) ↔ (
      ((allocate_all (codes "t") (codes "a") (gpu ∷ gpu2 ∷ []) file).0 ≡ ok true)
      × All
          (λ a.
            owner_of (allocate_all (codes "t") (codes "a") (gpu ∷ gpu2 ∷ []) file).1 a
            ≡ some (codes "a"))
          (gpu ∷ gpu2 ∷ []))
validate-allocate_all_example =
    validate-allocate_all (codes "t") (codes "a") (gpu ∷ gpu2 ∷ []) file readable
