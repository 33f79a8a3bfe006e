-- ===== src/Gpu/Allocator/Batch.antt =====
-- `validate_gpu_availability` against the allocations that it is asked before.
use ai_hyperscaler_on_workst.Common.{
  ◌≡◌, ◌≢◌, ◌↔◌, refl, sym, ap, ◌∙◌, none, some, List, [], ◌∷◌, Bool, true, false, Text,
  text_eq_iff, if◌then◌else◌, All, arith, Bool-cases, inl, inr, text_eq_refl,
}
use mathlib.Core.Path.{subst}
use ai_hyperscaler_on_workst.Common.Dict
use ai_hyperscaler_on_workst.Common.Exec.{ok, ◌>>=◌, pure}
use ai_hyperscaler_on_workst.Gpu.Allocator.{
  StateFile, written, empty_state, missing, unreadable, holds, Action, allocate_gpu,
  validate_gpu_availability,
}
use ai_hyperscaler_on_workst.Gpu.Allocator.Laws.{
  owner_of, free_for, allocate_gpu-view, first_conflict-none, first_conflict-free,
}

-- Allocating several addresses for one owner, as long as each allocation succeeds; every write of the
-- file works.
abbrev pub allocate_all : (now owner : Text) → List Text → Action Bool
allocate_all now owner [] = pure true
allocate_all now owner (a ∷ required) = do
  allocated ← allocate_gpu written now a owner
  if allocated then allocate_all now owner required else pure false

abbrev AllFree : Text → StateFile → List Text → Type 0
AllFree owner f required = All (λ a. free_for (owner_of f a) owner ≡ true) required

AllFree-cast :
    (owner : Text) (f f' : StateFile) (required : List Text)
    → ((j : Text) → free_for (owner_of f j) owner ≡ free_for (owner_of f' j) owner)
    → AllFree owner f required
    → AllFree owner f' required
AllFree-cast owner f f' [] same h = tt
AllFree-cast owner f f' (a ∷ required) same h =
    (sym (same a) ∙ h.0, AllFree-cast owner f f' required same h.1)

module _ (now owner : Text) where
  abbrev after : Text → StateFile → StateFile
  after a f = (allocate_gpu written now a owner f).1

  after-ne : (a : Text) (f : StateFile) → f ≢ unreadable → after a f ≢ unreadable
  unfolding allocate_gpu
  after-ne a f h = ground (arith, h)

  after-free :
      (a : Text) (f : StateFile) (j : Text)
      → f ≢ unreadable
      → free_for (owner_of f a) owner ≡ true
      → free_for (owner_of f j) owner ≡ free_for (owner_of (after a f) j) owner
  after-free a f j h free =
      ground
        (arith, allocate_gpu-view written now a owner f j h, text_eq_iff a j, text_eq_refl owner)

  after-allocated :
      (a : Text) (required : List Text) (f : StateFile)
      → f ≢ unreadable
      → free_for (owner_of f a) owner ≡ true
      → allocate_all now owner (a ∷ required) f ≡ allocate_all now owner required (after a f)
  after-allocated a required f h free = ground (arith, allocate_gpu-view written now a owner f a h)

  allocate_all-succeeds :
      (required : List Text) (f : StateFile)
      → f ≢ unreadable
      → AllFree owner f required
      → (allocate_all now owner required f).0 ≡ ok true
  allocate_all-succeeds [] f h free = refl
  allocate_all-succeeds (a ∷ required) f h free = ground (
    arith,
    after-allocated a required f h free.0,
    allocate_all-succeeds required (after a f) (after-ne a f h)
        (AllFree-cast owner f (after a f) required (λ j. after-free a f j h free.0) free.1),
  )

  allocate_all-AllFree :
      (required : List Text) (f : StateFile)
      → f ≢ unreadable
      → (allocate_all now owner required f).0 ≡ ok true
      → AllFree owner f required
  allocate_all-AllFree [] f h done = tt
  allocate_all-AllFree (a ∷ required) f h done = elim (Bool-cases (free_for (owner_of f a) owner)) [
    | inl free ↦ (
      free,
      AllFree-cast owner (after a f) f required (λ j. sym (after-free a f j h free))
          (allocate_all-AllFree required (after a f) (after-ne a f h)
            (ground (arith, after-allocated a required f h free))),
    )
    | inr taken ↦ absurd (ground (arith, allocate_gpu-view written now a owner f a h))
  ]

  allocate_all-keeps :
      (required : List Text) (f : StateFile) (j : Text)
      → f ≢ unreadable
      → (allocate_all now owner required f).0 ≡ ok true
      → owner_of f j ≡ some owner
      → owner_of (allocate_all now owner required f).1 j ≡ some owner
  allocate_all-keeps [] f j h done own = own
  allocate_all-keeps (a ∷ required) f j h done own =
      let free = (allocate_all-AllFree (a ∷ required) f h done).0 in
      ground (
        arith,
        after-allocated a required f h free,
        allocate_gpu-view written now a owner f j h,
        allocate_all-keeps required (after a f) j (after-ne a f h),
      )

  allocate_all-owns :
      (required : List Text) (f : StateFile)
      → f ≢ unreadable
      → (allocate_all now owner required f).0 ≡ ok true
      → All (λ a. owner_of (allocate_all now owner required f).1 a ≡ some owner) required
  allocate_all-owns [] f h done = tt
  allocate_all-owns (a ∷ required) f h done =
      let free = (allocate_all-AllFree (a ∷ required) f h done).0 in
      let step = after-allocated a required f h free in
      let done' : (allocate_all now owner required (after a f)).0 ≡ ok true =
        ground (arith, step) in
      subst (λ r. All (λ b. owner_of r.1 b ≡ some owner) (a ∷ required)) (sym step)
        (
          allocate_all-keeps required (after a f) a (after-ne a f h) done'
              (ground (arith, allocate_gpu-view written now a owner f a h, text_eq_refl a)),
          allocate_all-owns required (after a f) (after-ne a f h) done',
        )

none_is_free : (owner : Text) (required : List Text) → AllFree owner missing required
none_is_free owner [] = tt
none_is_free owner (a ∷ required) = (refl, none_is_free owner required)

empty_is_free : (owner : Text) (required : List Text) → AllFree owner (holds empty_state) required
empty_is_free owner [] = tt
empty_is_free owner (a ∷ required) =
    (ground (arith, Dict.get-empty {V = Text} a), empty_is_free owner required)

validate-AllFree :
    (owner : Text) (required : List Text) (f : StateFile)
    → f ≢ unreadable
    → ((validate_gpu_availability required owner f).0 ≡ ok (true, none)) ↔ AllFree owner f required
unfolding validate_gpu_availability
validate-AllFree owner [] f h = (λ _. tt, λ _. refl)
validate-AllFree owner (a ∷ required) missing h = (
  λ _. none_is_free owner (a ∷ required),
  λ free.
      ap (λ r. ok r)
        (first_conflict-free empty_state owner (a ∷ required) (empty_is_free owner (a ∷ required))),
)
validate-AllFree owner (a ∷ required) unreadable h = absurd (h refl)
validate-AllFree owner (a ∷ required) (holds g) h = (
  λ e. first_conflict-none g owner (a ∷ required) (ground arith),
  λ free. ground (arith, first_conflict-free g owner (a ∷ required) free),
)

-- The check before a start is exact: on a readable file, where every write of the file works,
-- `validate_gpu_availability` reports no conflict exactly where allocating all the addresses, one
-- after the other, succeeds and leaves the owner with every one of them.
pub validate-allocate_all :
    (now owner : Text) (required : List Text) (f : StateFile)
    → f ≢ unreadable
    → ((validate_gpu_availability required owner f).0 ≡ ok (true, none)) ↔ (
        ((allocate_all now owner required f).0 ≡ ok true)
        × All (λ a. owner_of (allocate_all now owner required f).1 a ≡ some owner) required)
validate-allocate_all now owner required f h =
    let checked = validate-AllFree owner required f h in
    (
      λ e.
          let done = allocate_all-succeeds now owner required f h (checked.0 e) in
          (done, allocate_all-owns now owner required f h done),
      λ e. checked.1 (allocate_all-AllFree now owner required f h e.0),
    )
