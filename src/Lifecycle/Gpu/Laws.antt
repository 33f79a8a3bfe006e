-- ===== src/Lifecycle/Gpu/Laws.antt =====
-- What starting and stopping VMs does to the owners of GPUs.
use mathlib.Core.Path.{subst}
use ai_hyperscaler_on_workst.Common.{
  ℕ, ◌≡◌, ◌≢◌, refl, sym, Option, none, some, Bool, true, false, Bool-cases, Option-cases, inl, inr,
  Text, text_eq, text_eq_iff, text_eq_refl, arith, if◌then◌else◌, ◌⊎◌,
}
use ai_hyperscaler_on_workst.Common.Exec.{Result, ok, err}
use ai_hyperscaler_on_workst.Libvirt.{Libvirt, Failure, lifecycle_error, other_error, Client}
use ai_hyperscaler_on_workst.Models.{ClusterState}
use ai_hyperscaler_on_workst.Gpu.Allocator.{
  StateFile, release_gpu, Write, written, refused, cut_short, missing, unreadable, holds,
  allocate_gpu, is_gpu_available,
}
use ai_hyperscaler_on_workst.Gpu.Allocator.Laws.{
  owner_of, free_for, is_cut_short, after_write-kept, allocate_gpu-refused, allocate_gpu-view,
  release_gpu-view, is_gpu_available-state, is_gpu_available-unreadable, release_gpu-unreadable,
}
use ai_hyperscaler_on_workst.Lifecycle.{start_vm}
use ai_hyperscaler_on_workst.Lifecycle.Gpu.{
  Manager, World, managed_gpu, release_if, claim_gpu, clean_up, stop_vm_with_gpu_release,
  start_vm_with_gpu_allocation,
}

-- `start_vm` raises nothing but `VMLifecycleError`.
start_vm-outcome :
    (lv : Libvirt) (vm_name : Text) (wait_for_boot : Bool) (timeout : ℕ) (c : Client lv)
    → ((start_vm lv vm_name wait_for_boot timeout c).0 ≡ ok true)
      ⊎ ((start_vm lv vm_name wait_for_boot timeout c).0 ≡ ok false)
      ⊎ ((start_vm lv vm_name wait_for_boot timeout c).0 ≡ err lifecycle_error)
unfolding start_vm
start_vm-outcome lv vm_name wait_for_boot timeout c = ground arith

Write-cases : (io : Write) → (io ≡ written) ⊎ (io ≡ refused) ⊎ (io ≡ cut_short)
Write-cases written = inl refl
Write-cases refused = inr (inl refl)
Write-cases cut_short = inr (inr refl)

-- An allocation that raises does not raise `VMLifecycleError`.
abbrev claim_result : Write → Result Failure Unit
claim_result written = ok tt
claim_result refused = err other_error
claim_result cut_short = err other_error

module _ (lv : Libvirt) (m : Manager) (vm_name : Text) (w : World lv) where
  -- A GPU that another VM holds: the start is refused, and neither the hypervisor nor the table of
  -- GPUs is touched.
  pub start_refused :
      (tracked : Option ClusterState) (gpu owner : Text) (wait_for_boot : Bool)
      → m.cluster ≡ ok tracked
      → managed_gpu m tracked vm_name ≡ some gpu
      → owner_of w.gpus gpu ≡ some owner
      → owner ≢ vm_name
      → start_vm_with_gpu_allocation lv m vm_name wait_for_boot w ≡ (err lifecycle_error, w)
  unfolding start_vm_with_gpu_allocation claim_gpu clean_up is_gpu_available
  start_refused tracked gpu owner wait_for_boot hc hg ho other =
      ground (arith, text_eq_iff owner vm_name)

  -- What a claim does: it fails and changes nothing, or the table is as `allocate_gpu` leaves it.
  claim_gpu-cases :
      (gpu : Text)
      → w.gpus ≢ unreadable
      → claim_gpu lv m vm_name (some gpu) w ≡ (
          if free_for (owner_of w.gpus gpu) vm_name
          then (
            claim_result m.allocating,
            record w { gpus = (allocate_gpu m.allocating m.now gpu vm_name w.gpus).1 },
          )
          else (err lifecycle_error, w))
  unfolding claim_gpu
  claim_gpu-cases gpu h =
      let view = allocate_gpu-view m.allocating m.now gpu vm_name w.gpus gpu h in
      let unchanged = is_gpu_available-state gpu vm_name w.gpus in
      elim (Write-cases m.allocating) [
        | inl works ↦ ground (arith, works, view, unchanged)
        | inr (inl refuses) ↦ ground (arith, refuses, view, unchanged)
        | inr (inr cuts) ↦ ground (arith, cuts, view, unchanged)
      ]

  claim_gpu-unreadable :
      (gpu : Text)
      → w.gpus ≡ unreadable
      → claim_gpu lv m vm_name (some gpu) w ≡ (err other_error, w)
  unfolding claim_gpu
  claim_gpu-unreadable gpu h = ground (arith, is_gpu_available-unreadable gpu vm_name)

unreadable-cases : (f : StateFile) → (f ≡ unreadable) ⊎ (f ≢ unreadable)
unreadable-cases missing = inr (λ e. ground arith)
unreadable-cases unreadable = inl refl
unreadable-cases (holds g) = inr (λ e. ground arith)

module _ (lv : Libvirt) (m : Manager) (vm_name : Text) (w : World lv)
    (tracked : Option ClusterState) (hc : m.cluster ≡ ok tracked) where
  abbrev started : Bool → Result Failure Bool × Client lv
  started wait_for_boot = start_vm lv vm_name wait_for_boot 60 w.client

  -- The table after the allocation, and after the clean-up where its write failed.
  abbrev allocated : Text → StateFile
  allocated gpu = (allocate_gpu m.allocating m.now gpu vm_name w.gpus).1

  abbrev cleaned : Text → StateFile
  cleaned gpu = (release_gpu m.cleaning m.now gpu (allocated gpu)).1

  -- The start of a VM whose GPU is free for it is `start_vm` after the allocation. A `start_vm` that
  -- fails raises `VMLifecycleError`, and so the allocation is not undone.
  start-free :
      (gpu : Text) (wait_for_boot : Bool)
      → managed_gpu m tracked vm_name ≡ some gpu
      → w.gpus ≢ unreadable
      → free_for (owner_of w.gpus gpu) vm_name ≡ true
      → m.allocating ≡ written
      → start_vm_with_gpu_allocation lv m vm_name wait_for_boot w ≡ (
        (started wait_for_boot).0,
        record { client = (started wait_for_boot).1; gpus = allocated gpu },
      )
  unfolding start_vm_with_gpu_allocation clean_up
  start-free gpu wait_for_boot hg readable free works = ground (
    arith,
    claim_gpu-cases lv m vm_name w gpu readable,
    start_vm-outcome lv vm_name wait_for_boot 60 w.client,
  )

  -- Where the allocation cannot be written, the clean-up releases the GPU, and the start raises.
  start-unwritten :
      (gpu : Text) (wait_for_boot : Bool)
      → managed_gpu m tracked vm_name ≡ some gpu
      → w.gpus ≢ unreadable
      → free_for (owner_of w.gpus gpu) vm_name ≡ true
      → claim_result m.allocating ≡ err other_error
      → (start_vm_with_gpu_allocation lv m vm_name wait_for_boot w).1.gpus ≡ cleaned gpu
  unfolding start_vm_with_gpu_allocation clean_up release_if
  start-unwritten gpu wait_for_boot hg readable free fails =
      ground (arith, claim_gpu-cases lv m vm_name w gpu readable)

  unwritten_fails :
      (gpu : Text) (wait_for_boot result : Bool)
      → managed_gpu m tracked vm_name ≡ some gpu
      → w.gpus ≢ unreadable
      → free_for (owner_of w.gpus gpu) vm_name ≡ true
      → claim_result m.allocating ≡ err other_error
      → (start_vm_with_gpu_allocation lv m vm_name wait_for_boot w).0 ≢ ok result
  unfolding start_vm_with_gpu_allocation clean_up release_if
  unwritten_fails gpu wait_for_boot result hg readable free fails e =
      ground (arith, claim_gpu-cases lv m vm_name w gpu readable)

  start-taken :
      (gpu : Text) (wait_for_boot : Bool)
      → managed_gpu m tracked vm_name ≡ some gpu
      → w.gpus ≢ unreadable
      → free_for (owner_of w.gpus gpu) vm_name ≡ false
      → start_vm_with_gpu_allocation lv m vm_name wait_for_boot w ≡ (err lifecycle_error, w)
  unfolding start_vm_with_gpu_allocation clean_up
  start-taken gpu wait_for_boot hg readable taken =
      ground (arith, claim_gpu-cases lv m vm_name w gpu readable)

  start-unreadable :
      (gpu : Text) (wait_for_boot : Bool)
      → managed_gpu m tracked vm_name ≡ some gpu
      → w.gpus ≡ unreadable
      → start_vm_with_gpu_allocation lv m vm_name wait_for_boot w ≡ (err other_error, w)
  unfolding start_vm_with_gpu_allocation clean_up release_if
  start-unreadable gpu wait_for_boot hg h = ground (
    arith,
    claim_gpu-unreadable lv m vm_name w gpu h,
    release_gpu-unreadable m.cleaning m.now gpu,
  )

  start-unmanaged :
      (wait_for_boot : Bool)
      → managed_gpu m tracked vm_name ≡ none
      → (start_vm_with_gpu_allocation lv m vm_name wait_for_boot w).1.gpus ≡ w.gpus
  unfolding start_vm_with_gpu_allocation clean_up claim_gpu
  start-unmanaged wait_for_boot hg =
      ground (arith, start_vm-outcome lv vm_name wait_for_boot 60 w.client)

  -- A VM with a GPU that starts holds that GPU afterwards.
  pub start-owns :
      (gpu : Text) (wait_for_boot result : Bool)
      → managed_gpu m tracked vm_name ≡ some gpu
      → (start_vm_with_gpu_allocation lv m vm_name wait_for_boot w).0 ≡ ok result
      → owner_of (start_vm_with_gpu_allocation lv m vm_name wait_for_boot w).1.gpus gpu
        ≡ some vm_name
  start-owns gpu wait_for_boot result hg done = elim (unreadable-cases w.gpus) [
    | inl h ↦ absurd (ground (arith, start-unreadable gpu wait_for_boot hg h))
    | inr readable ↦ elim (Bool-cases (free_for (owner_of w.gpus gpu) vm_name)) [
      | inl free ↦ elim (Write-cases m.allocating) [
        | inl works ↦ ground (
          arith,
          works,
          start-free gpu wait_for_boot hg readable free,
          allocate_gpu-view m.allocating m.now gpu vm_name w.gpus gpu readable,
          text_eq_refl gpu,
        )
        | inr (inl refuses) ↦
            absurd
              (unwritten_fails gpu wait_for_boot result hg readable free (rw refuses refl) done)
        | inr (inr cuts) ↦
            absurd (unwritten_fails gpu wait_for_boot result hg readable free (rw cuts refl) done)
      ]
      | inr taken ↦ absurd (ground (arith, start-taken gpu wait_for_boot hg readable taken))
    ]
  ]

  -- The clean-up after a refused allocation takes the GPU from no other VM.
  cleaned-keeps :
      (gpu j owner : Text)
      → w.gpus ≢ unreadable
      → free_for (owner_of w.gpus gpu) vm_name ≡ true
      → m.allocating ≡ refused
      → is_cut_short m.cleaning ≡ false
      → owner ≢ vm_name
      → owner_of w.gpus j ≡ some owner
      → owner_of (cleaned gpu) j ≡ some owner
  cleaned-keeps gpu j owner readable free refuses whole other own =
      let same : allocated gpu ≡ w.gpus =
        rw refuses (allocate_gpu-refused m.now gpu vm_name w.gpus) in
      subst (λ f. owner_of (release_gpu m.cleaning m.now gpu f).1 j ≡ some owner) (sym same)
        (ground (
          arith,
          release_gpu-view m.cleaning m.now gpu w.gpus j readable,
          after_write-kept m.cleaning owner (if text_eq gpu j then none else owner_of w.gpus j)
              whole,
          text_eq_iff gpu j,
          text_eq_iff owner vm_name,
        ))

  start_managed-keeps :
      (gpu : Text) (wait_for_boot : Bool)
      → managed_gpu m tracked vm_name ≡ some gpu
      → is_cut_short m.allocating ≡ false
      → is_cut_short m.cleaning ≡ false
      → (j owner : Text) → (owner ≡ vm_name → m.allocating ≡ written)
      → owner_of w.gpus j ≡ some owner
      → owner_of (start_vm_with_gpu_allocation lv m vm_name wait_for_boot w).1.gpus j ≡ some owner
  start_managed-keeps gpu wait_for_boot hg whole whole_clean j owner mine own =
      elim (unreadable-cases w.gpus) [
        | inl h ↦ absurd (ground arith)
        | inr readable ↦ elim (Bool-cases (free_for (owner_of w.gpus gpu) vm_name)) [
          | inl free ↦ elim (Write-cases m.allocating) [
            | inl works ↦ ground (
              arith,
              works,
              start-free gpu wait_for_boot hg readable free,
              allocate_gpu-view m.allocating m.now gpu vm_name w.gpus j readable,
              text_eq_iff gpu j,
              text_eq_iff owner vm_name,
            )
            | inr (inl refuses) ↦
                rw (start-unwritten gpu wait_for_boot hg readable free (rw refuses refl)) (
                  cleaned-keeps gpu j owner readable free refuses whole_clean
                    (λ same. ground (arith, mine same)) own)
            | inr (inr cuts) ↦ absurd (ground (arith, cuts))
          ]
          | inr taken ↦ ground (arith, start-taken gpu wait_for_boot hg readable taken)
        ]
      ]

  -- Whatever the outcome, a start takes no GPU from another VM, and takes from the VM itself no GPU that it
  -- holds unless the allocation cannot be written: where neither the write of the allocation nor that
  -- of the clean-up is cut short, every GPU that somebody holds before has the same owner afterwards,
  -- provided that the allocation is written where that owner is the VM itself.
  pub start_never_steals :
      (wait_for_boot : Bool) (j owner : Text)
      → is_cut_short m.allocating ≡ false
      → is_cut_short m.cleaning ≡ false
      → (owner ≡ vm_name → m.allocating ≡ written)
      → owner_of w.gpus j ≡ some owner
      → owner_of (start_vm_with_gpu_allocation lv m vm_name wait_for_boot w).1.gpus j ≡ some owner
  start_never_steals wait_for_boot j owner whole whole_clean mine own =
      elim (Option-cases (managed_gpu m tracked vm_name)) [
        | inl e ↦ ground (arith, start-unmanaged wait_for_boot e)
        | inr (gpu, hg) ↦
            start_managed-keeps gpu wait_for_boot hg whole whole_clean j owner mine own
      ]

  -- Where the allocation is written and `start_vm` fails, the error is passed on and the GPU stays with the VM that does not run.
  pub start_failed_keeps_gpu :
      (gpu : Text) (wait_for_boot : Bool) (e : Failure)
      → managed_gpu m tracked vm_name ≡ some gpu
      → w.gpus ≢ unreadable
      → owner_of w.gpus gpu ≡ none
      → m.allocating ≡ written
      → (started wait_for_boot).0 ≡ err e
      → ((start_vm_with_gpu_allocation lv m vm_name wait_for_boot w).0 ≡ err lifecycle_error)
        × (owner_of (start_vm_with_gpu_allocation lv m vm_name wait_for_boot w).1.gpus gpu
            ≡ some vm_name)
  start_failed_keeps_gpu gpu wait_for_boot e hg readable free works failed = ground (
    arith,
    start-free gpu wait_for_boot hg readable,
    start_vm-outcome lv vm_name wait_for_boot 60 w.client,
    allocate_gpu-view m.allocating m.now gpu vm_name w.gpus gpu readable,
    text_eq_refl gpu,
  )

  -- A stop that succeeds frees the GPU of the VM, and leaves the owner of every other GPU as it was.
  pub stop-releases :
      (gpu j : Text) (force : Bool)
      → managed_gpu m tracked vm_name ≡ some gpu
      → (stop_vm_with_gpu_release lv m vm_name force w).0 ≡ ok true
      → owner_of (stop_vm_with_gpu_release lv m vm_name force w).1.gpus j
        ≡ (if text_eq gpu j then none else owner_of w.gpus j)
  unfolding stop_vm_with_gpu_release release_if
  stop-releases gpu j force hg done = elim (unreadable-cases w.gpus) [
    | inl h ↦ absurd (ground (arith, release_gpu-unreadable m.releasing m.now gpu))
    | inr readable ↦ ground (
      arith,
      release_gpu-view m.releasing m.now gpu w.gpus j readable,
      text_eq_iff gpu j,
      Write-cases m.releasing,
    )
  ]
