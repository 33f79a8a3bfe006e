-- ===== src/Gpu/Allocator/Laws.antt =====
-- The allocation table against its abstract view, a partial map from addresses to owners.
use ai_hyperscaler_on_workst.Common.{
  ◌≡◌, ◌≢◌, refl, Option, none, some, List, [], ◌∷◌, Bool, true, false, Text, text_eq, text_eq_iff,
  if◌then◌else◌, ◌||◌, All, arith, is_some,
}
use ai_hyperscaler_on_workst.Common.Dict
use ai_hyperscaler_on_workst.Common.Dict.{Dict}
use ai_hyperscaler_on_workst.Common.Exec.{Result, ok, err}
use ai_hyperscaler_on_workst.Gpu.Allocator.{
  GlobalState, Fault, unreadable_state, write_failed, Write, written, refused, cut_short, StateFile,
  missing, unreadable, holds, allocate_gpu, release_gpu, is_gpu_available, first_conflict,
}

-- The owner of an address: what the state file says, as far as it can be read.
abbrev pub owner_of : StateFile → Text → Option Text
owner_of missing pci_address = none
owner_of unreadable pci_address = none
owner_of (holds g) pci_address = Dict.get g.gpu_allocations pci_address

-- An address is free for an owner that holds it already, and for everybody if nobody does.
abbrev pub free_for : Option Text → Text → Bool
free_for none owner = true
free_for (some current) owner = text_eq current owner

-- How a method that writes ends, and what its write makes of an owner.
abbrev pub write_result : Write → Result Fault Bool
write_result written = ok true
write_result refused = err write_failed
write_result cut_short = err write_failed

abbrev pub after_write : Write → (before after : Option Text) → Option Text
after_write written before after = after
after_write refused before after = before
after_write cut_short before after = none

-- On a readable file `is_gpu_available` answers whether nobody or the same owner holds the address. Where it
-- is not available, `allocate_gpu` returns `False` and no owner changes. Where it is,
-- `allocate_gpu` writes: it returns `True`, the address has the owner and every other address its owner
-- as before, if the write works; it raises if not, and then no owner changes if the file could not be
-- opened, and every owner is lost if the write was cut short.
pub allocate_gpu-view :
    (io : Write) (now pci_address owner : Text) (f : StateFile) (j : Text)
    → f ≢ unreadable
    → ((allocate_gpu io now pci_address owner f).0
        ≡ (if free_for (owner_of f pci_address) owner then write_result io else ok false))
      × ((is_gpu_available pci_address owner f).0 ≡ ok (free_for (owner_of f pci_address) owner))
      × (owner_of (allocate_gpu io now pci_address owner f).1 j ≡ (
          if free_for (owner_of f pci_address) owner
          then after_write io
              (owner_of f j)
              (if text_eq pci_address j then some owner else owner_of f j)
          else owner_of f j))
unfolding allocate_gpu is_gpu_available
allocate_gpu-view written now pci_address owner missing j h = ground (
  arith,
  Dict.get-empty {V = Text} pci_address,
  Dict.get-put {V = Text} [] pci_address j owner,
  Dict.get-empty {V = Text} j,
)
allocate_gpu-view refused now pci_address owner missing j h =
    ground (arith, Dict.get-empty {V = Text} pci_address)
allocate_gpu-view cut_short now pci_address owner missing j h =
    ground (arith, Dict.get-empty {V = Text} pci_address)
allocate_gpu-view io now pci_address owner unreadable j h = absurd (h refl)
allocate_gpu-view written now pci_address owner (holds g) j h =
    ground (arith, Dict.get-put g.gpu_allocations pci_address j owner)
allocate_gpu-view refused now pci_address owner (holds g) j h = ground arith
allocate_gpu-view cut_short now pci_address owner (holds g) j h = ground arith

pub is_gpu_available-state :
    (pci_address owner : Text) (f : StateFile) → (is_gpu_available pci_address owner f).1 ≡ f
unfolding is_gpu_available
is_gpu_available-state pci_address owner missing =
    ground (arith, Dict.get-empty {V = Text} pci_address)
is_gpu_available-state pci_address owner unreadable = refl
is_gpu_available-state pci_address owner (holds g) = ground arith

-- A write that is refused leaves the file as it was.
pub allocate_gpu-refused :
    (now pci_address owner : Text) (f : StateFile)
    → (allocate_gpu refused now pci_address owner f).1 ≡ f
unfolding allocate_gpu
allocate_gpu-refused now pci_address owner missing =
    ground (arith, Dict.get-empty {V = Text} pci_address)
allocate_gpu-refused now pci_address owner unreadable = refl
allocate_gpu-refused now pci_address owner (holds g) = ground arith

pub is_gpu_available-unreadable :
    (pci_address owner : Text)
    → is_gpu_available pci_address owner unreadable ≡ (err unreadable_state, unreadable)
unfolding is_gpu_available
is_gpu_available-unreadable pci_address owner = refl

pub release_gpu-unreadable :
    (io : Write) (now pci_address : Text)
    → release_gpu io now pci_address unreadable ≡ (err unreadable_state, unreadable)
unfolding release_gpu
release_gpu-unreadable io now pci_address = refl

-- On a readable file `release_gpu` returns `False` and changes no owner where nobody holds the address, and
-- writes the table without the address otherwise.
pub release_gpu-view :
    (io : Write) (now pci_address : Text) (f : StateFile) (j : Text)
    → f ≢ unreadable
    → ((release_gpu io now pci_address f).0
        ≡ (if is_some (owner_of f pci_address) then write_result io else ok false))
      × (owner_of (release_gpu io now pci_address f).1 j ≡ (
          if is_some (owner_of f pci_address)
          then after_write io (owner_of f j) (if text_eq pci_address j then none else owner_of f j)
          else owner_of f j))
unfolding release_gpu
release_gpu-view io now pci_address missing j h =
    ground (arith, Dict.get-empty {V = Text} pci_address)
release_gpu-view io now pci_address unreadable j h = absurd (h refl)
release_gpu-view written now pci_address (holds g) j h =
    ground (arith, Dict.get-pop g.gpu_allocations pci_address j, text_eq_iff pci_address j)
release_gpu-view refused now pci_address (holds g) j h = ground arith
release_gpu-view cut_short now pci_address (holds g) j h = ground arith

-- Calls on the allocator, in the order in which they are made, each with the end of its write.
pub data Call : Type 0 where
  allocate : Write → (now pci_address owner : Text) → Call
  release : Write → (now pci_address : Text) → Call

abbrev pub perform : Call → StateFile → StateFile
perform (allocate io now pci_address owner) f = (allocate_gpu io now pci_address owner f).1
perform (release io now pci_address) f = (release_gpu io now pci_address f).1

abbrev pub perform_all : List Call → StateFile → StateFile
perform_all [] f = f
perform_all (call ∷ calls) f = perform_all calls (perform call f)

abbrev pub is_cut_short : Write → Bool
is_cut_short cut_short = true
is_cut_short _ = false

-- The calls after which an address may have lost its owner: its release, and any that is cut short.
abbrev pub gives_up : Text → Call → Bool
gives_up pci_address (allocate io _ _ _) = is_cut_short io
gives_up pci_address (release io _ released) = is_cut_short io || text_eq released pci_address

pub after_write-kept :
    (io : Write) (owner : Text) (after : Option Text)
    → is_cut_short io ≡ false
    → after ≡ some owner
    → after_write io (some owner) after ≡ some owner
after_write-kept written owner after kept h = h
after_write-kept refused owner after kept h = refl
after_write-kept cut_short owner after kept h = absurd (ground arith)

perform-keeps_owner :
    (call : Call) (f : StateFile) (pci_address owner : Text)
    → gives_up pci_address call ≡ false
    → owner_of f pci_address ≡ some owner
    → owner_of (perform call f) pci_address ≡ some owner
perform-keeps_owner call missing pci_address owner kept h = absurd (ground arith)
perform-keeps_owner call unreadable pci_address owner kept h = absurd (ground arith)
perform-keeps_owner (allocate io now a o) (holds g) pci_address owner kept h = ground (
  arith,
  allocate_gpu-view io now a o (holds g) pci_address (λ e. ground arith),
  after_write-kept io owner
      (if text_eq a pci_address then some o else Dict.get g.gpu_allocations pci_address) kept,
  text_eq_iff a pci_address,
  text_eq_iff owner o,
)
perform-keeps_owner (release io now a) (holds g) pci_address owner kept h = ground (
  arith,
  release_gpu-view io now a (holds g) pci_address (λ e. ground arith),
  after_write-kept io owner
      (if text_eq a pci_address then none else Dict.get g.gpu_allocations pci_address),
)

-- Mutual exclusion over time: through any calls, whether their writes work or are refused, an address keeps
-- its owner, as long as no call releases that address and no write of the file is cut short.
pub perform_all-keeps_owner :
    (calls : List Call) (f : StateFile) (pci_address owner : Text)
    → All (λ call. gives_up pci_address call ≡ false) calls
    → owner_of f pci_address ≡ some owner
    → owner_of (perform_all calls f) pci_address ≡ some owner
perform_all-keeps_owner [] f pci_address owner kept h = h
perform_all-keeps_owner (call ∷ calls) f pci_address owner kept h =
    perform_all-keeps_owner calls (perform call f) pci_address owner kept.1
      (perform-keeps_owner call f pci_address owner kept.0 h)

pub first_conflict-none :
    (g : GlobalState) (owner : Text) (required : List Text)
    → (first_conflict g.gpu_allocations owner required).0 ≡ true
    → All (λ a. free_for (owner_of (holds g) a) owner ≡ true) required
unfolding first_conflict
first_conflict-none g owner [] h = tt
first_conflict-none g owner (a ∷ required) h =
    (ground arith, first_conflict-none g owner required (ground arith))

pub first_conflict-free :
    (g : GlobalState) (owner : Text) (required : List Text)
    → All (λ a. free_for (owner_of (holds g) a) owner ≡ true) required
    → first_conflict g.gpu_allocations owner required ≡ (true, none)
unfolding first_conflict
first_conflict-free g owner [] h = refl
first_conflict-free g owner (a ∷ required) h =
    ground (arith, first_conflict-free g owner required h.1, h.0)
