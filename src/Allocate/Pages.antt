-- ===== src/Allocate/Pages.antt =====
-- `VirtualMemory` of src/page_allocator.cpp as built for Linux: calls of the system, each of whose failures is thrown.
-- The line that is logged before an exception is not modelled.
pub mod Mapped
use nodecpp_foundation.Base.{ℕ, ◌%◌, Option, none, some, Bool, true, false, ◌==◌, if◌then◌else◌}
use nodecpp_foundation.Base.Outcome.{
  Outcome, ok, throws, asserting, ◌>>=◌, bad_alloc, assertion_failed,
}

-- The system, in a state of type `K`: the size of a page; `mmap`, at a fixed address or at any, of a range that may be
-- read and written or may not, and the address that it gives; `munmap` and `msync`, and whether they succeed
pub record System (K : Type 0) : Type 0 where
  pub sysconf_page_size : K → Option ℕ
  pub mmap : K → Option ℕ → ℕ → Bool → K × Option ℕ
  pub munmap : K → ℕ → ℕ → K × Bool
  pub msync : K → ℕ → ℕ → Bool → K × Bool

-- What `mmap` gives, or the exception
abbrev pub mapped : {K : Type 0} → K × Option ℕ → Outcome (K × ℕ)
mapped r = elim (r.1) [ none ↦ throws bad_alloc | some ptr ↦ ok (r.0, ptr) ]

-- What a call that returns 0 or -1 leaves
abbrev pub succeeded : {K : Type 0} → K × Bool → Outcome K
succeeded r = if r.1 then ok (r.0) else throws bad_alloc

module _ {K : Type 0} (sys : System K) where
  -- `getPageSize`, and `getAllocGranularity`, which calls it
  unfoldable pub get_page_size : K → Outcome ℕ
  get_page_size k = elim (sys.sysconf_page_size k) [
    | none ↦ throws assertion_failed
    | some sz ↦ ok sz
  ]

  unfoldable pub get_alloc_granularity : K → Outcome ℕ
  get_alloc_granularity k = get_page_size k

  -- `allocate`
  unfoldable pub allocate : K → ℕ → Outcome (K × ℕ)
  allocate k size = mapped (sys.mmap k none size true)

  -- `deallocate`
  unfoldable pub deallocate : K → ℕ → ℕ → Outcome K
  deallocate k ptr size = asserting (size % 4096 == 0) (succeeded (sys.munmap k ptr size))

  -- `AllocateAddressSpace`
  unfoldable pub allocate_address_space : K → ℕ → Outcome (K × ℕ)
  allocate_address_space k size = mapped (sys.mmap k none size false)

  -- `CommitMemory`
  unfoldable pub commit_memory : K → ℕ → ℕ → Outcome (K × ℕ)
  commit_memory k addr size = mapped (sys.mmap k (some addr) size true)

  -- `DecommitMemory`, which goes by no result of `msync`
  unfoldable pub decommit_memory : K → ℕ → ℕ → Outcome K
  decommit_memory k addr size =
      mapped (sys.mmap k (some addr) size false) >>= λ r. ok ((sys.msync (r.0) addr size true).0)

  -- `FreeAddressSpace`
  unfoldable pub free_address_space : K → ℕ → ℕ → Outcome K
  free_address_space k addr size =
      succeeded (sys.msync k addr size false) >>= λ k'. succeeded (sys.munmap k' addr size)
