-- ===== src/Allocate/Pages/Mapped.antt =====
-- What the addresses of a process are before and after.
use nodecpp_foundation.Base.{ℕ, ◌+◌, ◌%◌, ◌≤◌, ◌≡◌, refl, ap, sym, ◌∙◌, arith, Option, none, some}
use nodecpp_foundation.Base.{Bool, Bool-cases, inl, inr, true, false, ltb, leb, ◌&&◌, if◌then◌else◌}
use nodecpp_foundation.Base.Outcome.{ok, >>=-ok}
use nodecpp_foundation.Allocate.Pages.{
  System, mapped, succeeded, allocate_address_space, commit_memory, decommit_memory,
  free_address_space,
}

abbrev pub within : ℕ → ℕ → ℕ → Bool
within a size p = leb a p && ltb p (a + size)

-- The addresses with a range of them given the access `x`
abbrev pub with_range : (ℕ → Option Bool) → ℕ → ℕ → Option Bool → ℕ → Option Bool
with_range pages a size x p = if within a size p then x else pages p

-- A range of whole pages
abbrev pub IsWhole : ℕ → ℕ → ℕ → Type 0
IsWhole page a size = (a % page ≡ 0) × (size % page ≡ 0)

-- What the system documents, for ranges of whole pages of size `page`, the one that `sysconf` tells: `access` tells of each address whether it is mapped and may be
-- used. `mmap` maps the range that it gives, which is the fixed one, or one where nothing was mapped; `munmap` that
-- succeeds unmaps the range; `msync` changes no mapping.
pub record IsSystem {K : Type 0} (sys : System K) (page : ℕ) (access : K → ℕ → Option Bool)
    : Type 0 where
  pub sysconf_page : (k : K) → sys.sysconf_page_size k ≡ some page
  pub mmap_whole :
      (k : K) (size : ℕ) (usable : Bool) (a : ℕ)
      → (sys.mmap k none size usable).1 ≡ some a
      → a % page ≡ 0
  pub mmap_range :
      (k : K) (at_address : Option ℕ) (size : ℕ) (usable : Bool) (a : ℕ)
      → (sys.mmap k at_address size usable).1 ≡ some a
      → IsWhole page a size
      → (p : ℕ)
      → access ((sys.mmap k at_address size usable).0) p
        ≡ with_range (access k) a size (some usable) p
  pub mmap_free :
      (k : K) (size : ℕ) (usable : Bool) (a : ℕ)
      → (sys.mmap k none size usable).1 ≡ some a
      → size % page ≡ 0
      → (p : ℕ) → within a size p ≡ true
      → access k p ≡ none
  pub mmap_fixed :
      (k : K) (addr size : ℕ) (usable : Bool) (a : ℕ)
      → (sys.mmap k (some addr) size usable).1 ≡ some a
      → a ≡ addr
  pub munmap_range :
      (k : K) (a size : ℕ)
      → (sys.munmap k a size).1 ≡ true
      → IsWhole page a size
      → (p : ℕ) → access ((sys.munmap k a size).0) p ≡ with_range (access k) a size none p
  pub msync_same :
      (k : K) (a size : ℕ) (invalidate : Bool) (p : ℕ)
      → access ((sys.msync k a size invalidate).0) p ≡ access k p

ok_inj : {A : Type 0} {x y : A} → ok x ≡ ok y → x ≡ y
ok_inj h = cc

mapped-ok :
    {K : Type 0} (r : K × Option ℕ) (k : K) (a : ℕ)
    → mapped r ≡ ok (k, a)
    → (r.0 ≡ k) × (r.1 ≡ some a)
mapped-ok (k', none) k a e = cc
mapped-ok (k', some a') k a e =
    let same : (k', a') ≡ (k, a) = ok_inj e in (ap (λ x. x.0) same, ap (λ x. some (x.1)) same)

succeeded-ok : {K : Type 0} (r : K × Bool) (k : K) → succeeded r ≡ ok k → (r.0 ≡ k) × (r.1 ≡ true)
succeeded-ok (k', false) k e = cc
succeeded-ok (k', true) k e = (ok_inj e, refl)

module _ {K : Type 0} (sys : System K) (page : ℕ) (access : K → ℕ → Option Bool)
    (is : IsSystem sys page access) where
  allocate_address_space-access :
      (k k1 : K) (size a : ℕ)
      → allocate_address_space sys k size ≡ ok (k1, a)
      → size % page ≡ 0
      → (a % page ≡ 0)
        × ((p : ℕ) → access k1 p ≡ with_range (access k) a size (some false) p)
        × ((p : ℕ) → within a size p ≡ true → access k p ≡ none)
  unfolding allocate_address_space
  allocate_address_space-access k k1 size a e whole =
      let r = mapped-ok (sys.mmap k none size false) k1 a e in
      let at_page = is.mmap_whole k size false a r.1 in
      (
        at_page,
        λ p.
            ap (λ t. access t p) (sym r.0)
            ∙ is.mmap_range k none size false a r.1 (at_page, whole) p,
        is.mmap_free k size false a r.1 whole,
      )

  commit_memory-access :
      (k k1 : K) (addr size a : ℕ)
      → commit_memory sys k addr size ≡ ok (k1, a)
      → IsWhole page addr size
      → (a ≡ addr) × ((p : ℕ) → access k1 p ≡ with_range (access k) addr size (some true) p)
  unfolding commit_memory
  commit_memory-access k k1 addr size a e whole =
      let r = mapped-ok (sys.mmap k (some addr) size true) k1 a e in
      let fixed = is.mmap_fixed k addr size true a r.1 in
      (
        fixed,
        λ p.
            ap (λ t. access t p) (sym r.0)
            ∙ is.mmap_range k (some addr) size true a r.1
                (ap (λ (b : ℕ). b % page) fixed ∙ whole.0, whole.1) p
            ∙ ap (λ (b : ℕ). with_range (access k) b size (some true) p) fixed,
      )

  decommit_memory-access :
      (k k1 : K) (addr size : ℕ)
      → decommit_memory sys k addr size ≡ ok k1
      → IsWhole page addr size
      → (p : ℕ) → access k1 p ≡ with_range (access k) addr size (some false) p
  unfolding decommit_memory
  decommit_memory-access k k1 addr size e whole p =
      let m =
        >>=-ok (mapped (sys.mmap k (some addr) size false))
          (λ r. ok ((sys.msync (r.0) addr size true).0)) e in
      let r = mapped-ok (sys.mmap k (some addr) size false) (m.0.0) (m.0.1) m.1 in
      let fixed = is.mmap_fixed k addr size false (m.0.1) r.1 in
      ap (λ t. access t p) (sym (ok_inj m.2))
      ∙ is.msync_same (m.0.0) addr size true p
      ∙ ap (λ t. access t p) (sym r.0)
      ∙ is.mmap_range k (some addr) size false (m.0.1) r.1
          (ap (λ (b : ℕ). b % page) fixed ∙ whole.0, whole.1) p
      ∙ ap (λ (b : ℕ). with_range (access k) b size (some false) p) fixed

  free_address_space-access :
      (k k1 : K) (addr size : ℕ)
      → free_address_space sys k addr size ≡ ok k1
      → IsWhole page addr size
      → (p : ℕ) → access k1 p ≡ with_range (access k) addr size none p
  unfolding free_address_space
  free_address_space-access k k1 addr size e whole p =
      let m =
        >>=-ok (succeeded (sys.msync k addr size false)) (λ k'. succeeded (sys.munmap k' addr size))
          e in
      let synced = succeeded-ok (sys.msync k addr size false) (m.0) m.1 in
      let r = succeeded-ok (sys.munmap (m.0) addr size) k1 m.2 in
      let before : access (m.0) p ≡ access k p =
        ap (λ t. access t p) (sym synced.0) ∙ is.msync_same k addr size false p in
      ap (λ t. access t p) (sym r.0)
      ∙ is.munmap_range (m.0) addr size r.1 whole p
      ∙ ap (λ (x : Option Bool). if within addr size p then none else x) before

  -- Address space of whole pages that is reserved, committed in part, decommitted and freed, where every call succeeds: the part that
  -- is committed stands where it was asked for and may be used, nothing outside it may be used that was not before,
  -- and at the end every address is mapped as it was at the beginning.
  pub free_address_space-allocate_address_space :
      (k k1 k2 k3 k4 : K) (size a addr n b : ℕ)
      → size % page ≡ 0
      → IsWhole page addr n
      → allocate_address_space sys k size ≡ ok (k1, a)
      → a ≤ addr
      → addr + n ≤ a + size
      → commit_memory sys k1 addr n ≡ ok (k2, b)
      → decommit_memory sys k2 addr n ≡ ok k3
      → free_address_space sys k3 a size ≡ ok k4
      → (b ≡ addr)
        × (a % page ≡ 0)
        × ((p : ℕ)
            → access k2 p
              ≡ with_range (with_range (access k) a size (some false)) addr n (some true) p)
        × ((p : ℕ) → access k4 p ≡ access k p)
  free_address_space-allocate_address_space k k1 k2 k3 k4 size a addr n b whole part_whole e1 low
        high e2 e3 e4 =
      let reserved = allocate_address_space-access k k1 size a e1 whole in
      let committed = commit_memory-access k1 k2 addr n b e2 part_whole in
      let part : (p : ℕ)
          → access k2 p
            ≡ with_range (with_range (access k) a size (some false)) addr n (some true) p =
        λ p.
          committed.1 p
          ∙ ap (λ (x : Option Bool). if within addr n p then some true else x) (reserved.1 p) in
      (
        committed.0,
        reserved.0,
        part,
        λ p. elim (Bool-cases (within a size p)) [
          | inl inside ↦
              free_address_space-access k3 k4 a size e4 (reserved.0, whole) p
              ∙ rw inside (sym (reserved.2 p inside))
          | inr outside ↦
              let apart : within addr n p ≡ false = ground (arith, outside, low, high) in
              free_address_space-access k3 k4 a size e4 (reserved.0, whole) p
              ∙ rw outside (
                  decommit_memory-access k2 k3 addr n e3 part_whole p
                  ∙ rw apart (part p ∙ rw (apart, outside) refl))
        ],
      )
