-- ===== src/Tests/Maps.antt =====
-- The theorem on the pages of Linux at a system that maps new ranges above all that it has mapped.
use nodecpp_foundation.Base.{
  ℕ, ◌+◌, ◌*◌, ◌%◌, ltb, if◌then◌else◌, ◌≡◌, refl, ap, sym, ◌∙◌, arith, Bool-cases, inl, inr,
}
use nodecpp_foundation.Base.{Option, none, some, true, false, Bool}
use nodecpp_foundation.Base.Outcome.{ok}
use nodecpp_foundation.Allocate.Pages.{
  System, allocate_address_space, commit_memory, decommit_memory, free_address_space,
}
use nodecpp_foundation.Allocate.Pages.Mapped.{
  IsSystem, within, IsWhole, with_range, free_address_space-allocate_address_space,
}

-- What is mapped, below an address
record Map : Type 0 where
  top : ℕ
  map : ℕ → Option Bool

abbrev access : Map → ℕ → Option Bool
access k p = if ltb p (4096 * k.top) then k.map p else none

abbrev set : Map → ℕ → ℕ → Option Bool → Map
set k a size x = record { top = k.top + (a + size); map = with_range (access k) a size x }

set-access :
    (k : Map) (a size : ℕ) (x : Option Bool) (p : ℕ)
    → access (set k a size x) p ≡ with_range (access k) a size x p
set-access k a size x p = elim (Bool-cases (ltb p (4096 * (k.top + (a + size))))) [
  | inl below ↦ rw below refl
  | inr above ↦
      let outside : within a size p ≡ false = ground (arith, above) in
      let old : ltb p (4096 * k.top) ≡ false = ground (arith, above) in
      rw (above, outside, old) refl
]

abbrev system : System Map
system = record {
  sysconf_page_size = λ k. some 4096;
  mmap = λ k at_address size usable. elim at_address [
    | none ↦ (set k (4096 * k.top) size (some usable), some (4096 * k.top))
    | some addr ↦ (set k addr size (some usable), some addr)
  ];
  munmap = λ k a size. (set k a size none, true);
  msync = λ k a size invalidate. (k, true);
}

some_inj : {x y : ℕ} → some x ≡ some y → x ≡ y
some_inj e = cc

mmap-range :
    (k : Map) (at_address : Option ℕ) (size : ℕ) (usable : Bool) (a : ℕ)
    → (system.mmap k at_address size usable).1 ≡ some a
    → IsWhole 4096 a size
    → (p : ℕ)
    → access ((system.mmap k at_address size usable).0) p
      ≡ with_range (access k) a size (some usable) p
mmap-range k none size usable a e whole p =
    set-access k (4096 * k.top) size (some usable) p
    ∙ ap (λ (b : ℕ). with_range (access k) b size (some usable) p) (some_inj e)
mmap-range k (some addr) size usable a e whole p =
    set-access k addr size (some usable) p
    ∙ ap (λ (b : ℕ). with_range (access k) b size (some usable) p) (some_inj e)

system-IsSystem : IsSystem system 4096 access
system-IsSystem = record {
  sysconf_page = λ k. refl;
  mmap_whole =
      λ k size usable a e. let place : 4096 * k.top ≡ a = some_inj e in omega (arith, place);
  mmap_range = mmap-range;
  mmap_free = λ k size usable a e whole p inside.
      let place : 4096 * k.top ≡ a = some_inj e in
      let outside : ltb p (4096 * k.top) ≡ false = ground (arith, place, inside) in rw outside refl;
  mmap_fixed = λ k addr size usable a e. sym (some_inj e);
  munmap_range = λ k a size e whole p. set-access k a size none p;
  msync_same = λ k a size invalidate p. refl;
}

abbrev k0 : Map
k0 = record { top = 0x10; map = λ p. some true }

-- Two pages are reserved, the second is committed, decommitted, and all is freed.
abbrev k1 : Map
k1 = set k0 0x10000 0x2000 (some false)

abbrev k2 : Map
k2 = set k1 0x11000 0x1000 (some true)

abbrev k3 : Map
k3 = set k2 0x11000 0x1000 (some false)

abbrev k4 : Map
k4 = set k3 0x10000 0x2000 none

reserved : allocate_address_space system k0 0x2000 ≡ ok (k1, 0x10000)
unfolding allocate_address_space
reserved = refl

committed : commit_memory system k1 0x11000 0x1000 ≡ ok (k2, 0x11000)
unfolding commit_memory
committed = refl

decommitted : decommit_memory system k2 0x11000 0x1000 ≡ ok k3
unfolding decommit_memory
decommitted = refl

freed : free_address_space system k3 0x10000 0x2000 ≡ ok k4
unfolding free_address_space
freed = refl

free_address_space-allocate_address_space_example :
    (◌≡◌ {A = ℕ} 0x11000 0x11000)
    × (◌≡◌ {A = ℕ} (0x10000 % 4096) 0)
    × ((p : ℕ)
        → access k2 p
          ≡ with_range
              (with_range (access k0) 0x10000 0x2000 (some false))
              0x11000
              0x1000
              (some true)
              p)
    × ((p : ℕ) → access k4 p ≡ access k0 p)
free_address_space-allocate_address_space_example =
    free_address_space-allocate_address_space system 4096 access system-IsSystem k0 k1 k2 k3 k4
      0x2000 0x10000 0x11000 0x1000 0x11000 refl (refl, refl) reserved (omega arith) (omega arith)
      committed decommitted freed
