-- ===== src/TaggedPtr/Flags/Laws.antt =====
-- The word of `optimized_allocated_ptr_with_flags_` stands for the members of the generic struct.
use nodecpp_foundation.Base.{ℕ, ◌^◌, ◌%◌, ◌≤◌, ◌<◌, false, ◌&&◌, bit, bit_and, bit_or}
use nodecpp_foundation.Base.{ltb, ◌≡◌, ap, ◌∙◌, arith, bit_ext, bit-mod, bit-zero, bit_above}
use nodecpp_foundation.Base.Words.{shl, ones, complement, test_bit, bit_laws}
use nodecpp_foundation.Base.Outcome.{ok}
use nodecpp_foundation.TaggedPtr.Flags.Optimized
use nodecpp_foundation.TaggedPtr.Flags.Generic

-- The address and each of the `nflags` flags read alike.
pub record Represents (lower nflags : ℕ) (g : Generic.Flagged) (o : Optimized.Word) : Type 0 where
  pub same_ptr : Optimized.get_ptr lower o ≡ Generic.get_ptr g
  pub same_flags :
      (pos : ℕ)
      → (ltb pos nflags && Optimized.has_flag pos o) ≡ (ltb pos nflags && Generic.has_flag pos g)

-- An aligned address.
abbrev pub IsAligned : ℕ → ℕ → Type 0
IsAligned lower p = (p < 2 ^ 64) × (p % 2 ^ lower ≡ 0)

-- The flags fit below the alignment and in the byte of the generic struct.
abbrev pub IsConfig : ℕ → ℕ → Type 0
IsConfig lower nflags = (nflags ≤ lower) × (nflags ≤ 8) × (lower ≤ 64)

module _ (lower nflags : ℕ) (cfg : IsConfig lower nflags) where
  aligned_digit : (p i : ℕ) → IsAligned lower p → i < lower → bit p i ≡ false
  aligned_digit p i h lt =
      ground (arith, bit-mod i lower p, ap (λ (t : ℕ). bit t i) h.1, bit-zero i)

  flags_of_digits :
      (g : Generic.Flagged) (o : Optimized.Word) (q : ℕ)
      → (ltb q nflags && bit o.ptr q) ≡ (ltb q nflags && bit g.flags q)
      → (ltb q nflags && Optimized.has_flag q o) ≡ (ltb q nflags && Generic.has_flag q g)
  unfolding Optimized.has_flag Generic.has_flag
  flags_of_digits g o q h = ground (arith, h, test_bit o.ptr q, test_bit g.flags q, cfg)

  digits_of_flags :
      (g : Generic.Flagged) (o : Optimized.Word) (q : ℕ)
      → (ltb q nflags && Optimized.has_flag q o) ≡ (ltb q nflags && Generic.has_flag q g)
      → (ltb q nflags && bit o.ptr q) ≡ (ltb q nflags && bit g.flags q)
  unfolding Optimized.has_flag Generic.has_flag
  digits_of_flags g o q h = ground (arith, h, test_bit o.ptr q, test_bit g.flags q, cfg)

  aligned_kept : (p : ℕ) → IsAligned lower p → bit_and p (complement (ones lower)) ≡ p
  aligned_kept p h =
      bit_ext _ _ λ i. simp bit_laws (ground (arith, bit_above i 64 p h.0, aligned_digit p i h))

  -- `init` accepts an aligned address and starts both structs alike.
  pub init-Represents :
      (p : ℕ)
      → IsAligned lower p
      → (o : Optimized.Word) × (Optimized.init lower p ≡ ok o)
        × Represents lower nflags (Generic.init p) o
  unfolding Optimized.init Generic.init Optimized.get_ptr Generic.get_ptr
  init-Represents p h = (
    record { ptr = bit_and p (complement (ones lower)) },
    ground (arith, passes),
    record {
      same_ptr = rw (aligned_kept p h) (aligned_kept p h);
      same_flags = λ q.
          flags_of_digits (record { ptr = p; flags = 0 })
            (record { ptr = bit_and p (complement (ones lower)) }) q
            (ground (
              arith,
              ap (λ (t : ℕ). bit t q) (aligned_kept p h),
              aligned_digit p q h,
              bit-zero q,
              cfg,
            ));
    },
  )
    where
      passes : bit_and p (ones lower) ≡ 0
      passes = bit_ext _ _ λ i. simp bit_laws (ground (arith, aligned_digit p i h, bit-zero i))

  module _ (g : Generic.Flagged) (o : Optimized.Word) (r : Represents lower nflags g o) where
    -- `set_ptr` of an aligned address keeps the structs alike: it changes no flag.
    pub set_ptr-Represents :
        (p : ℕ)
        → IsAligned lower p
        → Represents lower nflags (Generic.set_ptr g p) (Optimized.set_ptr lower o p)
    unfolding Optimized.set_ptr Generic.set_ptr Optimized.get_ptr Generic.get_ptr
    set_ptr-Represents p h = record {
      same_ptr =
          bit_ext _ _
            λ i. simp bit_laws (ground (arith, bit_above i 64 p h.0, aligned_digit p i h));
      same_flags = λ q.
          flags_of_digits (record g { ptr = p }) (Optimized.set_ptr lower o p) q
            (digit q ∙ digits_of_flags g o q (r.same_flags q));
    }
      where
        digit :
            (q : ℕ)
            → (ltb q nflags && bit (Optimized.set_ptr lower o p).ptr q)
              ≡ (ltb q nflags && bit o.ptr q)
        digit q = simp bit_laws (ground (arith, cfg))

    -- `set_flag` and `unset_flag` keep the structs alike: they change one flag and no address.
    pub set_flag-Represents :
        (pos : ℕ)
        → pos < nflags
        → Represents lower nflags (Generic.set_flag pos g) (Optimized.set_flag pos o)
          × Represents lower nflags (Generic.unset_flag pos g) (Optimized.unset_flag pos o)
    unfolding Optimized.set_flag Generic.set_flag Optimized.unset_flag Generic.unset_flag
        Optimized.get_ptr Generic.get_ptr
    set_flag-Represents pos h = (
      record {
        same_ptr = (bit_ext _ _ λ i. simp bit_laws (ground (arith, cfg))) ∙ r.same_ptr;
        same_flags = λ q.
            flags_of_digits (Generic.set_flag pos g) (Optimized.set_flag pos o) q
              (on q (digits_of_flags g o q (r.same_flags q)));
      },
      record {
        same_ptr = (bit_ext _ _ λ i. simp bit_laws (ground (arith, cfg))) ∙ r.same_ptr;
        same_flags = λ q.
            flags_of_digits (Generic.unset_flag pos g) (Optimized.unset_flag pos o) q
              (off q (digits_of_flags g o q (r.same_flags q)));
      },
    )
      where
        on :
            (q : ℕ)
            → (ltb q nflags && bit o.ptr q) ≡ (ltb q nflags && bit g.flags q)
            → (ltb q nflags && bit (bit_or o.ptr (shl 1 pos)) q)
              ≡ (ltb q nflags && bit (bit_or g.flags (shl 1 pos) % 2 ^ 8) q)
        on q e =
            rw (bit-mod q 8 (bit_or g.flags (shl 1 pos))) (simp bit_laws (ground (arith, e, cfg)))

        off :
            (q : ℕ)
            → (ltb q nflags && bit o.ptr q) ≡ (ltb q nflags && bit g.flags q)
            → (ltb q nflags && bit (bit_and o.ptr (complement (shl 1 pos))) q)
              ≡ (ltb q nflags && bit (bit_and g.flags (complement (shl 1 pos)) % 2 ^ 8) q)
        off q e =
            rw (bit-mod q 8 (bit_and g.flags (complement (shl 1 pos))))
              (simp bit_laws (ground (arith, e, cfg)))
