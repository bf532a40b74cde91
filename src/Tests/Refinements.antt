-- ===== src/Tests/Refinements.antt =====
-- The refinements between generic and optimized structs at concrete inputs.
use nodecpp_foundation.Base.{zero, suc, inl, inr, true, false, ◌&&◌}
use nodecpp_foundation.Base.{ltb, ◌==◌, if◌then◌else◌, ◌≡◌, refl, arith, List, [], ◌∷◌}
use nodecpp_foundation.Base.Words.{shl, shr, ones, complement}
use nodecpp_foundation.Base.Outcome.{ok}
use nodecpp_foundation.Base.Store.{Store}
use nodecpp_foundation.TaggedPtr.PtrPtr.Optimized as Two
use nodecpp_foundation.TaggedPtr.PtrPtr.Optimized.{Config, IsConfig}
use nodecpp_foundation.TaggedPtr.PtrPtr.Generic as Wide
use nodecpp_foundation.TaggedPtr.PtrPtr.Refine.{Represents, Op, run_generic, run_optimized}
use nodecpp_foundation.TaggedPtr.PtrPtr.Refine.Getters.{GettersAgree, run-GettersAgree}
use nodecpp_foundation.TaggedPtr.PtrPtr.Refine.Steps.{run-Represents}
use nodecpp_foundation.TaggedPtr.Zombie
use nodecpp_foundation.TaggedPtr.Zombie.{run}
use nodecpp_foundation.TaggedPtr.Zombie.Generic as Plain
use nodecpp_foundation.TaggedPtr.Zombie.Optimized as Marked
use nodecpp_foundation.TaggedPtr.Zombie.Refine as Same
use nodecpp_foundation.TaggedPtr.Zombie.Refine.{run-agrees, move_from_self, source_zombie}
use nodecpp_foundation.TaggedPtr.Flags.Optimized as FlagWord
use nodecpp_foundation.TaggedPtr.Flags.Generic as FlagPair
use nodecpp_foundation.TaggedPtr.Flags.Laws as FlagLaws
use nodecpp_foundation.TaggedPtr.Flags.Laws.{
  init-Represents, set_ptr-Represents, set_flag-Represents,
}
use nodecpp_foundation.TaggedPtr.MaskFlags.Optimized as MaskWord
use nodecpp_foundation.TaggedPtr.MaskFlags.Generic as MaskMembers
use nodecpp_foundation.TaggedPtr.MaskFlags.Laws.{set_mask_lem}
use nodecpp_foundation.TaggedPtr.ZombieData.Optimized as DataWord
use nodecpp_foundation.TaggedPtr.ZombieData.Generic as DataMembers

abbrev tested : Config
tested = record { lower = 3; dataminsize = 32; nflags = 1 }

tested-IsConfig : IsConfig tested
tested-IsConfig = record {
  few_flags = omega arith;
  few_data = omega arith;
  flags_fit = omega arith;
  no_rest_no_flags = inr (omega arith);
  int_shift = omega arith;
}

abbrev wide_null : Wide.Tagged
wide_null = record { ptr = 0; allocptr = 0; payload = 0; flags = 0; zombie = false }

abbrev two_null : Two.Tagged
two_null = record { ptr = 0; allocptr = 0 }

null-Represents : Represents tested wide_null two_null
unfolding Two.get_data Two.has_flag Wide.has_flag shl shr ones
null-Represents = record {
  live = refl;
  above_mark = inl refl;
  same_ptr = refl;
  same_allocptr = refl;
  same_data = refl;
  same_flags = λ pos. refl;
}

abbrev script : List Op
script =
    Op.init 0x1000 0x2000 17
    ∷ Op.set_flag 0
    ∷ Op.set_data 0x12345678
    ∷ Op.set_ptr 0x3000
    ∷ Op.unset_flag 0
    ∷ []

run-Represents_example :
    (g' : Wide.Tagged) × (o' : Two.Tagged) × (run_generic tested script wide_null ≡ ok g')
    × (run_optimized tested script two_null ≡ ok o')
    × Represents tested g' o'
unfolding Two.max_data shl
run-Represents_example =
    run-Represents tested tested-IsConfig script wide_null two_null null-Represents (omega arith)

-- Objects that hold anything
abbrev wide_any : Wide.Tagged
wide_any = record { ptr = 3; allocptr = 5; payload = 7; flags = 1; zombie = true }

abbrev two_any : Two.Tagged
two_any = record { ptr = 1; allocptr = 0x0FFF000000000000 }

run-GettersAgree_example :
    (g' : Wide.Tagged) × (o' : Two.Tagged) × (run_generic tested
        (Op.init 0x1000 0x2000 17 ∷ Op.set_flag 0 ∷ Op.set_data 0x12345678 ∷ [])
        wide_any
      ≡ ok g')
    × (run_optimized tested
          (Op.init 0x1000 0x2000 17 ∷ Op.set_flag 0 ∷ Op.set_data 0x12345678 ∷ [])
          two_any
        ≡ ok o')
    × GettersAgree tested tested-IsConfig g' o'
unfolding Two.max_data shl
run-GettersAgree_example =
    run-GettersAgree tested tested-IsConfig wide_any two_any 0x1000 0x2000 17
      (Op.set_flag 0 ∷ Op.set_data 0x12345678 ∷ []) (omega arith) (omega arith) (omega arith)
      (omega arith)

abbrev plain_nulls : Store Plain.Ptr
plain_nulls q = record { ptr = 0; zombie = false }

abbrev marked_nulls : Store Marked.Ptr
marked_nulls q = record { ptr = 0 }

nulls-AllRepresent : Same.AllRepresent plain_nulls marked_nulls
nulls-AllRepresent q = inr (refl, refl, inl refl)

abbrev calls : List Zombie.Op
calls =
    Zombie.Op.init 1 0x1000
    ∷ Zombie.Op.copy_from 2 1
    ∷ Zombie.Op.set_zombie 1
    ∷ Zombie.Op.copy_from 4 1
    ∷ Zombie.Op.move_from 3 2
    ∷ Zombie.Op.get_dereferencable_ptr 3
    ∷ Zombie.Op.get_ptr 1
    ∷ []

run-agrees_example :
    Same.AllAgree calls plain_nulls
      (run Plain.pointers calls plain_nulls)
      (run Marked.pointers calls marked_nulls)
unfolding shl
run-agrees_example =
    run-agrees calls plain_nulls marked_nulls nulls-AllRepresent
      (inr (omega arith), (tt, (tt, (tt, (omega arith, (tt, (tt, tt)))))))

abbrev plain_sample : Store Plain.Ptr
plain_sample q =
    if q == 1 then record { ptr = 0x1000; zombie = false } else record { ptr = 0; zombie = true }

abbrev marked_sample : Store Marked.Ptr
marked_sample q =
    if q == 1 then record { ptr = 0x1000 } else record { ptr = Marked.zombie_indicator }

abbrev flag_pair : FlagPair.Flagged
flag_pair = record { ptr = 0x1000; flags = 1 }

abbrev flag_word : FlagWord.Word
flag_word = record { ptr = 0x1001 }

flag_word-Represents : FlagLaws.Represents 3 1 flag_pair flag_word
unfolding FlagWord.get_ptr FlagPair.get_ptr FlagWord.has_flag FlagPair.has_flag ones shl complement
flag_word-Represents = record {
  same_ptr = refl;
  same_flags = λ pos.
      elim pos
        as (λ q.
          (ltb q 1 && FlagWord.has_flag q flag_word) ≡ (ltb q 1 && FlagPair.has_flag q flag_pair)) [
            | zero ↦ refl
            | suc q ↦ ground arith
          ];
}

-- Address 0x1000, mask 5, flag 2.
abbrev mask_word : MaskWord.Word
mask_word = record { ptr = 0x0004000000001005 }

abbrev mask_members : MaskMembers.Masked
mask_members = record { ptr = 0x1000; flags = 4; mask = 5 }

set_mask_lem_example :
    (w' : MaskWord.Word) × (MaskWord.set_mask 3 3 mask_word 6 ≡ ok w')
    × (MaskWord.get_mask 3 3 w' ≡ 6)
    × (MaskWord.get_ptr 3 3 w' ≡ MaskWord.get_ptr 3 3 mask_word)
    × (MaskWord.has_flag 3 3 2 w' ≡ MaskWord.has_flag 3 3 2 mask_word)
set_mask_lem_example =
    set_mask_lem 3 3 (omega arith) mask_word 6 2 (omega arith) (omega arith) (omega arith)

abbrev null_with_tag : DataWord.Ptr
null_with_tag = record { ptr = 0x0007000000000000 }

abbrev members_with_tag : DataMembers.Ptr
members_with_tag = record { ptr = 0; payload = 7; zombie = false }
