-- ===== src/Message/Reading/Counts.antt =====
-- The header of a message counts the pages that it lists itself.
use nodecpp_foundation.Base.{ℕ, zero, suc, ◌+◌, ◌≤◌, ◌<◌, ◌≡◌, arith}
use nodecpp_foundation.Base.{List, [], ◌∷◌, leb, ◌==◌, Bool-cases, inl, inr}
use nodecpp_foundation.Base.Lists.{length, take, drop}
use nodecpp_foundation.Base.Outcome.{ok, asserting-ok, >>=-ok}
use nodecpp_foundation.Message.Memory.{local_storage_size, InternalMsg, Heap}
use nodecpp_foundation.Message.Buffer.{
  impl_add_page, reserve_space_for_convertion_to_tag, open_page, append_loop, fill, close_page,
  remaining_size_in_current_page,
}

pub record IsCounted (m : InternalMsg) : Type 0 where
  pub counted : m.page_cnt ≤ local_storage_size → m.first_header.used_cnt ≡ m.page_cnt

-- The pages counted after a call, at most one more than before
record Counts (m m' : InternalMsg) : Type 0 where
  still : IsCounted m'
  few : m'.page_cnt ≤ m.page_cnt + 1

module _ (malloc : List ℕ → ℕ) where
  impl_add_page-Counts :
      (h : Heap) (m : InternalMsg) (h' : Heap) (m' : InternalMsg)
      → IsCounted m
      → m.page_cnt + 1 < 0x10000000000000000
      → impl_add_page malloc h m ≡ ok (h', m')
      → Counts m m'
  unfolding impl_add_page
  impl_add_page-Counts h m h' m' c small e = record {
    still = record { counted = λ le. ground (arith, e, c.counted, small, le) };
    few = ground (arith, e, small);
  }

  reserve-Counts :
      (h : Heap) (m : InternalMsg) (h' : Heap) (m' : InternalMsg)
      → IsCounted m
      → m.page_cnt + 1 < 0x10000000000000000
      → reserve_space_for_convertion_to_tag malloc h m ≡ ok (h', m')
      → Counts m m'
  unfolding reserve_space_for_convertion_to_tag
  reserve-Counts h m h' m' c small e =
      let (none_current, e1) = asserting-ok (m.current_page == 0) _ e in
      let ((h1, m1), adds, e2) = >>=-ok (impl_add_page malloc h m) _ e1 in
      let k = impl_add_page-Counts h m h1 m1 c small adds in
      record {
        still = record { counted = λ le. ground (arith, e2, k.still.counted, le) };
        few = ground (arith, e2, k.few);
      }

  open_page-Counts :
      (h : Heap) (m : InternalMsg) (h' : Heap) (m' : InternalMsg)
      → IsCounted m
      → m.page_cnt + 1 < 0x10000000000000000
      → open_page malloc h m ≡ ok (h', m')
      → Counts m m'
  unfolding open_page
  open_page-Counts h m h' m' c small e = elim (Bool-cases (m.current_page == 0)) [
    | inr opened ↦ record {
      still = record { counted = λ le. ground (arith, e, opened, c.counted, le) };
      few = ground (arith, e, opened);
    }
    | inl closed ↦ elim (Bool-cases (m.total_sz == 0)) [
      | inl empty ↦ let k = reserve-Counts h m h' m' c small (ground (arith, e, closed, empty)) in k
      | inr some ↦
          let k = impl_add_page-Counts h m h' m' c small (ground (arith, e, closed, some)) in k
    ]
  ]

  pub append_loop-Counts :
      (fuel : ℕ) (h : Heap) (m : InternalMsg) (xs : List ℕ) (h' : Heap) (m' : InternalMsg)
      → IsCounted m
      → m.page_cnt + fuel < 0x10000000000000000
      → append_loop malloc fuel h m xs ≡ ok (h', m')
      → IsCounted m'
  unfolding append_loop
  append_loop-Counts fuel h m [] h' m' c small e = record {
    counted = λ le. ground (arith, e, c.counted, le);
  }
  append_loop-Counts zero h m (x ∷ xs) h' m' c small e = cc
  append_loop-Counts (suc fuel) h m (x ∷ xs) h' m' c small e =
      let ((h1, m1), opens, e1) = >>=-ok (open_page malloc h m) _ e in
      let k = open_page-Counts h m h1 m1 c (omega (arith, small)) opens in
      elim (Bool-cases (leb (length (x ∷ xs)) (remaining_size_in_current_page m1))) [
        | inl fits ↦ record { counted = λ le. ground (arith, e1, fits, k.still.counted, le) }
        | inr over ↦
            let room = remaining_size_in_current_page m1 in
            let t = fill h1 m1 (take room (x ∷ xs)) in
            let ((h2, m2), closes, e2) =
              >>=-ok (close_page (t.0) (t.1))
                (λ u. append_loop malloc fuel (u.0) (u.1) (drop room (x ∷ xs))) (rw (over) at e1) in
            append_loop-Counts fuel h2 m2 (drop room (x ∷ xs)) h' m'
              (record { counted = λ le. ground (arith, closes, k.still.counted, le) })
              (ground (arith, closes, k.few, small)) e2
      ]
