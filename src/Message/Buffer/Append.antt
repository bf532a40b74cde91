-- ===== src/Message/Buffer/Append.antt =====
-- What `append` and `appendUint8` leave in a message: every loop ends, no assertion fails, and the
-- bytes are those of before followed by those appended.
use nodecpp_foundation.Base.{ℕ, zero, suc, ◌≤◌, ◌<◌, ◌≡◌, inl, inr, refl}
use nodecpp_foundation.Base.{List, [], ◌∷◌, ◌++◌, lt_or_ge, leb, ap, arith, false}
use nodecpp_foundation.Base.Lists.{
  length, take, drop, length-append, append_assoc, take-drop, length-take, length-drop, append-nil,
}
use nodecpp_foundation.Base.Outcome.{ok}
use nodecpp_foundation.Message.Memory.{InternalMsg, Heap}
use nodecpp_foundation.Base.Lists.{IsMalloc}
use nodecpp_foundation.Message.Buffer.{
  open_page, fill, append_loop, append, append_uint8, remaining_size_in_current_page,
}
use nodecpp_foundation.Message.Buffer.Contents.{Holds}
use nodecpp_foundation.Message.Buffer.Fill.{Fits, IsReady, Holds-fill, close_page-fill, Leaves}
use nodecpp_foundation.Message.Buffer.Open.{open_page_lem}

-- The three ways in which a round of the loop goes on from an open page.
module _ (malloc : List ℕ → ℕ) (page : ℕ → ℕ) (h : Heap) (m : InternalMsg) (h' : Heap)
    (m' : InternalMsg) (contents : List ℕ) (fuel x : ℕ) (xs : List ℕ)
    (e : open_page malloc h m ≡ ok (h', m')) (r : IsReady page h' m' contents)
    (fits : Fits contents (length (x ∷ xs))) where
  abbrev buff : List ℕ
  buff = x ∷ xs

  abbrev room : ℕ
  room = remaining_size_in_current_page m'

  round-below :
      length buff < room → Leaves (contents ++ buff) (append_loop malloc (suc fuel) h m buff)
  unfolding append_loop
  round-below lt = (
    page,
    (fill h' m' buff).0,
    (fill h' m' buff).1,
    rw (e) (ground arith),
    Holds-fill page h' m' contents buff r fits lt,
  )

  round-full :
      length buff ≡ room → Leaves (contents ++ buff) (append_loop malloc (suc fuel) h m buff)
  unfolding append_loop
  round-full full =
      let (p2, h2, m2, e2, w) = close_page-fill page h' m' contents buff r fits full in
      (p2, h2, m2, rw (e) (ground (arith, e2)), w)

  round-above :
      room < length buff
      → ((page2 : ℕ → ℕ) (h2 : Heap) (m2 : InternalMsg)
          → Holds page2 h2 m2 (contents ++ take room buff)
          → Leaves
              ((contents ++ take room buff) ++ drop room buff)
              (append_loop malloc fuel h2 m2 (drop room buff)))
      → Leaves (contents ++ buff) (append_loop malloc (suc fuel) h m buff)
  unfolding append_loop
  round-above gt rest =
      let (p2, h2, m2, e2, w2) =
        close_page-fill page h' m' contents (take room buff) r
          (omega (arith, length-take room buff (omega arith)))
          (length-take room buff (omega arith)) in
      let (p3, h3, m3, e3, w3) = rest p2 h2 m2 w2 in
      (
        p3,
        h3,
        m3,
        rw (e) (rw (over) (rw (e2) e3)),
        rw
            (
              ← ap (λ t. contents ++ t) (take-drop room buff),
              ← append_assoc contents (take room buff) (drop room buff),
            )
            w3,
      )
    where
      over : leb (length (x ∷ xs)) (remaining_size_in_current_page m') ≡ false
      over = ground arith

module _ (malloc : List ℕ → ℕ) (ma : IsMalloc malloc) where
  append_loop-Leaves :
      (fuel : ℕ) (page : ℕ → ℕ) (h : Heap) (m : InternalMsg) (contents buff : List ℕ)
      → Holds page h m contents
      → length buff ≤ fuel
      → Fits contents (length buff)
      → Leaves (contents ++ buff) (append_loop malloc fuel h m buff)
  unfolding append_loop
  append_loop-Leaves fuel page h m contents [] w le fits =
      (page, h, m, refl, rw (append-nil contents) w)
  append_loop-Leaves zero page h m contents (x ∷ xs) w le fits = absurd (omega arith)
  append_loop-Leaves (suc fuel) page h m contents (x ∷ xs) w le fits =
      let (p1, h1, m1, e, r) = open_page_lem malloc ma page h m contents w (omega arith) in
      elim (lt_or_ge (length (x ∷ xs)) (remaining_size_in_current_page m1)) [
        | inl below ↦ round-below malloc p1 h m h1 m1 contents fuel x xs e r fits below
        | inr ge ↦ elim (lt_or_ge (remaining_size_in_current_page m1) (length (x ∷ xs))) [
          | inl above ↦
              round-above malloc p1 h m h1 m1 contents fuel x xs e r fits above (λ p2 h2 m2 w2.
                append_loop-Leaves fuel p2 h2 m2
                  (contents ++ take (remaining_size_in_current_page m1) (x ∷ xs))
                  (drop (remaining_size_in_current_page m1) (x ∷ xs)) w2
                  (omega (arith, length-drop (remaining_size_in_current_page m1) (x ∷ xs)))
                  (omega (
                    arith,
                    length-append contents (take (remaining_size_in_current_page m1) (x ∷ xs)),
                    length-take (remaining_size_in_current_page m1) (x ∷ xs) (omega arith),
                    length-drop (remaining_size_in_current_page m1) (x ∷ xs),
                  )))
          | inr full ↦ round-full malloc p1 h m h1 m1 contents fuel x xs e r fits (omega arith)
        ]
      ]

  pub append-Holds :
      (page : ℕ → ℕ) (h : Heap) (m : InternalMsg) (contents buff : List ℕ)
      → Holds page h m contents
      → Fits contents (length buff)
      → Leaves (contents ++ buff) (append malloc h m buff)
  unfolding append
  append-Holds page h m contents buff w fits =
      append_loop-Leaves (length buff) page h m contents buff w (omega arith) fits

  -- On a message that holds `contents`, `appendUint8` does what `append` of the one byte does, and
  -- leaves `contents` followed by it, if `malloc` gives fresh pages and the sizes fit in a word.
  pub append_uint8-Holds :
      (page : ℕ → ℕ) (h : Heap) (m : InternalMsg) (contents : List ℕ) (what : ℕ)
      → Holds page h m contents
      → Fits contents 1
      → (append_uint8 malloc h m what ≡ append malloc h m (what ∷ []))
        × Leaves (contents ++ (what ∷ [])) (append_uint8 malloc h m what)
  unfolding append append_loop append_uint8
  append_uint8-Holds page h m contents what w fits =
      (same, rw (same) (append-Holds page h m contents (what ∷ []) w fits))
    where
      same : append_uint8 malloc h m what ≡ append malloc h m (what ∷ [])
      same =
          let (p1, h1, m1, e, r) = open_page_lem malloc ma page h m contents w (omega arith) in
          rw (e) (ground (arith, r.opened, r.sized))
