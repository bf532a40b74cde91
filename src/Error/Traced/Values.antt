-- ===== src/Error/Traced/Values.antt =====
-- The values of errors: what is made is given back.
use nodecpp_foundation.Base.{
  ℕ, ◌*◌, ◌≡◌, ◌≢◌, refl, ap, sym, ◌∙◌, arith, ◌==◌, true, false, List, [], ◌∷◌,
}
use nodecpp_foundation.Base.Lists.{elem, erase, put, length, IsMalloc}
use nodecpp_foundation.Base.Outcome.{ok}
use nodecpp_foundation.Log.Format.{get_current_time_stamp}
use nodecpp_foundation.Stack.Pointers.{
  StackPointers, no_pointers, Heap, free, release, destroy, copy_construct,
}
use nodecpp_foundation.Stack.Pointers.Laws.{IsFresh, added, init-in_heap, eq_refl, neq}
use nodecpp_foundation.Stack.Info.{new_stack_info, take_stack, preinit}
use nodecpp_foundation.Stack.Info.Taken.{init-on_stack}
use nodecpp_foundation.Error.Class.{Domain, plain_domain, std_domain, memory_domain}
use nodecpp_foundation.Error.Traced.{
  ErrorValue, World, read_value, new_value, create_value, destroy_value,
}

pointers : ℕ → ℕ → StackPointers
pointers q n = record { ptrs = q; cnt = n }

-- The stack that a new information takes
take_stack-new :
    (malloc : List ℕ → ℕ → ℕ) (w : World) (stack : List ℕ) (ms : ℕ)
    → malloc w.heap.live (8 * length stack) ≢ 0
    → length stack ≢ 0
    → take_stack malloc w.heap w.thread new_stack_info [] stack ms
      ≡ ok (
        added w.heap (malloc w.heap.live (8 * length stack)) stack,
        (get_current_time_stamp w.thread ms).0,
        record new_stack_info {
          stack_pointers = pointers (malloc w.heap.live (8 * length stack)) (length stack);
          time_stamp = (get_current_time_stamp w.thread ms).1;
        },
      )
unfolding take_stack preinit release pointers
take_stack-new malloc w stack ms given nonempty =
    rw
      (
        take_stack,
        preinit,
        init-on_stack malloc w.heap w.heap no_pointers stack refl given nonempty,
      )
      refl

-- A copy of an array that is in use
copy_construct-added :
    (malloc : List ℕ → ℕ → ℕ) (heap : Heap) (q : ℕ) (ws : List ℕ)
    → malloc (q ∷ heap.live) (8 * length ws) ≢ 0
    → length ws ≢ 0
    → copy_construct malloc (added heap q ws) (pointers q (length ws))
      ≡ ok (
        added (added heap q ws) (malloc (q ∷ heap.live) (8 * length ws)) ws,
        pointers (malloc (q ∷ heap.live) (8 * length ws)) (length ws),
      )
unfolding copy_construct added pointers release
copy_construct-added malloc heap q ws given nonempty =
    let there : put heap.words q ws q ≡ ws = rw (eq_refl q) refl in
    let done =
      init-in_heap malloc (added heap q ws) (added heap q ws) no_pointers q (length ws) refl given
        nonempty (ground arith) (ap length there) in
    let q2 = malloc (q ∷ heap.live) (8 * length ws) in
    done ∙ ap (λ t. ok (added (added heap q ws) q2 t, pointers q2 (length ws))) there

-- The array under the last one is given back.
destroy-under :
    (heap : Heap) (q q2 n : ℕ) (ws : List ℕ)
    → q ≢ 0
    → elem q2 (q ∷ heap.live) ≡ false
    → (h : Heap) × (destroy (added (added heap q ws) q2 ws) (pointers q n) ≡ ok h)
      × (h.live ≡ q2 ∷ heap.live)
unfolding destroy release free added pointers
destroy-under heap q q2 n ws given new =
    let apart : (q == q2) ≡ false = ground (arith, new) in
    (
      record (added (added heap q ws) q2 ws) { live = q2 ∷ heap.live },
      rw (destroy, release, free, neq given) (rw (apart, eq_refl q) refl),
      refl,
    )

read_value-live :
    (w : World) (p : ℕ) → p ≢ 0 → elem p w.live ≡ true → read_value w p ≡ ok (w.value_at p)
unfolding read_value
read_value-live w p given there = rw (read_value, neq given, there) refl

destroy-live :
    (heap : Heap) (sp : StackPointers)
    → sp.ptrs ≢ 0
    → elem sp.ptrs heap.live ≡ true
    → destroy heap sp ≡ ok (record heap { live = erase sp.ptrs heap.live })
unfolding destroy release free
destroy-live heap sp given there = rw (destroy, release, neq given) (rw (free, there) refl)

-- A value in use
destroy_value-live :
    (w : World) (d : Domain) (p : ℕ)
    → d ≢ plain_domain
    → p ≢ 0
    → elem p w.live ≡ true
    → (w.value_at p).stack_info.stack_pointers.ptrs ≢ 0
    → elem (w.value_at p).stack_info.stack_pointers.ptrs w.heap.live ≡ true
    → destroy_value w d p
      ≡ ok (record w {
        live = erase p w.live;
        heap = record w.heap {
          live = erase (w.value_at p).stack_info.stack_pointers.ptrs w.heap.live;
        };
      })
unfolding destroy_value
destroy_value-live w plain_domain p coded given there held array = absurd (coded refl)
destroy_value-live w std_domain p coded given there held array =
    rw (destroy_value, neq given, read_value-live w p given there)
      (rw (destroy-live w.heap (w.value_at p).stack_info.stack_pointers held array) refl)
destroy_value-live w memory_domain p coded given there held array =
    rw (destroy_value, neq given, read_value-live w p given there)
      (rw (destroy-live w.heap (w.value_at p).stack_info.stack_pointers held array) refl)

-- The value of an error made with `code`, its stack in the block `q`
made : World → ℕ → ℕ → ℕ → ℕ → ErrorValue
made w code ms q n = record {
  stack_info = record new_stack_info {
    stack_pointers = pointers q n;
    time_stamp = (get_current_time_stamp w.thread ms).1;
  };
  error_code = code;
}

-- The world that then has it at `p`
with_value : World → Heap → ℕ → ErrorValue → ℕ → World
with_value w h p v ms = record {
  live = p ∷ w.live;
  value_at = put w.value_at p v;
  heap = h;
  thread = (get_current_time_stamp w.thread ms).0;
}

create_value-made :
    (new_block : List ℕ → ℕ) (malloc : List ℕ → ℕ → ℕ) (w : World) (code : ℕ) (stack : List ℕ)
    (ms : ℕ)
    → IsFresh malloc
    → ((live : List ℕ) (n : ℕ) → malloc live n ≢ 0)
    → length stack ≢ 0
    → (q : ℕ) × (h : Heap) × (q ≢ 0)
      × (h.live ≡ q ∷ w.heap.live)
      × (create_value new_block malloc w code stack ms
          ≡ ok (
            with_value w h (new_block w.live) (made w code ms q (length stack)) ms,
            new_block w.live,
          ))
unfolding create_value new_value added pointers with_value made
create_value-made new_block malloc w code stack ms fresh gives nonempty =
    let n = length stack in
    let q = malloc w.heap.live (8 * n) in
    let given = gives w.heap.live (8 * n) in
    let given2 = gives (q ∷ w.heap.live) (8 * n) in
    let took = take_stack-new malloc w stack ms given nonempty in
    let copied = copy_construct-added malloc w.heap q stack given2 nonempty in
    let gone =
      destroy-under w.heap q (malloc (q ∷ w.heap.live) (8 * n)) n stack given
        (fresh (q ∷ w.heap.live) (8 * n)) in
    (
      malloc (q ∷ w.heap.live) (8 * n),
      gone.0,
      given2,
      gone.2,
      rw (create_value, took) (rw (new_value, copied) (rw gone.1 refl)),
    )

-- An error value that is made and destroyed, where `new` and `malloc` give new blocks and the stack is not empty: it
-- has the code that it is made with, and afterwards the values and the arrays in use are those of before.
pub create_value-destroy_value :
    (new_block : List ℕ → ℕ) (malloc : List ℕ → ℕ → ℕ) (w : World) (d : Domain) (code : ℕ)
    (stack : List ℕ) (ms : ℕ)
    → IsMalloc new_block
    → IsFresh malloc
    → ((live : List ℕ) (n : ℕ) → malloc live n ≢ 0)
    → d ≢ plain_domain
    → length stack ≢ 0
    → (s : World × ℕ) × (v : ErrorValue) × (w' : World) × (create_value new_block malloc w code
          stack ms
        ≡ ok s)
      × (read_value (s.0) (s.1) ≡ ok v)
      × (v.error_code ≡ code)
      × (destroy_value (s.0) d (s.1) ≡ ok w')
      × (w'.live ≡ w.live)
      × (w'.heap.live ≡ w.heap.live)
unfolding with_value made pointers
create_value-destroy_value new_block malloc w d code stack ms is fresh gives coded nonempty =
    let new = create_value-made new_block malloc w code stack ms fresh gives nonempty in
    let p = new_block w.live in
    let w1 = with_value w (new.1) p (made w code ms (new.0) (length stack)) ms in
    let at_p : w1.value_at p ≡ made w code ms (new.0) (length stack) = rw (eq_refl p) refl in
    let there : elem p w1.live ≡ true = ground arith in
    let held : (w1.value_at p).stack_info.stack_pointers.ptrs ≡ new.0 =
      ap (λ (t : ErrorValue). t.stack_info.stack_pointers.ptrs) at_p in
    let array : elem ((w1.value_at p).stack_info.stack_pointers.ptrs) w1.heap.live ≡ true =
      rw (held, new.3) (ground arith) in
    (
      (w1, p),
      made w code ms (new.0) (length stack),
      record w1 {
        live = erase p w1.live;
        heap = record w1.heap {
          live = erase (w1.value_at p).stack_info.stack_pointers.ptrs w1.heap.live;
        };
      },
      new.4,
      read_value-live w1 p (is.not_null w.live) there ∙ ap ok at_p,
      refl,
      destroy_value-live w1 d p coded (is.not_null w.live) there (λ e. new.2 (sym held ∙ e)) array,
      rw (eq_refl p) refl,
      rw (held, new.3) (ground arith),
    )
