-- ===== src/Stack/Cache/Reached.antt =====
-- The cache answers as the search that it spares, except for the offset.
use nodecpp_foundation.Base.{ℕ, ◌≡◌, refl, ap, sym, subst, ◌∙◌, arith}
use nodecpp_foundation.Base.{Option, none, some, Bool, Bool-cases, inl, inr, ◌==◌}
use nodecpp_foundation.Base.Outcome.{Outcome, ok, >>=-ok, ◌>>=◌}
use nodecpp_foundation.Stack.Resolve.{StackFrameInfo, new_info}
use nodecpp_foundation.Stack.Cache.{
  StackFrameInfoInternal, StackPointerInfoCache, new_cache, get_resolved, add_resolved,
  resolve_data,
}
use nodecpp_foundation.Stack.Cache.Entries.{
  plain, Entry, add_resolved-Entry, added_entry, added_entry-Entry, add_resolved-data,
  get_resolved-Entry, plain_idem, native_eq, some_inj,
}

module _ (to_info : ℕ → StackFrameInfo → Outcome (StackFrameInfo × Bool)) where
  -- Every entry stands for what the search answers about its address.
  IsCache : StackPointerInfoCache → Type 0
  IsCache c =
      (ptr : ℕ) (e : StackFrameInfoInternal)
      → c.resolved_data ptr ≡ some e
      → (r : StackFrameInfo × Bool) × (to_info ptr new_info ≡ ok r) × Entry c e (r.0)

  add_resolved-IsCache :
      (c : StackPointerInfoCache) (ptr : ℕ) (r : StackFrameInfo × Bool)
      → c.resolved_data ptr ≡ none
      → to_info ptr new_info ≡ ok r
      → IsCache c
      → IsCache (add_resolved c ptr (r.0))
  unfolding IsCache
  add_resolved-IsCache c ptr r free answer inv q e is = elim (Bool-cases (q == ptr)) [
    | inl same ↦
        let place : q ≡ ptr = ground (arith, same) in
        let entry : added_entry c (r.0) ≡ e = some_inj (
          sym (
            ap (λ (f : ℕ → Option StackFrameInfoInternal). f q) (add_resolved-data c ptr (r.0) free)
            ∙ rw same refl)
          ∙ is) in
        (
          r,
          ap (λ p. to_info p new_info) place ∙ answer,
          rw (sym entry) (added_entry-Entry c ptr (r.0)),
        )
    | inr other ↦
        let old : c.resolved_data q ≡ some e =
          sym (
            ap (λ (f : ℕ → Option StackFrameInfoInternal). f q) (add_resolved-data c ptr (r.0) free)
            ∙ rw other refl)
          ∙ is in
        let was = inv q e old in (was.0, was.1, add_resolved-Entry c ptr (r.0) (was.0.0) e was.2)
  ]

  -- The caches of a run of the program: new, or after an address is resolved
  pub data Reached : StackPointerInfoCache → Type 0 where
    made : Reached new_cache
    resolved :
        {c : StackPointerInfoCache} (ptr : ℕ) {s : StackPointerInfoCache × StackFrameInfo}
        → Reached c
        → resolve_data to_info c ptr new_info ≡ ok s
        → Reached (s.0)

  resolve_data-hit :
      (c : StackPointerInfoCache) (ptr : ℕ) (e : StackFrameInfoInternal) (info : StackFrameInfo)
      → c.resolved_data ptr ≡ some e
      → Entry c e info
      → resolve_data to_info c ptr new_info ≡ ok (c, plain info)
  unfolding resolve_data
  resolve_data-hit c ptr e info is held =
      rw (resolve_data, get_resolved-Entry c ptr e info is held) refl

  resolve_data-miss :
      (c : StackPointerInfoCache) (ptr : ℕ)
      → c.resolved_data ptr ≡ none
      → resolve_data to_info c ptr new_info
        ≡ (to_info ptr new_info >>= λ r. ok (add_resolved c ptr (r.0), r.0))
  unfolding resolve_data get_resolved
  resolve_data-miss c ptr free = rw (resolve_data, get_resolved, free) refl

  -- How an address is resolved: from its entry, or by a search that is then added
  data Step (c : StackPointerInfoCache) (ptr : ℕ) (s : StackPointerInfoCache × StackFrameInfo)
      : Type 0 where
    hit :
        (r : StackFrameInfo × Bool) (e : StackFrameInfoInternal)
        → c.resolved_data ptr ≡ some e
        → to_info ptr new_info ≡ ok r
        → Entry c e (r.0)
        → (c, plain (r.0)) ≡ s
        → Step c ptr s
    miss :
        (r : StackFrameInfo × Bool)
        → c.resolved_data ptr ≡ none
        → to_info ptr new_info ≡ ok r
        → (add_resolved c ptr (r.0), r.0) ≡ s
        → Step c ptr s

  ok_inj : {A : Type 0} {x y : A} → ok x ≡ ok y → x ≡ y
  ok_inj e = cc

  resolve_data-Step :
      (c : StackPointerInfoCache) (ptr : ℕ) (s : StackPointerInfoCache × StackFrameInfo)
      → IsCache c
      → resolve_data to_info c ptr new_info ≡ ok s
      → Step c ptr s
  unfolding IsCache
  resolve_data-Step c ptr s inv e = by_entry (c.resolved_data ptr) refl
    where
      by_entry : (o : Option StackFrameInfoInternal) → c.resolved_data ptr ≡ o → Step c ptr s
      by_entry none free =
          let r =
            >>=-ok (to_info ptr new_info) (λ r. ok (add_resolved c ptr (r.0), r.0))
              (sym (resolve_data-miss c ptr free) ∙ e) in
          miss (r.0) free (r.1) (ok_inj r.2)
      by_entry (some en) is =
          let held = inv ptr en is in
          hit (held.0) en is (held.1) held.2
            (ok_inj (sym (resolve_data-hit c ptr en (held.0.0) is held.2) ∙ e))

  Step-IsCache :
      (c : StackPointerInfoCache) (ptr : ℕ) (s : StackPointerInfoCache × StackFrameInfo)
      → IsCache c
      → Step c ptr s
      → IsCache (s.0)
  Step-IsCache c ptr s inv (hit r e is answer held eq) =
      subst IsCache (ap (λ (p : StackPointerInfoCache × StackFrameInfo). p.0) eq) inv
  Step-IsCache c ptr s inv (miss r free answer eq) =
      subst IsCache (ap (λ (p : StackPointerInfoCache × StackFrameInfo). p.0) eq)
        (add_resolved-IsCache c ptr r free answer inv)

  Reached-IsCache : (c : StackPointerInfoCache) → Reached c → IsCache c
  unfolding IsCache
  Reached-IsCache _ made = λ ptr e is. cc
  Reached-IsCache _ (resolved {c} ptr {s} before is) =
      let inv = Reached-IsCache c before in
      Step-IsCache c ptr s inv (resolve_data-Step c ptr s inv is)

  -- In every cache that a run reaches, an address that the search can answer is resolved, and the answer is
  -- the search's: the module, the function, the source and the line agree, the names up to their first zero.
  -- The offsets are left out.
  pub resolve_data-plain :
      (c : StackPointerInfoCache) (ptr : ℕ) (r : StackFrameInfo × Bool)
      → Reached c
      → to_info ptr new_info ≡ ok r
      → (s : StackPointerInfoCache × StackFrameInfo) × (resolve_data to_info c ptr new_info ≡ ok s)
        × (plain (s.1) ≡ plain (r.0))
  unfolding IsCache
  resolve_data-plain c ptr r before answer = by_entry (c.resolved_data ptr) refl
    where
      by_entry :
          (o : Option StackFrameInfoInternal)
          → c.resolved_data ptr ≡ o
          → (s : StackPointerInfoCache × StackFrameInfo) × (resolve_data to_info c ptr new_info
              ≡ ok s)
            × (plain (s.1) ≡ plain (r.0))
      by_entry none free =
          ((add_resolved c ptr (r.0), r.0), resolve_data-miss c ptr free ∙ rw answer refl, refl)
      by_entry (some en) is =
          let held = Reached-IsCache c before ptr en is in
          let same : held.0 ≡ r = ok_inj (sym held.1 ∙ answer) in
          (
            (c, plain (held.0.0)),
            resolve_data-hit c ptr en (held.0.0) is held.2,
            ap (λ (t : StackFrameInfo × Bool). plain (plain (t.0))) same ∙ plain_idem (r.0),
          )

  -- In every cache that a run reaches, an address that is resolved a second time gives the first answer with
  -- its names cut at their first zero and both offsets zero, whatever they were, and the cache is not changed.
  pub resolve_data-again :
      (c : StackPointerInfoCache) (ptr : ℕ) (s : StackPointerInfoCache × StackFrameInfo)
      → Reached c
      → resolve_data to_info c ptr new_info ≡ ok s
      → resolve_data to_info (s.0) ptr new_info ≡ ok (s.0, plain (s.1))
  resolve_data-again c ptr s before is =
      by_step (resolve_data-Step c ptr s (Reached-IsCache c before) is)
    where
      by_step : Step c ptr s → resolve_data to_info (s.0) ptr new_info ≡ ok (s.0, plain (s.1))
      by_step (hit r e there answer held eq) =
          subst
            (λ (t : StackPointerInfoCache × StackFrameInfo).
              resolve_data to_info (t.0) ptr new_info ≡ ok (t.0, plain (t.1)))
            eq
            (resolve_data-hit c ptr e (r.0) there held
              ∙ ap (λ i. ok (c, i)) (sym (plain_idem (r.0))))
      by_step (miss r free answer eq) =
          subst
            (λ (t : StackPointerInfoCache × StackFrameInfo).
              resolve_data to_info (t.0) ptr new_info ≡ ok (t.0, plain (t.1)))
            eq
            (resolve_data-hit (add_resolved c ptr (r.0)) ptr (added_entry c (r.0)) (r.0)
              (ap (λ (f : ℕ → Option StackFrameInfoInternal). f ptr)
                  (add_resolved-data c ptr (r.0) free)
                ∙ rw (native_eq ptr) refl)
              (added_entry-Entry c ptr (r.0)))
