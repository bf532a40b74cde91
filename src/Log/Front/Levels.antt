-- ===== src/Log/Front/Levels.antt =====
-- The levels of a log and those of its transports.
use nodecpp_foundation.Base.{ℕ, ◌+◌, ◌≡◌, inl, inr, refl, ap, sym, ◌∙◌, arith, ◌==◌}
use nodecpp_foundation.Base.{List, [], ◌∷◌, ◌++◌, Bool-cases, true, false}
use nodecpp_foundation.Base.Outcome.{ok}
use nodecpp_foundation.Base.Store.{Store, update}
use nodecpp_foundation.Base.Lists.{elem}
use nodecpp_foundation.Log.Counters.{fatal}
use nodecpp_foundation.Log.State.{
  LogBufferBaseData, init, add_ref, set_enter_terminating_phase, set_termination_allowed,
}
use nodecpp_foundation.Log.Front.{
  Log, for_each, set_guaranteed_level, set_critical_level, reset_guaranteed_level,
  reset_critical_level, enter_terminating_phase, allow_termination, clear, add,
}

-- What a program does with a log
pub data Op : Type 0 where
  guaranteed : ℕ → Op
  critical : ℕ → Op
  reset_guaranteed : Op
  reset_critical : Op
  entering_termination : Op
  allowing_termination : Op
  clearing : Op
  adding : (address mem_page_sz : ℕ) (memory : ℕ → ℕ) (file : List ℕ) → Op

abbrev pub State : Type 0
State = Store LogBufferBaseData × Log

-- An operation that returns takes the log from one state to another.
abbrev pub Does : Op → State → State → Type 0
Does (guaranteed l) p p' = set_guaranteed_level (p.0) (p.1) l ≡ p'
Does (critical l) p p' = (set_critical_level (p.0) (p.1) l, p.1) ≡ p'
Does reset_guaranteed p p' = reset_guaranteed_level (p.0) (p.1) ≡ p'
Does reset_critical p p' = (reset_critical_level (p.0) (p.1), p.1) ≡ p'
Does entering_termination p p' = (enter_terminating_phase (p.0) (p.1), p.1) ≡ p'
Does allowing_termination p p' = (allow_termination (p.0) (p.1), p.1) ≡ p'
Does clearing p p' = clear (p.0) (p.1) ≡ p'
Does (adding a sz memory file) p p' = add (p.0) (p.1) a sz memory file ≡ ok p'

-- Operations one after the other
pub data Run (p : State) : State → Type 0 where
  here : Run p p
  next : {q r : State} → Run p q → (op : Op) → Does op q r → Run p r

-- Every transport of the list has the level `l` as the first that may be skipped.
abbrev pub HaveLevel : Store LogBufferBaseData → ℕ → List ℕ → Type 0
HaveLevel s l ts = (t : ℕ) → elem t ts ≡ true → (s t).level_could_be_skipped ≡ l

-- The log and its transports agree on the first level that may be skipped.
abbrev pub InStep : State → Type 0
InStep p = HaveLevel (p.0) (p.1).level_could_be_skipped (p.1).transports

-- A loop that keeps the level of each transport keeps those of all.
for_each-keeps :
    (f : LogBufferBaseData → LogBufferBaseData) (ts : List ℕ) (s : Store LogBufferBaseData)
    (q l : ℕ)
    → ((d : LogBufferBaseData) → d.level_could_be_skipped ≡ l → (f d).level_could_be_skipped ≡ l)
    → (s q).level_could_be_skipped ≡ l
    → (for_each f s ts q).level_could_be_skipped ≡ l
for_each-keeps f [] s q l keeps e = e
for_each-keeps f (t ∷ ts) s q l keeps e =
    for_each-keeps f ts (update s t (f (s t))) q l keeps (elim (Bool-cases (q == t)) [
      | inl same ↦
          let here : q ≡ t = ground (arith, same) in rw (same) (keeps (s t) (rw (← here) e))
      | inr other ↦ rw (other) e
    ])

-- A loop that sets the level of each transport sets those of all.
for_each-sets :
    (f : LogBufferBaseData → LogBufferBaseData) (ts : List ℕ) (s : Store LogBufferBaseData) (l : ℕ)
    → ((d : LogBufferBaseData) → (f d).level_could_be_skipped ≡ l)
    → HaveLevel (for_each f s ts) l ts
for_each-sets f [] s l sets q in_list = cc
for_each-sets f (t ∷ ts) s l sets q in_list = elim (Bool-cases (q == t)) [
  | inl same ↦
      for_each-keeps f ts (update s t (f (s t))) q l (λ d e. sets d) (rw (same) (sets (s t)))
  | inr other ↦ for_each-sets f ts (update s t (f (s t))) l sets q (rw (other) at in_list)
]

elem-last : (q a : ℕ) (ts : List ℕ) → (q == a) ≡ false → elem q (ts ++ (a ∷ [])) ≡ elem q ts
elem-last q a [] other = ground (arith, other)
elem-last q a (t ∷ ts) other = rw (elem-last q a ts other) refl

elem-here : (a : ℕ) (ts : List ℕ) → elem a (ts ++ (a ∷ [])) ≡ true
elem-here a [] = ground arith
elem-here a (t ∷ ts) = ground (arith, elem-here a ts)

kept :
    (f : LogBufferBaseData → LogBufferBaseData) (s : Store LogBufferBaseData) (l : ℕ)
    (ts ts' : List ℕ)
    → ((d : LogBufferBaseData) → (f d).level_could_be_skipped ≡ d.level_could_be_skipped)
    → HaveLevel s l ts
    → HaveLevel (for_each f s ts') l ts
kept f s l ts ts' same w q in_list = for_each-keeps f ts' s q l (λ d e. same d ∙ e) (w q in_list)

added-InStep :
    (s : Store LogBufferBaseData) (g : Log) (a sz : ℕ) (memory : ℕ → ℕ) (file : List ℕ) (p : State)
    → InStep (s, g)
    → add s g a sz memory file ≡ ok p
    → InStep p
unfolding add init add_ref
added-InStep s g a sz memory file p w h q in_list = elim (Bool-cases (q == a)) [
  | inl same ↦ ground (arith, h, same)
  | inr other ↦
      let e : elem q g.transports ≡ true =
        sym (elem-last q a g.transports other) ∙ ap (elem q) longer ∙ in_list in
      ground (arith, h, other, w q e)
]
  where
    longer : g.transports ++ (a ∷ []) ≡ (p.1).transports
    longer = ground (arith, h)

done-InStep : (op : Op) (p p' : State) → InStep p → Does op p p' → InStep p'
unfolding set_guaranteed_level set_critical_level reset_guaranteed_level reset_critical_level
    enter_terminating_phase allow_termination clear set_enter_terminating_phase
    set_termination_allowed
done-InStep (guaranteed l) p p' w h = rw (← h) (
    for_each-sets (λ d. record d { level_could_be_skipped = l + 1 }) (p.1).transports (p.0) (l + 1)
      (λ d. refl))
done-InStep (critical l) p p' w h = rw (← h) (
    kept (λ d. record d { level_guaranteed_write = l }) (p.0) (p.1).level_could_be_skipped
      (p.1).transports (p.1).transports (λ d. refl) w)
done-InStep reset_guaranteed p p' w h = rw (← h) (
    for_each-sets (λ d. record d { level_could_be_skipped = fatal + 1 }) (p.1).transports (p.0)
      (fatal + 1) (λ d. refl))
done-InStep reset_critical p p' w h = rw (← h) (
    kept (λ d. record d { level_guaranteed_write = fatal }) (p.0) (p.1).level_could_be_skipped
      (p.1).transports (p.1).transports (λ d. refl) w)
done-InStep entering_termination p p' w h = rw (← h) (
    kept set_enter_terminating_phase (p.0) (p.1).level_could_be_skipped (p.1).transports
      (p.1).transports (λ d. refl) w)
done-InStep allowing_termination p p' w h = rw (← h) (
    kept set_termination_allowed (p.0) (p.1).level_could_be_skipped (p.1).transports
      (p.1).transports (λ d. refl) w)
done-InStep clearing p p' w h = rw (← h) (λ q in_list. cc)
done-InStep (adding a sz memory file) p p' w h = added-InStep (p.0) (p.1) a sz memory file p' w h

-- Whatever a program does with a log, the log and its transports agree on the first level that may be
-- skipped: those that were there when it was set, and those added since.
pub Run-InStep : (p : State) {p' : State} → InStep p → Run p p' → InStep p'
Run-InStep p w here = w
Run-InStep p w (next {q} {r} run op h) = done-InStep op q r (Run-InStep p w run) h

-- They do not agree on the level of the messages that are waited for: a transport that is added after
-- `setCriticalLevel` has the level `fatal`, whatever was set, while it has the level of the log as the
-- first that may be skipped.
pub add-set_critical_level :
    (s : Store LogBufferBaseData) (g : Log) (l a sz : ℕ) (memory : ℕ → ℕ) (file : List ℕ)
    (p : State)
    → add (set_critical_level s g l) g a sz memory file ≡ ok p
    → (((p.0) a).level_guaranteed_write ≡ fatal)
      × (((p.0) a).level_could_be_skipped ≡ g.level_could_be_skipped)
      × (elem a (p.1).transports ≡ true)
unfolding add init add_ref
add-set_critical_level s g l a sz memory file p h =
    (ground (arith, h), ground (arith, h), ap (elem a) (sym longer) ∙ elem-here a g.transports)
  where
    longer : g.transports ++ (a ∷ []) ≡ (p.1).transports
    longer = ground (arith, h)
