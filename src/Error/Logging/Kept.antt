-- ===== src/Error/Logging/Kept.antt =====
-- What logging an error leaves as it was.
use nodecpp_foundation.Base.{
  ℕ, ◌≡◌, refl, subst, arith, ◌==◌, Bool, Bool-cases, Option, none, some, inl, inr, true, false,
  if◌then◌else◌, List, [], ◌∷◌, ◌++◌, ◌⊎◌,
}
use nodecpp_foundation.Base.Lists.{put}
use nodecpp_foundation.Base.Outcome.{Outcome, ok, throws, null_dereference, ◌>>=◌, >>=-ok}
use nodecpp_foundation.Log.Format.{Formatter, ThreadData}
use nodecpp_foundation.Stack.Resolve.{System, StackFrameInfo}
use nodecpp_foundation.Stack.Cache.{StackPointerInfoCache}
use nodecpp_foundation.Error.Messages.{Errno}
use nodecpp_foundation.Error.Class.{Domain, plain_domain, std_domain, memory_domain, Error}
use nodecpp_foundation.Error.Traced.{World, ErrorValue, read_value, value_to_message}
use nodecpp_foundation.Error.Messages.{error_text, happened_text, happened_at_text}
use nodecpp_foundation.Stack.Info.{
  StackInfo, is_data_stack_info, is_empty, frames, write_frames, postinit, where_taken_stack_info,
  log_to, log_by_default,
}
use nodecpp_foundation.Stack.Pointers.{Heap}
use nodecpp_foundation.Error.Logging.{
  Target, given, default, Sent, Call, send, log_info, keep_info, log_stack, log_with_stack,
  log_line, log_value, log_traced,
}

-- The stack `info'` is `info`, but for its text where that was empty.
abbrev pub IsWrittenOut : StackInfo → StackInfo → Type 0
IsWrittenOut info info' =
    (info'.stack_pointers ≡ info.stack_pointers)
    × (info'.strip_point ≡ info.strip_point)
    × (info'.time_stamp ≡ info.time_stamp)
    × ((info'.where_taken ≡ info.where_taken) ⊎ (info.where_taken ≡ []))

-- The same value, but for the text of its stack where that was empty
abbrev pub IsFilled : ErrorValue → ErrorValue → Type 0
IsFilled v v' = (v'.error_code ≡ v.error_code) × IsWrittenOut v.stack_info v'.stack_info

-- The same values in use, with the same contents but for the text of a stack that had none, and the same arrays
pub record Same (w w' : World) : Type 0 where
  pub live : w'.live ≡ w.live
  pub heap : w'.heap ≡ w.heap
  pub values : (p : ℕ) → IsFilled (w.value_at p) (w'.value_at p)

IsFilled-refl : (v : ErrorValue) → IsFilled v v
IsFilled-refl v = (refl, (refl, refl, refl, inl refl))

is_empty-nil : (text : List ℕ) → is_empty text ≡ true → text ≡ []
is_empty-nil [] e = refl
is_empty-nil (c ∷ cs) e = cc

read_value-at : (w : World) (p : ℕ) (v : ErrorValue) → read_value w p ≡ ok v → w.value_at p ≡ v
unfolding read_value
read_value-at w p v e = ground (arith, e)

ok_inj : {A : Type 0} {x y : A} → ok x ≡ ok y → x ≡ y
ok_inj e = cc

put-IsFilled :
    (values : ℕ → ErrorValue) (p : ℕ) (v : ErrorValue) (info : StackInfo) (q : ℕ)
    → values p ≡ v
    → IsWrittenOut v.stack_info info
    → IsFilled (values q) (put values p (record v { stack_info = info }) q)
put-IsFilled values p v info q same written = elim (Bool-cases (q == p)) [
  | inl here ↦
      let place : v ≡ values q = ground (arith, here, same) in
      rw here (
        subst (λ (x : ErrorValue). IsFilled x (record v { stack_info = info })) place
          (refl, written))
  | inr there ↦ rw there (IsFilled-refl (values q))
]

module _ (f : Formatter) (call : Call) (sys : System)
    (to_info : ℕ → StackFrameInfo → Outcome (StackFrameInfo × Bool)) where
  postinit-IsWrittenOut :
      (heap : Heap) (c : StackPointerInfoCache) (info : StackInfo)
      (r : StackPointerInfoCache × StackInfo)
      → info.where_taken ≡ []
      → postinit sys to_info heap c info ≡ ok r
      → IsWrittenOut info (r.1)
  unfolding postinit
  postinit-IsWrittenOut heap c info r none_yet e =
      let stack = >>=-ok (frames heap info) _ e in
      let out = >>=-ok (write_frames sys to_info c (stack.0) []) _ stack.2 in
      subst (λ (x : StackPointerInfoCache × StackInfo). IsWrittenOut info (x.1)) (ok_inj out.2)
        (refl, refl, refl, inr none_yet)

  where_taken_stack_info-IsWrittenOut :
      (heap : Heap) (c : StackPointerInfoCache) (info : StackInfo)
      (r : StackPointerInfoCache × StackInfo)
      → where_taken_stack_info sys to_info heap c info ≡ ok r
      → IsWrittenOut info (r.1)
  unfolding where_taken_stack_info
  where_taken_stack_info-IsWrittenOut heap c info r e =
      elim (Bool-cases (is_empty info.where_taken)) [
        | inl without ↦
            postinit-IsWrittenOut heap c info r (is_empty-nil info.where_taken without)
              (rw without at e)
        | inr with_text ↦
            subst (λ (x : StackPointerInfoCache × StackInfo). IsWrittenOut info (x.1))
              (ok_inj (rw with_text at e)) (refl, refl, refl, inl refl)
      ]

  log_info-IsWrittenOut :
      (t : Target) (w : World) (c : StackPointerInfoCache) (info : StackInfo)
      (r : StackPointerInfoCache × StackInfo × ThreadData × Sent)
      → log_info f call sys to_info t w c info ≡ ok r
      → IsWrittenOut info (r.1)
  unfolding log_info log_to log_by_default
  log_info-IsWrittenOut (given g) w c info r e =
      let i = >>=-ok (where_taken_stack_info sys to_info w.heap c info) _ e in
      subst (λ (x : StackPointerInfoCache × StackInfo × ThreadData × Sent). IsWrittenOut info (x.1))
        (ok_inj i.2) (where_taken_stack_info-IsWrittenOut w.heap c info (i.0) i.1)
  log_info-IsWrittenOut default w c info r e =
      let i = >>=-ok (where_taken_stack_info sys to_info w.heap c info) _ e in
      subst (λ (x : StackPointerInfoCache × StackInfo × ThreadData × Sent). IsWrittenOut info (x.1))
        (ok_inj i.2) (where_taken_stack_info-IsWrittenOut w.heap c info (i.0) i.1)

  log_stack-Same :
      (t : Target) (w : World) (c : StackPointerInfoCache) (p : ℕ)
      (r : World × StackPointerInfoCache × Sent)
      → log_stack f call sys to_info t w c p ≡ ok r
      → Same w (r.0)
  unfolding log_stack
  log_stack-Same t w c p r e =
      let v =
        >>=-ok (read_value w p)
          (λ v. log_info f call sys to_info t w c v.stack_info >>= λ r.
            ok (keep_info f call sys to_info w p v r))
          e in
      let i =
        >>=-ok (log_info f call sys to_info t w c (v.0).stack_info)
          (λ r. ok (keep_info f call sys to_info w p (v.0) r)) v.2 in
      let same = read_value-at w p (v.0) v.1 in
      let written = log_info-IsWrittenOut t w c (v.0).stack_info (i.0) i.1 in
      subst (λ (x : World × StackPointerInfoCache × Sent). Same w (x.0))
        {x = keep_info f call sys to_info w p (v.0) (i.0)} {y = r} (ok_inj i.2)
        record {
          live = refl;
          heap = refl;
          values = λ q. put-IsFilled w.value_at p (v.0) ((i.0).1) q same written;
        }

  log_with_stack-Same :
      (t : Target) (w : World) (c : StackPointerInfoCache) (p : ℕ) (text : List ℕ)
      (r : World × StackPointerInfoCache × Sent)
      → log_with_stack f call sys to_info t w c p text ≡ ok r
      → Same w (r.0)
  unfolding log_with_stack
  log_with_stack-Same t w c p text r e =
      let line = send f call t 0 w.thread text in
      let s =
        >>=-ok (log_stack f call sys to_info t (record w { thread = line.0 }) c p)
          (λ r. ok (r.0, r.1, line.1 ++ r.2)) e in
      let same = log_stack-Same t (record w { thread = line.0 }) c p (s.0) s.1 in
      subst (λ (x : World × StackPointerInfoCache × Sent). Same w (x.0)) (ok_inj s.2)
        record { live = same.live; heap = same.heap; values = same.values }

  log_line-Same :
      (t : Target) (w : World) (c : StackPointerInfoCache) (text : List ℕ)
      → Same w ((log_line f call sys to_info t w c text).0)
  unfolding log_line
  log_line-Same t w c text = record {
    live = refl;
    heap = refl;
    values = λ p. IsFilled-refl (w.value_at p);
  }

  -- The two ways that `log` goes on
  either-Same :
      (t : Target) (w : World) (c : StackPointerInfoCache) (p : ℕ) (some_stack : Bool) (t' : Target)
      (text text' : List ℕ) (r : World × StackPointerInfoCache × Sent)
      → (if some_stack
          then log_with_stack f call sys to_info t w c p text
          else ok (log_line f call sys to_info t' w c text'))
        ≡ ok r
      → Same w (r.0)
  either-Same t w c p true t' text text' r e = log_with_stack-Same t w c p text r e
  either-Same t w c p false t' text text' r e =
      subst (λ (x : World × StackPointerInfoCache × Sent). Same w (x.0)) (ok_inj e)
        (log_line-Same t' w c text')

  -- `log` with the text of a code
  message-Same :
      (t : Target) (w : World) (c : StackPointerInfoCache) (p : ℕ) (m : Outcome (List ℕ))
      (r : World × StackPointerInfoCache × Sent)
      → (read_value w p >>= λ v. m >>= λ text.
          if is_data_stack_info v.stack_info
          then log_with_stack f call sys to_info t w c p (text ++ happened_at_text)
          else ok (log_line f call sys to_info t w c text))
        ≡ ok r
      → Same w (r.0)
  message-Same t w c p m r is =
      let v =
        >>=-ok (read_value w p)
          (λ v. m >>= λ text.
            if is_data_stack_info v.stack_info
            then log_with_stack f call sys to_info t w c p (text ++ happened_at_text)
            else ok (log_line f call sys to_info t w c text))
          is in
      let text =
        >>=-ok m
          (λ text.
            if is_data_stack_info (v.0).stack_info
            then log_with_stack f call sys to_info t w c p (text ++ happened_at_text)
            else ok (log_line f call sys to_info t w c text))
          v.2 in
      either-Same t w c p (is_data_stack_info (v.0).stack_info) t (text.0 ++ happened_at_text)
        (text.0) r text.2

  log_value-Same :
      (e : Errno) (t : Target) (w : World) (c : StackPointerInfoCache) (d : Domain) (p : ℕ)
      (r : World × StackPointerInfoCache × Sent)
      → log_value f call sys to_info e t w c d p ≡ ok r
      → Same w (r.0)
  unfolding log_value
  log_value-Same e t w c plain_domain p r is =
      let v =
        >>=-ok (read_value w p)
          (λ v.
            if is_data_stack_info v.stack_info
            then log_with_stack f call sys to_info t w c p happened_text
            else ok (log_line f call sys to_info default w c error_text))
          is in
      either-Same t w c p (is_data_stack_info (v.0).stack_info) default happened_text error_text r
        v.2
  log_value-Same e t w c std_domain p r is =
      message-Same t w c p (value_to_message e w std_domain p) r is
  log_value-Same e t w c memory_domain p r is =
      message-Same t w c p (value_to_message e w memory_domain p) r is

  -- Logging an error, to a log that is given or to the default one, leaves every value in use and every array of
  -- addresses as it was, with its code and the frames, the strip point and the time of its stack: it only fills in the
  -- text of a stack that had none.
  pub log_traced-Same :
      (e : Errno) (t : Target) (w : World) (c : StackPointerInfoCache) (a : Error)
      (r : World × StackPointerInfoCache × Sent)
      → log_traced f call sys to_info e t w c a ≡ ok r
      → Same w (r.0)
  unfolding log_traced
  log_traced-Same e t w c a r is = by_domain a.domain is
    where
      by_domain :
          (o : Option Domain)
          → (elim o [
            | none ↦ throws null_dereference
            | some d ↦ log_value f call sys to_info e t w c d a.value
          ])
            ≡ ok r
          → Same w (r.0)
      by_domain none h = cc
      by_domain (some d) h = log_value-Same e t w c d a.value r h
