-- ===== src/Stack/Resolve/Pipe.antt =====
-- `sh` of src/stack_info.cpp reads all that a command prints.
use nodecpp_foundation.Base.{ℕ, zero, suc, ◌+◌, ◌≤◌, ◌<◌, ◌≡◌, refl, ap, sym, ◌∙◌, arith}
use nodecpp_foundation.Base.{List, [], ◌∷◌, ◌++◌, some, true, false, Bool-cases, inl, inr, ◌==◌}
use nodecpp_foundation.Base.Lists.{length, elem, append-nil, append_assoc}
use nodecpp_foundation.Base.Outcome.{ok}
use nodecpp_foundation.Stack.Text.{until_zero, fgets}
use nodecpp_foundation.Stack.Resolve.{System, sh, sh_loop}

until_zero_lem : (xs : List ℕ) → elem 0 xs ≡ false → until_zero xs ≡ xs
until_zero_lem [] e = refl
until_zero_lem (x ∷ xs) e = ground (arith, e, until_zero_lem xs)

-- What `fgets` reads and what it leaves are the input; it leaves nothing when it meets the end, and
-- less than before when it does not.
fgets_lem :
    (n : ℕ) (xs : List ℕ)
    → (((fgets n xs).0 ++ (fgets n xs).1) ≡ xs)
      × ((fgets n xs).2 ≡ true → (fgets n xs).1 ≡ [])
      × ((fgets n xs).2 ≡ false → length ((fgets n xs).1) ≤ length xs)
      × ((fgets n xs).2 ≡ false → 0 < n → length ((fgets n xs).1) < length xs)
fgets_lem zero xs = (refl, λ e. cc, λ e. omega arith, λ e lt. omega (arith, lt))
fgets_lem (suc n) [] = (refl, λ e. refl, λ e. cc, λ e. cc)
fgets_lem (suc n) (x ∷ xs) =
    let (whole, at_end, less, fewer) = fgets_lem n xs in
    elim (Bool-cases (x == b'\n')) [
      | inl line_end ↦ rw (line_end) (refl, λ e. cc, λ e. omega arith, λ e lt. omega arith)
      | inr other ↦
          rw (other) (
            ap (λ t. x ∷ t) whole,
            at_end,
            λ e. omega (arith, less e),
            λ e lt. omega (arith, less e),
          )
    ]

elem-append_false :
    (xs ys : List ℕ) → elem 0 (xs ++ ys) ≡ false → (elem 0 xs ≡ false) × (elem 0 ys ≡ false)
elem-append_false [] ys e = (refl, e)
elem-append_false (x ∷ xs) ys e = ground (arith, e, elem-append_false xs ys)

sh_loop_lem :
    (fuel : ℕ) (output result : List ℕ)
    → length output < fuel
    → elem 0 output ≡ false
    → sh_loop fuel output result ≡ ok (result ++ output)
unfolding sh_loop
sh_loop_lem zero output result enough no_zero = absurd (omega (arith, enough))
sh_loop_lem (suc fuel) output result enough no_zero =
    let r = fgets 127 output in
    let (whole, at_end, less, fewer) = fgets_lem 127 output in
    let (piece, left) = elem-append_false (r.0) (r.1) (ap (elem 0) whole ∙ no_zero) in
    elim (Bool-cases (r.2)) [
      | inl done ↦
          let all : r.0 ≡ output =
            sym (append-nil (r.0)) ∙ ap (λ t. r.0 ++ t) (sym (at_end done)) ∙ whole in
          rw (done, until_zero_lem (r.0) piece) (ap (λ t. ok (result ++ t)) all)
      | inr more ↦
          rw (more, until_zero_lem (r.0) piece)
            (sh_loop_lem fuel (r.1) (result ++ r.0)
                (omega (arith, enough, fewer more (omega arith))) left
              ∙ ap ok (append_assoc result (r.0) (r.1) ∙ ap (λ t. result ++ t) whole))
    ]

-- Whatever a command prints, in lines of any length and with or without a last line end, `sh` returns
-- all of it, if it has no zero byte: the pieces that it reads make up the output, and it ends.
pub sh_lem :
    (sys : System) (cmd output : List ℕ)
    → sys.run cmd ≡ some output
    → elem 0 output ≡ false
    → sh sys cmd ≡ ok output
unfolding sh
sh_lem sys cmd output runs no_zero =
    rw (sh, runs) (sh_loop_lem (length output + 1) output [] (omega arith) no_zero)
