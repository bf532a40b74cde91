-- ===== src/Error/Traced/Equality.antt =====
-- What it is for errors with stacks to be equal.
use nodecpp_foundation.Base.{ℕ, ◌≤◌, ◌≡◌, ◌≢◌, refl, arith, ◌==◌, true, false, some, List}
use nodecpp_foundation.Base.Lists.{elem}
use nodecpp_foundation.Base.Outcome.{ok}
use nodecpp_foundation.Error.Messages.{Errno}
use nodecpp_foundation.Error.Class.{
  Domain, plain_domain, std_domain, memory_domain, Error, is_equal, is_equivalent_as,
}
use nodecpp_foundation.Error.Codes.{is_bad_access}
use nodecpp_foundation.Error.Traced.{World, read_value, is_same_error_code, is_equivalent, ops}

-- An error of a domain that points to a value in use; the first page of addresses is never used.
pub record Points (w : World) (d : Domain) (a : Error) : Type 0 where
  pub domain : a.domain ≡ some d
  pub value : elem a.value w.live ≡ true
  pub high : 4096 ≤ a.value

Points-read :
    (w : World) (d : Domain) (a : Error)
    → Points w d a
    → read_value w a.value ≡ ok (w.value_at a.value)
unfolding read_value
Points-read w d a is =
    let low : (a.value == 0) ≡ false = ground (arith, is.high) in
    rw (read_value, low, is.value) refl

module _ (new_block : List ℕ → ℕ) (malloc : List ℕ → ℕ → ℕ) (e : Errno) where
  -- Two errors of the system, or two of memory, that point to values in use are equal where the codes are.
  pub is_equal-error_code :
      (w : World) (d t : Domain) (a b : Error)
      → d ≢ plain_domain
      → Points w d a
      → Points w d b
      → is_equal (ops new_block malloc e) t w a b
        ≡ ok ((w.value_at a.value).error_code == (w.value_at b.value).error_code)
  unfolding is_equal ops is_same_error_code
  is_equal-error_code w plain_domain t a b coded pa pb = absurd (coded refl)
  is_equal-error_code w std_domain t a b coded pa pb =
      rw (is_equal, pa.domain, pb.domain)
        (rw (is_same_error_code, Points-read w std_domain a pa)
          (rw (Points-read w std_domain b pb) refl))
  is_equal-error_code w memory_domain t a b coded pa pb =
      rw (is_equal, pa.domain, pb.domain)
        (rw (is_same_error_code, Points-read w memory_domain a pa)
          (rw (Points-read w memory_domain b pb) refl))

  not_bad_access : (v : ℕ) → 4096 ≤ v → is_bad_access v ≡ false
  not_bad_access v high = ground (arith, high)

  -- An error of memory and one of the system that point to values in use are never equal, in either order, whatever
  -- their codes: the codes are not looked at.
  pub is_equal-never :
      (w : World) (a b : Error)
      → Points w memory_domain a
      → Points w std_domain b
      → (is_equal (ops new_block malloc e) std_domain w a b ≡ ok false)
        × (is_equal (ops new_block malloc e) memory_domain w b a ≡ ok false)
  unfolding is_equal ops is_equivalent is_equivalent_as
  is_equal-never w a b pa pb = (
    rw (is_equal, pa.domain, pb.domain) (rw (not_bad_access a.value pa.high) refl),
    rw (is_equal, pa.domain, pb.domain) (rw (not_bad_access a.value pa.high) refl),
  )
