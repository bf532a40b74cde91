-- ===== src/Error/Class.antt =====
-- `error` of include/error.h, over what its domain does.
use nodecpp_foundation.Base.{ℕ, List, Option, none, some}
use nodecpp_foundation.Base.{Bool, true, false, if◌then◌else◌}
use nodecpp_foundation.Base.Outcome.{Outcome, ok, throws, ◌>>=◌, null_dereference}
use nodecpp_foundation.Base.Store.{Store, update}
use nodecpp_foundation.Error.Messages.{unknown_domain_text, std_domain_text, memory_domain_text}

-- The domains that there are: an `error_domain`, `std_error_domain_obj` and `memory_error_domain_obj`
pub data Domain : Type 0 where
  plain_domain : Domain
  std_domain : Domain
  memory_domain : Domain

-- `error`, its domain absent where the pointer is null
pub record Error : Type 0 where
  pub domain : Option Domain
  pub value : ℕ

abbrev pub same_domain : Domain → Domain → Bool
same_domain plain_domain plain_domain = true
same_domain std_domain std_domain = true
same_domain memory_domain memory_domain = true
same_domain _ _ = false

-- `src.domain() == this`
abbrev pub is_of : Domain → Error → Bool
is_of d e = elim e.domain [ none ↦ false | some d' ↦ same_domain d' d ]

-- `domain_ != b.domain_`, negated
abbrev pub same_domains : Error → Error → Bool
same_domains a b = elim a.domain [
  | none ↦ elim b.domain [ none ↦ true | some d ↦ false ]
  | some d ↦ is_of d b
]

-- The virtual functions of the domains, in a build of the program whose memory is a `W`
pub record DomainOps (W : Type 0) : Type 0 where
  pub value_to_message : W → Domain → ℕ → Outcome (List ℕ)
  pub clone_value : W → Domain → ℕ → Outcome (W × ℕ)
  pub destroy_value : W → Domain → ℕ → Outcome W
  pub is_same_error_code : W → Domain → ℕ → ℕ → Outcome Bool
  pub is_equivalent : W → Domain → Error → ℕ → Outcome Bool

-- `name` of the domains
abbrev pub domain_name : Domain → List ℕ
domain_name plain_domain = unknown_domain_text
domain_name std_domain = std_domain_text
domain_name memory_domain = memory_domain_text

-- `domain_->`
abbrev pub with_domain : {A : Type 0} → Error → (Domain → Outcome A) → Outcome A
with_domain e f = elim e.domain [ none ↦ throws null_dereference | some d ↦ f d ]

-- `name`
unfoldable pub name : Error → Outcome (List ℕ)
name e = with_domain e (λ d. ok (domain_name d))

-- `||`
abbrev pub or_else : Outcome Bool → Outcome Bool → Outcome Bool
or_else a b = a >>= λ r. if r then ok true else b

-- The move constructor: the new error and what it leaves
unfoldable pub move_construct : Error → Error × Error
move_construct other = (other, record { domain = none; value = 0 })

module _ {W : Type 0} (ops : DomainOps W) where
  -- `description`
  unfoldable pub description : W → Error → Outcome (List ℕ)
  description w e = with_domain e (λ d. ops.value_to_message w d e.value)

  -- The copy constructor
  unfoldable pub copy_construct : W → Error → Outcome (W × Error)
  copy_construct w other = elim other.domain [
    | none ↦ ok (w, record { domain = none; value = 0 })
    | some d ↦
        ops.clone_value w d other.value >>= λ r. ok (r.0, record { domain = some d; value = r.1 })
  ]

  -- The destructor
  unfoldable pub destroy : W → Error → Outcome W
  destroy w e = elim e.domain [ none ↦ ok w | some d ↦ ops.destroy_value w d e.value ]

  -- The value that an assignment returns, a copy, is destroyed at the end of the statement.
  unfoldable pub discarded : W → Error → Outcome W
  discarded w e = copy_construct w e >>= λ r. destroy (r.0) (r.1)

  -- The copy assignment of the error at `other` to the one at `dst`, as a statement
  unfoldable pub copy_assign : W → Store Error → ℕ → ℕ → Outcome (W × Store Error)
  copy_assign w s dst other = copy_construct w (s other) >>= λ r.
      discarded (r.0) (r.1) >>= λ w'. ok (w', update s dst (r.1))

  -- The move assignment of the error at `other` to the one at `dst`: field by field, so that an error that is
  -- moved to itself is emptied
  unfoldable pub move_assign : W → Store Error → ℕ → ℕ → Outcome (W × Store Error)
  move_assign w s dst other =
      let d = update s dst (record (s dst) { domain = (s other).domain }) in
      let d' = update d other (record (d other) { domain = none }) in
      let v = update d' dst (record (d' dst) { value = (d' other).value }) in
      let v' = update v other (record (v other) { value = 0 }) in
      discarded w (v' dst) >>= λ w'. ok (w', v')

  -- `ParticularError::DomainTypeT::is_equivalent`, for the type that the right operand is compared as: the class
  -- of its domain, and `error_domain` for an `error`
  unfoldable pub is_equivalent_as : Domain → W → Error → ℕ → Outcome Bool
  is_equivalent_as plain_domain w src my_value = ok false
  is_equivalent_as std_domain w src my_value = ops.is_equivalent w std_domain src my_value
  is_equivalent_as memory_domain w src my_value = ops.is_equivalent w memory_domain src my_value

  -- `operator ==`, where `b` is of the type whose domain is `type`
  unfoldable pub is_equal : Domain → W → Error → Error → Outcome Bool
  is_equal type w a b =
      let same = with_domain a (λ d. ops.is_same_error_code w d a.value b.value) in
      let other = with_domain a (λ d.
        or_else (ops.is_equivalent w d b a.value)
          (with_domain b (λ d'. is_equivalent_as type w a b.value))) in
      if same_domains a b then same else other
