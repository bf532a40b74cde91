-- ===== src/Base/Store.antt =====
-- The objects that operations share, by their addresses: an operation on `*this` and `other` reads
-- and writes both, and they may be one object.
use nodecpp_foundation.Base.{ℕ, ◌==◌, if◌then◌else◌}

abbrev pub Store : Type 0 → Type 0
Store P = ℕ → P

abbrev pub update : {P : Type 0} → Store P → ℕ → P → Store P
update s d v q = if q == d then v else s q
