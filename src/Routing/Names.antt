-- ===== src/Routing/Names.antt =====
-- Names, which std/encoding implements: an argument of what uses them.
use mars_icnp.Prelude.{ℕ, Bool}

pub record NameOps (N : Type 0) : Type 0 where
  -- name.Hash()
  pub hash : N → ℕ
  -- a.Equal(b)
  pub equal : N → N → Bool
