-- ===== src/Base/Chain.antt =====
-- Chains of steps that may fail, for `do` blocks.
use fdp_rocks.Base.{Option, none, some}

infixl 5 ◌>>=◌
abbrev pub ◌>>=◌ {ℓ κ} : {A : Type ℓ} {B : Type κ} → Option A → (A → Option B) → Option B
none >>= f = none
some a >>= f = f a
