-- ===== src/Base/Mem.antt =====
-- Code that may go wrong in memory: `fault` is a read through a null or dangling pointer.

pub data Mem {ℓ} (A : Type ℓ) : Type ℓ where
  ok : A → Mem A
  fault : Mem A

infixl 5 ◌>>=◌
abbrev pub ◌>>=◌ {ℓ κ} : {A : Type ℓ} {B : Type κ} → Mem A → (A → Mem B) → Mem B
ok a >>= f = f a
fault >>= f = fault
