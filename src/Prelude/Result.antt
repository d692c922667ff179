-- ===== src/Prelude/Result.antt =====
-- Python exceptions as values: a call that may raise returns a `Result`.

pub data Result {ℓ κ} (Raised : Type κ) (A : Type ℓ) : Type (ℓ ⊔ κ) where
  err : Raised → Result Raised A
  ok : A → Result Raised A

-- An exception ends a block.
infixl 5 ◌>>=◌
abbrev pub ◌>>=◌ {ℓ κ μ} :
    {Raised : Type μ} {A : Type ℓ} {B : Type κ}
    → Result Raised A
    → (A → Result Raised B)
    → Result Raised B
◌>>=◌ (err raised) rest = err raised
◌>>=◌ (ok value) rest = rest value
