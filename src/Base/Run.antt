-- ===== src/Base/Run.antt =====
-- Runs of C code: a value, or behaviour that the C standard leaves undefined (a signed overflow).
use zedis.Base.{if◌then◌else◌}
use zedis.Base.Int.{ℤ, fits64, fits32}

pub data Run {ℓ} (A : Type ℓ) : Type ℓ where
  done : A → Run A
  undefined : Run A

module _ {ℓ κ} {A : Type ℓ} {B : Type κ} where
  infixl 5 ◌>>=◌
  abbrev pub ◌>>=◌ : Run A → (A → Run B) → Run B
  undefined >>= next = undefined
  done value >>= next = next value

-- The result of a signed operation whose exact value is `z`, in `int64_t` and in `int`.
abbrev pub int64 : ℤ → Run ℤ
int64 z = if fits64 z then done z else undefined

abbrev pub int32 : ℤ → Run ℤ
int32 z = if fits32 z then done z else undefined
