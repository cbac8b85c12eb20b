-- ===== src/Base/Result.antt =====
-- A call that may raise: the exception is a value.

pub data PyError : Type 0 where
  type_error value_error runtime_error key_error ble_error backend_error overflow_error : PyError

pub data Result {ℓ} (A : Type ℓ) : Type ℓ where
  ok : A → Result A
  err : PyError → Result A

infixl 5 ◌>>=◌
abbrev pub ◌>>=◌ {ℓ κ} : {A : Type ℓ} {B : Type κ} → Result A → (A → Result B) → Result B
ok a >>= f = f a
err e >>= f = err e
