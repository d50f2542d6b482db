-- ===== src/Core/Error.antt =====
-- include/ServerCore/Core/Error.h and src/Core/Error.cpp. A `Status` is its code: the message is a
-- diagnostic that no operation of the library branches on.
use server_core.Base.{ap, ◌≡◌, Bool, true, false}

pub data ErrorCode : Type 0 where
  ok invalid_argument invalid_format too_large not_found already_exists closed : ErrorCode
  would_block platform_error unimplemented unknown_type timeout cancelled : ErrorCode

abbrev pub Status : Type 0
Status = ErrorCode

-- `Status::IsOk`
abbrev pub is_ok : Status → Bool
is_ok ErrorCode.ok = true
is_ok _ = false

-- `Status::AllocationFailure`
abbrev pub allocation_failure : Status
allocation_failure = ErrorCode.platform_error

-- `Result<T>`: a value or a status. `FromStatus` asserts that the status is not Ok.
pub data Result {ℓ} (A : Type ℓ) : Type ℓ where
  value : A → Result A
  failed : Status → Result A

infixl 5 ◌>>=◌
abbrev pub ◌>>=◌ {ℓ κ} : {A : Type ℓ} {B : Type κ} → Result A → (A → Result B) → Result B
value a >>= f = f a
failed e >>= f = failed e

abbrev or_else {ℓ} : {A : Type ℓ} → A → Result A → A
or_else a (value x) = x
or_else a (failed e) = a

pub value-injective {ℓ} : {A : Type ℓ} (a b : A) → value a ≡ value b → a ≡ b
value-injective a b h = ap (or_else a) h
