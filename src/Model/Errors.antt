-- ===== src/Model/Errors.antt =====
-- packages/model/src/errors.ts, and the errors that the stores throw. A message is kept where the
-- code looks at it or where it says which check failed.
use rai_flow.Prelude.{String, ◌≡◌, refl}

pub data ErrorCode : Type 0 where
  not_found conflict bad_request unauthorized internal_error : ErrorCode

-- `throw`, and what it carries.
pub data Error : Type 0 where
  coded : ErrorCode → String → Error
  plain : String → Error

pub data Result {ℓ} (A : Type ℓ) : Type ℓ where
  err : Error → Result A
  ok : A → Result A

infixl 5 ◌>>=◌
abbrev pub ◌>>=◌ {ℓ κ} : {A : Type ℓ} {B : Type κ} → Result A → (A → Result B) → Result B
err failure >>= next = err failure
ok value >>= next = next value

-- What a sequence that succeeds has computed on the way.
pub >>=-eq-ok {ℓ κ} :
    {A : Type ℓ} {B : Type κ} (first : Result A) (next : A → Result B) {b : B}
    → (first >>= next) ≡ ok b
    → (a : A) × (first ≡ ok a) × (next a ≡ ok b)
>>=-eq-ok (err failure) next h = cc
>>=-eq-ok (ok value) next h = (value, refl, h)

infixl 5 ◌>>◌
abbrev pub ◌>>◌ {ℓ} : {B : Type ℓ} → Result (Unit {0}) → Result B → Result B
first >> second = first >>= λ done. second
