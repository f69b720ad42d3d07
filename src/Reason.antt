-- ===== src/Reason.antt =====
-- `monitor::reason` of src/tateyama/monitor/constants.h, which `tgctl::runtime_error` carries, and
-- what an operation that may throw returns. The texts of the errors are left out.
use tateyama_bootstrap.Prelude.{◌≡◌, ◌≢◌, refl, ◌⊎◌, inl, inr}

pub data Reason : Type 0 where
  absent : Reason
  connection not_found ambiguous permission variable_not_defined variable_invalid_value : Reason
  authentication_failure connection_timeout connection_failure io server interrupted : Reason
  internal : Reason
  request_missing payload_broken sql_missing sql_unresolved : Reason
  initialization another_process invalid_status invalid_argument timeout : Reason
  unknown : Reason

-- `tgctl::runtime_error`, and the exceptions of the standard library that the code meets.
pub data Error : Type 0 where
  runtime_error : Reason → Error
  out_of_range : Error

pub data Result {ℓ} (A : Type ℓ) : Type ℓ where
  ok : A → Result A
  throws : Error → Result A

infixl 5 ◌>>=◌
abbrev pub ◌>>=◌ {ℓ κ} : {A : Type ℓ} {B : Type κ} → Result A → (A → Result B) → Result B
ok a >>= f = f a
throws e >>= f = throws e

pub throws≢ok {ℓ} : {A : Type ℓ} {e : Error} {a : A} → throws e ≢ ok a
throws≢ok h = cc

pub ok-inj {ℓ} : {A : Type ℓ} {a b : A} → ok a ≡ ok b → a ≡ b
ok-inj h = cc

pub Result-cases {ℓ} :
    {A : Type ℓ} (r : Result A) → ((e : Error) × (r ≡ throws e)) ⊎ ((a : A) × (r ≡ ok a))
Result-cases (throws e) = inl (e, refl)
Result-cases (ok a) = inr (a, refl)
