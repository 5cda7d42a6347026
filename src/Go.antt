-- ===== src/Go.antt =====
-- Go error values and results: what `fmt.Errorf`, `errors.Is`, `==` on errors and a nil
-- dereference mean to the program (pkg/consts/consts.go, api/v1alpha1/*.go, internal/).
use ceph_s3_operator.Prelude.{◌⊎◌, inl, inr, Bool, false, Option, none, some, ◌++◌, ◌≡◌, refl, []}
use ceph_s3_operator.Prelude.Text.{Text, ◌==◌}

-- An `error`. `status` is an answer of the Kubernetes API with its reason, `rgw` and `aws` carry
-- the code of the admin API and of the S3 API, and `wrap p e s` is `fmt.Errorf("p%ws", e)`.
pub data Error : Type 0 where
  message : Text → Error
  status : Text → Text → Error
  rgw : Text → Error
  aws : Text → Text → Error
  custom : Text → Error
  wrap : Text → Error → Text → Error

-- consts.CustomError.Error, and the texts of the others.
unfoldable pub error_text : Error → Text
error_text (message t) = t
error_text (status reason t) = t
error_text (rgw code) = code
error_text (aws code t) = t
error_text (custom t) = t
error_text (wrap before e after) = before ++ (error_text e ++ after)

-- `err == consts.ErrX`: the error itself is the constant, not one that wraps it.
unfoldable pub is_custom : Text → Error → Bool
is_custom t (custom s) = s == t
is_custom t _ = false

-- `errors.Is(err, consts.ErrX)` looks through the wrapping.
unfoldable pub wraps_custom : Text → Error → Bool
wraps_custom t (custom s) = s == t
wraps_custom t (wrap _ e _) = wraps_custom t e
wraps_custom t _ = false

-- `errors.Is(err, admin.ErrX)`.
unfoldable pub wraps_rgw : Text → Error → Bool
wraps_rgw t (rgw s) = s == t
wraps_rgw t (wrap _ e _) = wraps_rgw t e
wraps_rgw t _ = false

-- `apierrors.IsNotFound(err)`.
unfoldable pub has_reason : Text → Error → Bool
has_reason t (status s _) = s == t
has_reason t (wrap _ e _) = has_reason t e
has_reason t _ = false

-- `aerr, ok := err.(awserr.Error)`, and then `aerr.Code()`.
unfoldable pub aws_code : Error → Option Text
aws_code (aws code _) = some code
aws_code _ = none

-- What a call comes to: its value with a nil error, an error, or a panic.
pub data Result {ℓ} (A : Type ℓ) : Type ℓ where
  ok : A → Result A
  err : Error → Result A
  panic : Result A

infixl 5 ◌>>=◌
abbrev pub ◌>>=◌ {ℓ κ} : {A : Type ℓ} {B : Type κ} → Result A → (A → Result B) → Result B
ok a >>= f = f a
err e >>= f = err e
panic >>= f = panic

-- `if err != nil { return fmt.Errorf("before%w", err) }`.
abbrev pub wrapping {ℓ} : {A : Type ℓ} → Text → Result A → Result A
wrapping before (ok a) = ok a
wrapping before (err e) = err (wrap before e [])
wrapping before panic = panic

-- `*p`
abbrev pub deref {ℓ} : {A : Type ℓ} → Option A → Result A
deref none = panic
deref (some a) = ok a

pub Result-cases {ℓ} :
    {A : Type ℓ} (r : Result A) → ((a : A) × (r ≡ ok a)) ⊎ ((e : Error) × (r ≡ err e)) ⊎ (r ≡ panic)
Result-cases (ok a) = inl (a, refl)
Result-cases (err e) = inr (inl (e, refl))
Result-cases panic = inr (inr refl)

pub ok_injective {ℓ} : {A : Type ℓ} {a b : A} → ok a ≡ ok b → a ≡ b
ok_injective h = cc
