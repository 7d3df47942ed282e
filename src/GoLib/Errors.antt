-- ===== src/GoLib/Errors.antt =====
-- Go's `error` values, as far as the program tells them apart, and a function's `(A, error)`.
use cloud_native_entry_task.Prelude.{ℕ, ◌≡◌, refl, ◌⊎◌, inl, inr, Bool, true, false, String}

-- The service's sentinels; `redisstore.ErrMissing`, `mysqlstore.ErrNotFound`, `sql.ErrNoRows`, `os.ErrNotExist` and the API
-- server's "not found"; any other error, by a number that stands for it; an `AppError`;
-- and an error behind a text, of `fmt.Errorf` with `%w`.
pub data Error : Type 0 where
  bad_request unauthorized not_found payload_too_large unsupported_type : Error
  store_not_found no_rows not_exist api_not_found redis_missing : Error
  external : ℕ → Error
  app_error : String → String → Error → Error
  wrapped : String → Error → Error

-- `errors.Is(err, mysqlstore.ErrNotFound)`, which looks through an `AppError`.
unfoldable pub is_store_not_found : Error → Bool
is_store_not_found store_not_found = true
is_store_not_found (app_error code message cause) = is_store_not_found cause
is_store_not_found (wrapped message cause) = is_store_not_found cause
is_store_not_found _ = false

-- `errors.Is(err, sql.ErrNoRows)`
unfoldable pub is_no_rows : Error → Bool
is_no_rows no_rows = true
is_no_rows (app_error code message cause) = is_no_rows cause
is_no_rows (wrapped message cause) = is_no_rows cause
is_no_rows _ = false

-- `errors.Is(err, os.ErrNotExist)`
unfoldable pub is_not_exist : Error → Bool
is_not_exist not_exist = true
is_not_exist (app_error code message cause) = is_not_exist cause
is_not_exist (wrapped message cause) = is_not_exist cause
is_not_exist _ = false

-- `apierrors.IsNotFound(err)`
unfoldable pub is_api_not_found : Error → Bool
is_api_not_found api_not_found = true
is_api_not_found (wrapped message cause) = is_api_not_found cause
is_api_not_found _ = false

-- `errors.Is(err, redisstore.ErrMissing)`
unfoldable pub is_redis_missing : Error → Bool
is_redis_missing redis_missing = true
is_redis_missing (app_error code message cause) = is_redis_missing cause
is_redis_missing (wrapped message cause) = is_redis_missing cause
is_redis_missing _ = false

pub data Result {ℓ} (A : Type ℓ) : Type ℓ where
  ok : A → Result A
  err : Error → Result A

pub Result-cases {ℓ} :
    {A : Type ℓ} (r : Result A) → ((a : A) × (r ≡ ok a)) ⊎ ((e : Error) × (r ≡ err e))
Result-cases (ok a) = inl (a, refl)
Result-cases (err e) = inr (e, refl)
