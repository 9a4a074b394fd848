-- ===== src/Cerrors.antt =====
-- internal/pkg/cerrors/errors.go: application errors, and Go's error values as far as the program
-- looks into them. A call that returns a value or an error is a `Result`.
use Prim.Native.String.{◌++◌}
use aloqa_codex.Common.{ℕ, String, ◌≡◌, refl, Bool, true, false, Option, none, some, ◌⊎◌, inl, inr}

pub data Code : Type 0 where
  not_found already_exists invalid_input unauthorized forbidden : Code
  internal conflict rate_limited unavailable : Code

abbrev pub code_text : Code → String
code_text Code.not_found = "NOT_FOUND"
code_text Code.already_exists = "ALREADY_EXISTS"
code_text Code.invalid_input = "INVALID_INPUT"
code_text Code.unauthorized = "UNAUTHORIZED"
code_text Code.forbidden = "FORBIDDEN"
code_text Code.internal = "INTERNAL"
code_text Code.conflict = "CONFLICT"
code_text Code.rate_limited = "RATE_LIMITED"
code_text Code.unavailable = "UNAVAILABLE"

-- An error chain: an error of another package, an `AppError` without and with the error that it
-- wraps, `fmt.Errorf` with `%w`, and `errors.Join`.
pub data GoError : Type 0 where
  plain : String → GoError
  app : Code → String → GoError
  app_cause : Code → String → GoError → GoError
  wrap : String → GoError → GoError
  join : GoError → GoError → GoError

-- `AppError.Error`, and what `%v` prints of the other errors.
unfoldable pub error_text : GoError → String
error_text (plain s) = s
error_text (app c msg) = code_text c ++ (": " ++ msg)
error_text (app_cause c msg e) = code_text c ++ (": " ++ (msg ++ (": " ++ error_text e)))
error_text (wrap msg e) = msg ++ (": " ++ error_text e)
error_text (join a b) = error_text a ++ ("\n" ++ error_text b)

unfoldable pub unwrap : GoError → Option GoError
unwrap (plain s) = none
unwrap (app c msg) = none
unwrap (app_cause c msg e) = some e
unwrap (wrap msg e) = some e
unwrap (join a b) = none

abbrev first_some {ℓ} : {A : Type ℓ} → Option A → Option A → Option A
first_some none b = b
first_some (some a) b = some a

-- The code of the `AppError` that `AsAppError` finds first in the chain.
abbrev pub as_app_error : GoError → Option Code
as_app_error (plain s) = none
as_app_error (app c msg) = some c
as_app_error (app_cause c msg e) = some c
as_app_error (wrap msg e) = as_app_error e
as_app_error (join a b) = first_some (as_app_error a) (as_app_error b)

-- The `AppError` itself.
abbrev pub find_app_error : GoError → Option GoError
find_app_error (plain s) = none
find_app_error (app c msg) = some (app c msg)
find_app_error (app_cause c msg e) = some (app_cause c msg e)
find_app_error (wrap msg e) = find_app_error e
find_app_error (join a b) = first_some (find_app_error a) (find_app_error b)

unfoldable pub http_status : Code → ℕ
http_status Code.not_found = 404
http_status Code.already_exists = 409
http_status Code.conflict = 409
http_status Code.invalid_input = 400
http_status Code.unauthorized = 401
http_status Code.forbidden = 403
http_status Code.rate_limited = 429
http_status Code.unavailable = 503
http_status Code.internal = 500

abbrev pub new_not_found : String → GoError
new_not_found = app Code.not_found

abbrev pub new_invalid_input : String → GoError
new_invalid_input = app Code.invalid_input

abbrev pub new_forbidden : String → GoError
new_forbidden = app Code.forbidden

abbrev pub new_unavailable : String → GoError
new_unavailable msg = app Code.unavailable msg

abbrev pub new_conflict : String → GoError
new_conflict = app Code.conflict

-- `Internal(msg, err)` with an error.
abbrev pub new_internal : String → GoError → GoError
new_internal = app_cause Code.internal

-- `appErr, ok := AsAppError(err); ok && appErr.Code == CodeNotFound`, and so for `CodeForbidden`.
abbrev pub is_not_found : GoError → Bool
is_not_found e = elim (as_app_error e) [ some Code.not_found ↦ true | _ ↦ false ]

abbrev pub is_forbidden : GoError → Bool
is_forbidden e = elim (as_app_error e) [ some Code.forbidden ↦ true | _ ↦ false ]

-- The pair `(value, error)` of which a Go function returns one half.
pub data Result {ℓ} (A : Type ℓ) : Type ℓ where
  ok : A → Result A
  err : GoError → Result A

-- `if err != nil { return …, err }`, and then what follows.
infixl 5 ◌>>=◌
abbrev pub ◌>>=◌ {ℓ κ} : {A : Type ℓ} {B : Type κ} → Result A → (A → Result B) → Result B
result >>= next = elim result [ ok value ↦ next value | err failure ↦ err failure ]

infixl 5 ◌>>◌
abbrev pub ◌>>◌ {κ} : {B : Type κ} → Result (Unit {0}) → Result B → Result B
check >> next = check >>= λ passed. next

-- `if err != nil { return …, f(err) }`
abbrev pub map_err {ℓ} : {A : Type ℓ} → (GoError → GoError) → Result A → Result A
map_err f (ok a) = ok a
map_err f (err e) = err (f e)

-- `if !test { return …, err }`
abbrev pub guard : Bool → GoError → Result (Unit {0})
guard true e = ok tt
guard false e = err e

pub Result-cases {ℓ} :
    {A : Type ℓ} (r : Result A) → ((a : A) × (r ≡ ok a)) ⊎ ((e : GoError) × (r ≡ err e))
Result-cases (ok a) = inl (a, refl)
Result-cases (err e) = inr (e, refl)
