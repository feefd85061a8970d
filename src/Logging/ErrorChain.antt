-- ===== src/Logging/ErrorChain.antt =====
-- `try_or_400!` and `ErrJson` of src/try_or_400.rs.
use rouille.Common.{Text}
use rouille.Common.Results.{Result, ok, err}
use rouille.Http.Response.{Response, json, with_status_code}

-- An error with its text and its `source()`, and what is made of it for JSON.
mutual
  pub data AnError : Type 0 where
    error : Text → Source → AnError

  pub data Source : Type 0 where
    no_source : Source
    source : AnError → Source

mutual
  pub data ErrJson : Type 0 where
    err_json : Text → Cause → ErrJson

  pub data Cause : Type 0 where
    no_cause : Cause
    cause : ErrJson → Cause

unfoldable mutual
  from_err : AnError → ErrJson
  from_err (error string s) = err_json string (from_source s)

  from_source : Source → Cause
  from_source no_source = no_cause
  from_source (source e) = cause (from_err e)

-- What the macro comes to: the value, or a `return` with the response.
pub data TryOr400 (A : Type 0) : Type 0 where
  goes_on : A → TryOr400 A
  returns : Response → TryOr400 A

-- `serde_json::to_string(…).unwrap()`
module _ (to_string : ErrJson → Text) {A : Type 0} where
  unfoldable pub try_or_400 : Result A AnError → TryOr400 A
  unfolding from_err json with_status_code
  try_or_400 (ok r) = goes_on r
  try_or_400 (err e) = returns (with_status_code 400 (json (to_string (from_err e))))
