-- ===== src/Errors.antt =====
-- domain/errors.py, and the database layer's own exceptions that a handler can let through.
use Prim.Native.String.{◌++◌}
use fireviewer_backend.Platform.{Value, dict, end}
use fireviewer_backend.Prelude.{String, ℕ}

pub record DomainError : Type 0 where
  pub status_code : ℕ
  pub code : String
  pub title : String
  pub detail : String
  pub extra : Value

abbrev no_extra : Value
no_extra = dict end

-- `scalar_one` raises the last two.
pub data Failure : Type 0 where
  domain : DomainError → Failure
  no_result_found multiple_results_found : Failure
  validation_error : Failure

unfoldable pub not_found : String → String → Failure
not_found resource identifier = domain (record {
  status_code = 404;
  code = "not_found";
  title = "Resource not found";
  detail = resource ++ " '" ++ identifier ++ "' does not exist.";
  extra = no_extra;
})

unfoldable pub conflict_with : String → String → Value → Failure
conflict_with code detail extra =
    domain (record {
      status_code = 409;
      code = code;
      title = "Conflict";
      detail = detail;
      extra = extra;
    })

unfoldable pub conflict : String → String → Failure
unfolding conflict_with
conflict code detail = conflict_with code detail no_extra

unfoldable pub forbidden : String → Failure
forbidden detail = domain (record {
  status_code = 403;
  code = "forbidden";
  title = "Forbidden";
  detail = detail;
  extra = no_extra;
})

unfoldable pub bad_request : String → String → Failure
bad_request code detail = domain (record {
  status_code = 400;
  code = code;
  title = "Bad request";
  detail = detail;
  extra = no_extra;
})

unfoldable pub source_unauthorized : Failure
source_unauthorized = domain (record {
  status_code = 401;
  code = "source_unauthorized";
  title = "Source authentication required";
  detail = "A valid source credential is required.";
  extra = no_extra;
})
