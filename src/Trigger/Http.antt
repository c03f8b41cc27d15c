-- ===== src/Trigger/Http.antt =====
-- What crates/roos-trigger reads of axum's requests.
use roos.Base.{Text, Option}

pub data StatusCode : Type 0 where
  unauthorized bad_request not_found unprocessable : StatusCode

-- A header is its value, if it is present and `to_str` reads it. The body is `none` if `to_bytes`
-- fails.
pub record Request : Type 0 where
  pub authorization : Option Text
  pub hub_signature : Option Text
  pub roos_signature : Option Text
  pub body : Option Text
