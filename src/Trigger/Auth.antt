-- ===== src/Trigger/Auth.antt =====
-- crates/roos-trigger/src/auth.rs. The extension `BearerToken` is the first argument.
use roos.Base.{Text, text_Eq, codes, strip_prefix, ◌==◌, if◌then◌else◌, Option, none, some}
use roos.Base.Action.{Action, throw}
use roos.Trigger.Http.{Request, StatusCode, unauthorized}

-- `.and_then(|v| v.strip_prefix("Bearer "))`
unfoldable pub provided : Option Text → Option Text
unfolding codes strip_prefix
provided none = none
provided (some v) = strip_prefix (codes "Bearer ") v

module _ {S A : Type 0} where
  abbrev pub admit : Option Text → Option Text → Action S StatusCode A → Action S StatusCode A
  admit (some expected) (some actual) next = if expected == actual then next else throw unauthorized
  admit (some expected) none next = throw unauthorized
  admit none actual next = next

  unfoldable pub require_bearer :
      Option Text → Request → (Request → Action S StatusCode A) → Action S StatusCode A
  unfolding provided
  require_bearer token request next = admit token (provided request.authorization) (next request)
