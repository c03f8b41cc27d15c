-- ===== src/Trigger/Webhook.antt =====
-- crates/roos-trigger/src/webhook.rs. The extension `WebhookSecret` is an argument; the `hmac`,
-- `sha2` and `hex` crates are the parameter `crypto`.
use roos.Base.{Text, codes, strip_prefix, Bool, false, if◌then◌else◌, Option, none, some}
use roos.Base.Action.{Action, throw}
use roos.Trigger.Http.{Request, StatusCode, unauthorized, bad_request}

-- `M` is the state of an HMAC.
pub record Crypto (M : Type 0) : Type 0 where
  pub new_from_slice : Text → Option M
  pub update : M → Text → M
  pub verify_slice : M → Text → Bool
  pub hex_decode : Text → Option Text

module _ {M : Type 0} (crypto : Crypto M) where
  abbrev pub verify_decoded : Option M → Text → Option Text → Bool
  verify_decoded none body bytes = false
  verify_decoded (some mac) body none = false
  verify_decoded (some mac) body (some bytes) = crypto.verify_slice (crypto.update mac body) bytes

  unfoldable pub verify_hmac_sha256 : Text → Text → Text → Bool
  verify_hmac_sha256 secret body expected_hex =
      verify_decoded (crypto.new_from_slice secret) body (crypto.hex_decode expected_hex)

  abbrev pub verify_stripped : Text → Text → Option Text → Bool
  verify_stripped secret body (some hex) = verify_hmac_sha256 secret body hex
  verify_stripped secret body none = false

  unfoldable pub verify_github_signature : Text → Text → Text → Bool
  unfolding codes strip_prefix
  verify_github_signature secret body header_value =
      verify_stripped secret body (strip_prefix (codes "sha256=") header_value)

  -- The signature that is checked: GitHub's, if both are there.
  abbrev pub is_valid : Text → Text → Option Text → Option Text → Bool
  is_valid secret bytes (some sig) roos_sig = verify_github_signature secret bytes sig
  is_valid secret bytes none (some sig) = verify_hmac_sha256 secret bytes sig
  is_valid secret bytes none none = false

  module _ {S A : Type 0} where
    abbrev pub check_body :
        Text → Request → (Request → Action S StatusCode A) → Option Text → Action S StatusCode A
    check_body secret request next none = throw bad_request
    check_body secret request next (some bytes) =
        if is_valid secret bytes request.hub_signature request.roos_signature
        then next (record request { body = some bytes })
        else throw unauthorized

    abbrev pub check_signed :
        Text
        → Request
        → (Request → Action S StatusCode A)
        → Option Text
        → Option Text
        → Action S StatusCode A
    check_signed secret request next none none = throw unauthorized
    check_signed secret request next (some sig) roos_sig =
        check_body secret request next request.body
    check_signed secret request next none (some sig) = check_body secret request next request.body

    unfoldable pub require_webhook_signature :
        Option Text → Request → (Request → Action S StatusCode A) → Action S StatusCode A
    require_webhook_signature none request next = next request
    require_webhook_signature (some secret) request next =
        check_signed secret request next request.hub_signature request.roos_signature
