-- ===== src/Access/Webhook.antt =====
-- apps/control-plane/src/server.ts: `POST /webhooks/clerk`. The check of the signature over the raw
-- body is the library svix's, a parameter: it gives the payload, or throws that the signature is
-- not valid, or anything else.
use donnav.Common.{String, Bool, Result, ok, err}
use donnav.Common.Json.{Value, text, array, item, Fields, lookup}
use donnav.Events.Create.{Platform}
use donnav.Access.Tenancy.{Tenancy, AccessServer}
use donnav.Access.ClerkEvents.{ClerkEvent, parse_clerk_event}
use donnav.Access.Provisioning.{ProvisioningError, bad_payload, refused, handle_event}

pub data WebhookError (X : Type 0) : Type 0 where
  invalid_signature : WebhookError X
  other_error : X → WebhookError X

-- The replies 200 with whether the event was handled, 401, and 400 with the message.
pub data WebhookReply : Type 0 where
  accepted : Bool → WebhookReply
  unauthorized : WebhookReply
  malformed : String → WebhookReply

pub record SvixHeaders : Type 0 where
  pub svix_id : String
  pub svix_timestamp : String
  pub svix_signature : String

-- `typeof value === 'string' ? value : Array.isArray(value) ? (value[0] ?? '') : ''`, for headers that
-- hold texts.
abbrev pick : Value → String
pick (text s) = s
pick (array (item (text s) rest)) = s
pick _ = ""

unfoldable pub svix_headers : Fields → SvixHeaders
svix_headers headers = record {
  svix_id = pick (lookup headers "svix-id");
  svix_timestamp = pick (lookup headers "svix-timestamp");
  svix_signature = pick (lookup headers "svix-signature");
}

module _ {W X : Type 0} (platform : Platform W) (server : AccessServer X)
    (verify : String → SvixHeaders → Result (WebhookError X) Value) where
  -- What else is thrown is left to the framework.
  abbrev pub WebhookResult : Type 0
  WebhookResult = Result X WebhookReply × Tenancy × W

  abbrev pub handled_reply : Result (ProvisioningError X) Bool × Tenancy × W → WebhookResult
  handled_reply (ok handled, db, w) = (ok (accepted handled), db, w)
  handled_reply (err (bad_payload message), db, w) = (ok (malformed message), db, w)
  handled_reply (err (refused x), db, w) = (err x, db, w)

  abbrev pub apply_event : Result String ClerkEvent → Tenancy → W → WebhookResult
  apply_event (err message) db w = (ok (malformed message), db, w)
  apply_event (ok event) db w = handled_reply (handle_event platform server event db w)

  abbrev pub verified_body : Result (WebhookError X) Value → Tenancy → W → WebhookResult
  verified_body (err invalid_signature) db w = (ok unauthorized, db, w)
  verified_body (err (other_error x)) db w = (err x, db, w)
  verified_body (ok payload) db w = apply_event (parse_clerk_event payload) db w

  unfoldable pub post_webhook : String → Fields → Tenancy → W → WebhookResult
  post_webhook raw_body headers db w = verified_body (verify raw_body (svix_headers headers)) db w
