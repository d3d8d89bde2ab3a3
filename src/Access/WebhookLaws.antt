-- ===== src/Access/WebhookLaws.antt =====
-- What reaches the tables through the webhook of apps/control-plane/src/server.ts.
use donnav.Common.{String, Bool, true, ◌≡◌, ◌⊎◌, inl, inr, refl, arith, Result, ok, err}
use donnav.Common.Json.{Value, Fields}
use donnav.Events.Create.{Platform}
use donnav.Access.Tenancy.{Tenancy, AccessServer}
use donnav.Access.ClerkEvents.{
  parse_membership_sync, parse_membership_ref, parse_user_update, parse_deleted_id,
  parse_org_update, ClerkEvent, parse_clerk_event,
}
use donnav.Access.Provisioning.{
  ProvisioningError, bad_payload, refused, Step, applied_step, apply_parsed, EventKind,
  membership_synced, membership_deleted, user_changed, user_deleted, organization_changed,
  other_event, kind_of, handle_kind, handle_event,
}
use donnav.Access.Webhook.{
  invalid_signature, other_error, WebhookError, accepted, SvixHeaders, svix_headers, WebhookResult,
  handled_reply, apply_event, verified_body, post_webhook,
}

module _ {W X : Type 0} (platform : Platform W) (server : AccessServer X)
    (verify : String → SvixHeaders → Result (WebhookError X) Value) where
  -- What came of an event: it was handled, or the tables are as they were.
  abbrev Untouched : Tenancy → Result (ProvisioningError X) Bool × Tenancy × W → Type 0
  Untouched db (result, db', w') = (result ≡ ok true) ⊎ (db' ≡ db)

  applied_step-Untouched :
      (step : Step platform server (Unit {0})) (db : Tenancy) (w : W)
      → Untouched db (applied_step platform server step db w)
  applied_step-Untouched (ok (u, db', w')) db w = inl refl
  applied_step-Untouched (err x) db w = inr refl

  apply_parsed-Untouched :
      {A : Type 0} (r : Result String A) (apply : A → Tenancy → W → Step platform server (Unit {0}))
      (db : Tenancy) (w : W)
      → Untouched db (apply_parsed platform server r apply db w)
  apply_parsed-Untouched (ok a) apply db w = applied_step-Untouched (apply a db w) db w
  apply_parsed-Untouched (err message) apply db w = inr refl

  handle_kind-Untouched :
      (kind : EventKind) (payload : Fields) (db : Tenancy) (w : W)
      → Untouched db (handle_kind platform server kind payload db w)
  handle_kind-Untouched membership_synced payload db w =
      apply_parsed-Untouched (parse_membership_sync payload) _ db w
  handle_kind-Untouched membership_deleted payload db w =
      apply_parsed-Untouched (parse_membership_ref payload) _ db w
  handle_kind-Untouched user_changed payload db w =
      apply_parsed-Untouched (parse_user_update payload) _ db w
  handle_kind-Untouched user_deleted payload db w =
      apply_parsed-Untouched (parse_deleted_id payload) _ db w
  handle_kind-Untouched organization_changed payload db w =
      apply_parsed-Untouched (parse_org_update payload) _ db w
  handle_kind-Untouched other_event payload db w = inr refl

  handle_event-Untouched :
      (event : ClerkEvent) (db : Tenancy) (w : W)
      → Untouched db (handle_event platform server event db w)
  unfolding handle_event
  handle_event-Untouched event db w = handle_kind-Untouched (kind_of event.type) event.payload db w

  -- The reply accepts, and the tables are those after the event.
  abbrev pub Applied : ClerkEvent → Tenancy → W → WebhookResult platform server verify → Type 0
  Applied event db w (reply, db', w') =
      (reply ≡ ok (accepted true)) × (db' ≡ (handle_event platform server event db w).1)

  handled_reply-cases :
      (db : Tenancy) (handled : Result (ProvisioningError X) Bool × Tenancy × W)
      → Untouched db handled
      → let r = handled_reply platform server verify handled in
        (r.1 ≡ db) ⊎ ((r.0 ≡ ok (accepted true)) × (r.1 ≡ handled.1))
  handled_reply-cases db (ok h, db', w') (inl e) = inr (ground arith, refl)
  handled_reply-cases db (ok h, db', w') (inr e) = inl e
  handled_reply-cases db (err (bad_payload m), db', w') (inl e) = ground arith
  handled_reply-cases db (err (bad_payload m), db', w') (inr e) = inl e
  handled_reply-cases db (err (refused x), db', w') (inl e) = ground arith
  handled_reply-cases db (err (refused x), db', w') (inr e) = inl e

  apply_event-cases :
      (parsed : Result String ClerkEvent) (db : Tenancy) (w : W)
      → let r = apply_event platform server verify parsed db w in
        (r.1 ≡ db) ⊎ ((event : ClerkEvent) × (parsed ≡ ok event) × Applied event db w r)
  apply_event-cases (err message) db w = inl refl
  apply_event-cases (ok event) db w =
      elim (handled_reply-cases db (handle_event platform server event db w)
        (handle_event-Untouched event db w)) [ inl e ↦ inl e | inr done ↦ inr (event, refl, done) ]

  verified_body-cases :
      (v : Result (WebhookError X) Value) (db : Tenancy) (w : W)
      → let r = verified_body platform server verify v db w in
        (r.1 ≡ db)
        ⊎ ((payload : Value) × (v ≡ ok payload)
            × (event : ClerkEvent) × (parse_clerk_event payload ≡ ok event)
            × Applied event db w r)
  verified_body-cases (err invalid_signature) db w = inl refl
  verified_body-cases (err (other_error x)) db w = inl refl
  verified_body-cases (ok payload) db w =
      elim (apply_event-cases (parse_clerk_event payload) db w) [
        | inl e ↦ inl e
        | inr (event, e, done) ↦ inr (payload, refl, event, e, done)
      ]

  -- The tables are changed only by a body whose signature is valid and that is an event, and then
  -- they are changed as the event is handled and the reply accepts it; every other request
  -- leaves them as they were.
  pub post_webhook-signed :
      (raw_body : String) (headers : Fields) (db : Tenancy) (w : W)
      → let r = post_webhook platform server verify raw_body headers db w in
        (r.1 ≡ db)
        ⊎ ((payload : Value) × (verify raw_body (svix_headers headers) ≡ ok payload)
            × (event : ClerkEvent) × (parse_clerk_event payload ≡ ok event)
            × Applied event db w r)
  unfolding post_webhook
  post_webhook-signed raw_body headers db w =
      verified_body-cases (verify raw_body (svix_headers headers)) db w
