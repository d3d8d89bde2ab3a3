-- ===== src/Access/Revocation.antt =====
-- What a provisioning event of apps/control-plane/src/webhooks/provisioning.ts makes of the principal
-- that apps/control-plane/src/auth/principal-resolver.ts resolves.
use donnav.Common.{
  ℕ, String, true, List, ◌≡◌, inl, inr, refl, sym, ap, ◌∙◌, arith, none, map, find, ok,
  Option-cases, false, In, In-map, find-none, subst, string_eq,
}
use donnav.Events.Create.{Platform}
use donnav.Access.Tenancy.{UserRow, Tenancy, AccessServer, Rearranges}
use donnav.Access.Principals.{is_external_user, resolve_user, resolve_principal}
use donnav.Access.ClerkEvents.{ClerkEvent, parse_deleted_id}
use donnav.Access.Provisioning.{
  clear_external, revoke_user, handle_event, apply_parsed, applied_step,
}

clear_external-external :
    (external : String) (now : ℕ) (u : UserRow)
    → is_external_user external (clear_external external now u) ≡ false
clear_external-external external now u = ground arith

find-cleared :
    (external : String) (now : ℕ) (users seen : List UserRow)
    → ((u : UserRow) → In u seen → In u (map (clear_external external now) users))
    → find (is_external_user external) seen ≡ none
find-cleared external now users seen h = find-none (is_external_user external) seen (λ u i.
    let (v, j, e) = (In-map (clear_external external now) u users).0 (h u i) in
    subst (λ x. is_external_user external x ≡ false) (sym e)
      (clear_external-external external now v))

module _ {W X : Type 0} (platform : Platform W) (server : AccessServer X) where
  -- An event under another name of its type.
  abbrev named : String → ClerkEvent → ClerkEvent
  named type event = record { type = type; payload = event.payload }

  handle_event-deleted :
      (event : ClerkEvent) (subject : String) (db : Tenancy) (w : W)
      → event.type ≡ "user.deleted"
      → parse_deleted_id event.payload ≡ ok subject
      → handle_event platform server event db w
        ≡ applied_step platform server (revoke_user platform server subject db w) db w
  unfolding handle_event
  handle_event-deleted event subject db w t p =
      ap (λ type. handle_event platform server (named type event) db w) t
      ∙ ap (λ r. apply_parsed platform server r (revoke_user platform server) db w) p

  abbrev revoked : String → Tenancy → W → Tenancy
  revoked subject db w = record db {
    users = map (clear_external subject (platform.now w)) db.users;
  }

  revoke_user-applied :
      (subject : String) (db : Tenancy) (w : W)
      → let (result, db', w') =
          applied_step platform server (revoke_user platform server subject db w) db w in
        result ≡ ok true → db' ≡ revoked subject db w
  unfolding revoke_user
  revoke_user-applied subject db w = elim (Option-cases (server.violates (revoked subject db w))) [
    | inl e ↦ rw (e) (λ h. refl)
    | inr (x, e) ↦ rw (e) (λ h. ground arith)
  ]

  -- After the event that a user was deleted was handled, no principal is resolved for its subject,
  -- whatever rows and memberships the tables hold and in whatever order their rows are answered.
  pub handle_event-revokes :
      (scan : Tenancy → Tenancy) (event : ClerkEvent) (subject : String) (db : Tenancy) (w : W)
      → Rearranges scan
      → event.type ≡ "user.deleted"
      → parse_deleted_id event.payload ≡ ok subject
      → (handle_event platform server event db w).0 ≡ ok true
      → resolve_principal scan subject (handle_event platform server event db w).1 ≡ none
  unfolding resolve_principal
  handle_event-revokes scan event subject db w a t p h =
      let handled = handle_event-deleted event subject db w t p in
      let after = revoke_user-applied subject db w (sym (ap (λ r. r.0) handled) ∙ h) in
      let left = revoked subject db w in
      let cleared =
        find-cleared subject (platform.now w) db.users (scan left).users
          (λ u. (a.users left u).0) in
      let none_left : resolve_principal scan subject left ≡ none =
        ap (λ o. resolve_user o (scan left)) cleared in
      ap (λ r. resolve_principal scan subject r.1) handled
      ∙ (ap (resolve_principal scan subject) after ∙ none_left)
