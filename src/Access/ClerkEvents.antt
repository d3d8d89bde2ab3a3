-- ===== src/Access/ClerkEvents.antt =====
-- apps/control-plane/src/webhooks/clerk-events.ts: the payloads of provisioning events. What is
-- thrown is the message of a `ClerkPayloadError`, after the prefix that all have.
use Prim.Native.String.{◌++◌}
use donnav.Common.{
  nat_eq, String, Bool, true, false, ◌||◌, ◌==◌, string_eq, Option, none, some, Result, ok, err,
  ◌>>=◌, if◌then◌else◌,
}
use donnav.Common.Json.{
  Numeric, Value, undefined, text, array, object, Values, no_items, item, Fields, lookup, boolean,
  number, null, finite,
}
use donnav.Common.Trim.{trim}
use donnav.Domain.Values.{Role, admin, team_member}

abbrev pub Read {ℓ} : Type ℓ → Type ℓ
Read A = Result String A

pub record ClerkEvent : Type 0 where
  pub type : String
  pub payload : Fields

pub record MembershipSync : Type 0 where
  pub clerk_org_id : String
  pub org_name : String
  pub org_slug : String
  pub clerk_user_id : String
  pub email : String
  pub display_name : String
  pub role : Role

pub record UserUpdate : Type 0 where
  pub clerk_user_id : String
  pub email : String
  pub display_name : String

pub record OrgUpdate : Type 0 where
  pub clerk_org_id : String
  pub name : String
  pub slug : String

pub record MembershipRef : Type 0 where
  pub clerk_org_id : String
  pub clerk_user_id : String

abbrev text_value : String → Value → Read String
text_value key (text s) =
    if s == "" then err ("\"" ++ key ++ "\" must be a non-empty string") else ok s
text_value key _ = err ("\"" ++ key ++ "\" must be a non-empty string")

-- `str(record, key)`
unfoldable pub str : Fields → String → Read String
str fields key = text_value key (lookup fields key)

abbrev record_of : String → Value → Read Fields
record_of message (object fields) = ok fields
record_of message _ = err message

abbrev type_of : Value → Read String
type_of (text t) = ok t
type_of _ = err "missing event type"

unfoldable pub parse_clerk_event : Value → Read ClerkEvent
parse_clerk_event payload = do
  fields ← record_of "event must be an object" payload
  type ← type_of (lookup fields "type")
  fields_of ← record_of "missing event data" (lookup fields "data")
  ok (record { type = type; payload = fields_of })

unfoldable pub map_clerk_role : String → Role
map_clerk_role clerk_role =
    if (clerk_role == "org:admin") || (clerk_role == "admin") then admin else team_member

-- `typeof value === 'string' ? value : ''`
abbrev text_or_empty : Value → String
text_or_empty (text s) = s
text_or_empty _ = ""

unfoldable pub display_name_from : Fields → String → String
display_name_from fields fallback =
    let first = text_or_empty (lookup fields "first_name") in
    let last = text_or_empty (lookup fields "last_name") in
    let name = trim (first ++ " " ++ last) in if name == "" then fallback else name

unfoldable pub parse_membership_sync : Fields → Read MembershipSync
parse_membership_sync payload = do
  org ← record_of "missing organization" (lookup payload "organization")
  user ← record_of "missing public_user_data" (lookup payload "public_user_data")
  email ← str user "identifier"
  clerk_org_id ← str org "id"
  org_name ← str org "name"
  org_slug ← str org "slug"
  clerk_user_id ← str user "user_id"
  ok (record {
    clerk_org_id = clerk_org_id;
    org_name = org_name;
    org_slug = org_slug;
    clerk_user_id = clerk_user_id;
    email = email;
    display_name = display_name_from user email;
    role = map_clerk_role (text_or_empty (lookup payload "role"));
  })

-- `===` on the identifiers of addresses: equal primitive values; no two objects are the same.
abbrev same_bool : Bool → Bool → Bool
same_bool true b = b
same_bool false true = false
same_bool false false = true

abbrev same_number : Numeric → Numeric → Bool
same_number (finite m) (finite n) = m == n
same_number _ _ = false

abbrev pub same_value : Value → Value → Bool
same_value undefined undefined = true
same_value null null = true
same_value (text s) (text t) = s == t
same_value (boolean a) (boolean b) = same_bool a b
same_value (number m) (number n) = same_number m n
same_value _ _ = false

abbrev is_primary : Value → Value → Bool
is_primary primary (object e) = same_value (lookup e "id") primary
is_primary primary _ = false

abbrev is_object : Value → Bool
is_object (object e) = true
is_object _ = false

unfoldable pub find_item : (Value → Bool) → Values → Option Value
find_item p no_items = none
find_item p (item v vs) = let rest = find_item p vs in if p v then some v else rest

abbrev or_item : Option Value → Option Value → Option Value
or_item none second = second
or_item (some first) second = some first

abbrev address_text : Value → Read String
address_text (text s) = ok s
address_text _ = err "no email address on user"

abbrev address_of : Option Value → Read String
address_of (some (object e)) = address_text (lookup e "email_address")
address_of _ = err "no email address on user"

abbrev pub primary_of_list : Value → Value → Read String
primary_of_list primary (array list) =
    address_of (or_item (find_item (is_primary primary) list) (find_item is_object list))
primary_of_list primary _ = err "no email address on user"

unfoldable pub primary_email : Fields → Read String
primary_email payload =
    primary_of_list (lookup payload "primary_email_address_id") (lookup payload "email_addresses")

unfoldable pub parse_user_update : Fields → Read UserUpdate
parse_user_update payload = do
  clerk_user_id ← str payload "id"
  email ← primary_email payload
  ok (record {
    clerk_user_id = clerk_user_id;
    email = email;
    display_name = display_name_from payload email;
  })

unfoldable pub parse_org_update : Fields → Read OrgUpdate
parse_org_update payload = do
  clerk_org_id ← str payload "id"
  name ← str payload "name"
  slug ← str payload "slug"
  ok (record { clerk_org_id = clerk_org_id; name = name; slug = slug })

unfoldable pub parse_deleted_id : Fields → Read String
parse_deleted_id payload = str payload "id"

unfoldable pub parse_membership_ref : Fields → Read MembershipRef
parse_membership_ref payload = do
  org ← record_of "missing organization" (lookup payload "organization")
  user ← record_of "missing public_user_data" (lookup payload "public_user_data")
  clerk_org_id ← str org "id"
  clerk_user_id ← str user "user_id"
  ok (record { clerk_org_id = clerk_org_id; clerk_user_id = clerk_user_id })
