-- ===== src/Worker/PayloadLaws.antt =====
-- What apps/worker/src/work-order-payload.ts accepts, and what it reads of a payload.
use donnav.Common.{
  ◌>>=◌, ℕ, String, Bool, List, [], ◌∷◌, ◌≡◌, ◌≢◌, ◌↔◌, ◌⊎◌, arith, ◌+◌, eq_iff, string_eq, Option,
  none, some, ok, err,
}
use mathlib.Core.Logic.Iff
use donnav.Orchestrator.Json.{text_items}
use donnav.Common.Json.{
  finite, Value, undefined, boolean, number, text, array, object, Values, no_items, item, Fields,
  lookup,
}
use donnav.Worker.Payload.{
  Parsed, require_string, string_value, string_array_value, optional_string, optional_boolean,
  optional_number, strings, string_array, ParsedMessage, ParsedRequest, message_of, parse_message,
  message_items, request_of, optional_request_value, present, parse_messages, optional_request,
  optional_object,
}

-- How the values of an order stand in a payload.
abbrev pub IsString : Value → Option String → Type 0
IsString v none = v ≡ undefined
IsString v (some s) = v ≡ text s

abbrev pub IsBoolean : Value → Option Bool → Type 0
IsBoolean v none = v ≡ undefined
IsBoolean v (some b) = v ≡ boolean b

abbrev pub IsNumber : Value → Option ℕ → Type 0
IsNumber v none = v ≡ undefined
IsNumber v (some n) = v ≡ number (finite n)

abbrev pub IsObject : Value → Option Fields → Type 0
IsObject v none = v ≡ undefined
IsObject v (some fields) = v ≡ object fields

abbrev pub AreStrings : Value → List String → Type 0
AreStrings v ss = ((v ≡ undefined) × (ss ≡ [])) ⊎ (v ≡ array (text_items ss))

string_value_iff :
    (k : String) (v : Value) (s : String) → (string_value k v ≡ ok s) ↔ ((v ≡ text s) × (s ≢ ""))
string_value_iff k (text t) s = ground (arith, eq_iff t "", eq_iff s "")
string_value_iff k _ s = ground arith

pub require_string_iff :
    (p : Fields) (k s : String) → (require_string p k ≡ ok s) ↔ ((lookup p k ≡ text s) × (s ≢ ""))
unfolding require_string
require_string_iff p k s = string_value_iff k (lookup p k) s

pub optional_string_iff :
    (p : Fields) (k : String) (o : Option String)
    → (optional_string p k ≡ ok o) ↔ IsString (lookup p k) o
unfolding optional_string
optional_string_iff p k o = ground arith

pub optional_boolean_iff :
    (p : Fields) (k : String) (o : Option Bool)
    → (optional_boolean p k ≡ ok o) ↔ IsBoolean (lookup p k) o
unfolding optional_boolean
optional_boolean_iff p k o = ground arith

pub optional_number_iff :
    (p : Fields) (k : String) (o : Option ℕ)
    → (optional_number p k ≡ ok o) ↔ IsNumber (lookup p k) o
unfolding optional_number
optional_number_iff p k o = ground arith

pub optional_object_iff :
    (p : Fields) (k : String) (o : Option Fields)
    → (optional_object p k ≡ ok o) ↔ IsObject (lookup p k) o
unfolding optional_object
optional_object_iff p k o = ground arith

strings_iff :
    (k : String) (vs : Values) (ss : List String) → (strings k vs ≡ ok ss) ↔ (vs ≡ text_items ss)
unfolding strings
strings_iff k no_items ss = ground arith
strings_iff k (item (text t) vs) [] = ground (arith, strings_iff k vs [])
strings_iff k (item (text t) vs) (s ∷ ss) = ground (arith, strings_iff k vs ss)
strings_iff k (item _ vs) [] = ground arith
strings_iff k (item _ vs) (s ∷ ss) = ground arith

string_array_value_iff :
    (k : String) (v : Value) (ss : List String) → (string_array_value k v ≡ ok ss) ↔ AreStrings v ss
string_array_value_iff k (array vs) ss = ground (arith, strings_iff k vs ss)
string_array_value_iff k _ ss = ground arith

pub string_array_iff :
    (p : Fields) (k : String) (ss : List String)
    → (string_array p k ≡ ok ss) ↔ AreStrings (lookup p k) ss
unfolding string_array
string_array_iff p k ss = string_array_value_iff k (lookup p k) ss

-- Messages stand in a payload as objects that have at least a role and a content.
abbrev pub IsMessage : Value → ParsedMessage → Type 0
IsMessage (object fields) m =
    (lookup fields "role" ≡ text m.role) × (lookup fields "content" ≡ text m.content)
IsMessage _ m = ⊥

abbrev pub AreMessages : Values → List ParsedMessage → Type 0
AreMessages no_items [] = Unit
AreMessages (item v vs) (m ∷ ms) = IsMessage v m × AreMessages vs ms
AreMessages _ _ = ⊥

message_of_iff :
    (i : ℕ) (role content : Value) (m : ParsedMessage)
    → (message_of i role content ≡ ok m) ↔ ((role ≡ text m.role) × (content ≡ text m.content))
message_of_iff i (text a) (text b) m = ground arith
message_of_iff i (text a) _ m = ground arith
message_of_iff i _ content m = ground arith

parse_message_iff :
    (i : ℕ) (v : Value) (m : ParsedMessage) → (parse_message i v ≡ ok m) ↔ IsMessage v m
parse_message_iff i (object f) m = message_of_iff i (lookup f "role") (lookup f "content") m
parse_message_iff i _ m = ground arith

abbrev Prepended : Parsed ParsedMessage → Parsed (List ParsedMessage) → List ParsedMessage → Type 0
Prepended one many [] = ⊥
Prepended one many (m ∷ ms) = (one ≡ ok m) × (many ≡ ok ms)

Prepended-iff :
    (one : Parsed ParsedMessage) (many : Parsed (List ParsedMessage)) (ms : List ParsedMessage)
    → ((one >>= λ m. many >>= λ rest. ok (m ∷ rest)) ≡ ok ms) ↔ Prepended one many ms
Prepended-iff (ok x) (ok xs) [] = ground arith
Prepended-iff (ok x) (ok xs) (m ∷ ms) = ground arith
Prepended-iff (ok x) (err e) [] = ground arith
Prepended-iff (ok x) (err e) (m ∷ ms) = ground arith
Prepended-iff (err e) many [] = ground arith
Prepended-iff (err e) many (m ∷ ms) = ground arith

parse_messages_iff :
    (i : ℕ) (vs : Values) (ms : List ParsedMessage)
    → (parse_messages i vs ≡ ok ms) ↔ AreMessages vs ms
unfolding parse_messages
parse_messages_iff i no_items [] = ground arith
parse_messages_iff i no_items (m ∷ ms) = ground arith
parse_messages_iff i (item v vs) [] =
    ground (arith, Prepended-iff (parse_message i v) (parse_messages (i + 1) vs) [])
parse_messages_iff i (item v vs) (m ∷ ms) = ground (
  arith,
  Prepended-iff (parse_message i v) (parse_messages (i + 1) vs) (m ∷ ms),
  parse_message_iff i v m,
  parse_messages_iff (i + 1) vs ms,
)

abbrev pub HasMessages : Value → List ParsedMessage → Type 0
HasMessages (array (item v vs)) ms = AreMessages (item v vs) ms
HasMessages _ ms = ⊥

message_items_iff :
    (v : Value) (ms : List ParsedMessage) → (message_items v ≡ ok ms) ↔ HasMessages v ms
message_items_iff (array no_items) ms = ground arith
message_items_iff (array (item v vs)) ms = parse_messages_iff 0 (item v vs) ms
message_items_iff _ ms = ground arith

abbrev pub HasRequest : Value → ParsedRequest → Type 0
HasRequest (object fields) r =
    HasMessages (lookup fields "messages") r.messages
    × IsNumber (lookup fields "maxOutputTokens") r.max_output_tokens
    × IsNumber (lookup fields "reasoningTier") r.reasoning_tier
HasRequest _ r = ⊥

abbrev pub IsRequest : Value → Option ParsedRequest → Type 0
IsRequest v none = v ≡ undefined
IsRequest v (some r) = HasRequest v r

request_iff :
    (a : Parsed (List ParsedMessage)) (b c : Parsed (Option ℕ)) (r : ParsedRequest)
    → ((a >>= λ x. b >>= λ y.
          c >>= λ z. ok (record { messages = x; max_output_tokens = y; reasoning_tier = z }))
        ≡ ok r)
      ↔ ((a ≡ ok r.messages) × (b ≡ ok r.max_output_tokens) × (c ≡ ok r.reasoning_tier))
request_iff (ok x) (ok y) (ok z) r = ground arith
request_iff (ok x) (ok y) (err e) r = ground arith
request_iff (ok x) (err e) c r = ground arith
request_iff (err e) b c r = ground arith

request_of_iff : (v : Value) (r : ParsedRequest) → (request_of v ≡ ok r) ↔ HasRequest v r
request_of_iff (object f) r = ground (
  arith,
  request_iff (message_items (lookup f "messages")) (optional_number f "maxOutputTokens")
      (optional_number f "reasoningTier") r,
  message_items_iff (lookup f "messages") r.messages,
  optional_number_iff f "maxOutputTokens" r.max_output_tokens,
  optional_number_iff f "reasoningTier" r.reasoning_tier,
)
request_of_iff _ r = ground arith

present_iff :
    (p : Parsed ParsedRequest) (r : ParsedRequest) → (present p ≡ ok (some r)) ↔ (p ≡ ok r)
present_iff (ok x) r = ground arith
present_iff (err e) r = ground arith

present_some : (p : Parsed ParsedRequest) → ¬ (present p ≡ ok none)
present_some (ok x) h = ground arith
present_some (err e) h = ground arith

optional_request_value_iff :
    (v : Value) (o : Option ParsedRequest) → (optional_request_value v ≡ ok o) ↔ IsRequest v o
optional_request_value_iff undefined none = ground arith
optional_request_value_iff undefined (some r) = ground arith
optional_request_value_iff (object f) none = ground (arith, present_some (request_of (object f)))
optional_request_value_iff (object f) (some r) =
    Iff.trans (present_iff (request_of (object f)) r) (request_of_iff (object f) r)
optional_request_value_iff _ none = ground arith
optional_request_value_iff _ (some r) = ground arith

pub optional_request_iff :
    (p : Fields) (o : Option ParsedRequest)
    → (optional_request p ≡ ok o) ↔ IsRequest (lookup p "modelRequest") o
unfolding optional_request
optional_request_iff p o = optional_request_value_iff (lookup p "modelRequest") o
