-- ===== src/Routing/Work.antt =====
-- packages/work-router/src/router.ts: `routeWork`, `candidateCapabilities`, `candidateClasses`.
use Prim.Native.String.{◌++◌ as text_append}
use donnav.Common.{
  String, Bool, List, [], ◌∷◌, ◌++◌, Option, none, some, is_true, includes, index_of, if◌then◌else◌,
}
use donnav.Common.Int.{ℤ, ◌-ℤ◌}
use donnav.Common.Sort.{sort_by}
use donnav.Domain.Tasks.{
  ExecutionClass, deterministic, automation, human, browser, coding_agent, local_ai, cloud_ai,
  class_eq,
}
use donnav.Routing.Registry.{RegisteredCapability, CapabilityRegistry, healthy_providing}

-- `CLASS_PREFERENCE`
abbrev pub class_preference : List ExecutionClass
class_preference =
    deterministic ∷ automation ∷ human ∷ browser ∷ coding_agent ∷ local_ai ∷ cloud_ai ∷ []

pub record WorkRoutingInput : Type 0 where
  pub required_capabilities : List String
  pub prefers_human : Option Bool
  pub needs_reasoning : Option Bool

pub data WorkRoutingReason : Type 0 where
  human_required capability_matched ai_reasoning_required : WorkRoutingReason
  no_capability_fallback_human : WorkRoutingReason

pub record WorkRoutingDecision : Type 0 where
  pub execution_class : ExecutionClass
  pub capability_id : Option String
  pub reason : WorkRoutingReason
  pub message : String

unfoldable pub by_preference : RegisteredCapability → RegisteredCapability → ℤ
by_preference a b =
    index_of class_preference a.execution_class -ℤ index_of class_preference b.execution_class

-- How the message of a match names the class.
abbrev class_name : ExecutionClass → String
class_name deterministic = "deterministic"
class_name automation = "automation"
class_name human = "human"
class_name browser = "browser"
class_name coding_agent = "coding_agent"
class_name local_ai = "local_ai"
class_name cloud_ai = "cloud_ai"

abbrev matched : RegisteredCapability → WorkRoutingDecision
matched chosen = record {
  execution_class = chosen.execution_class;
  capability_id = some chosen.id;
  reason = capability_matched;
  message = text_append "Matched capability \"" (
      text_append chosen.id
        (text_append "\" (" (text_append (class_name chosen.execution_class) ").")));
}

abbrev unmatched : WorkRoutingInput → WorkRoutingDecision
unmatched input =
    if is_true input.needs_reasoning
    then record {
      execution_class = cloud_ai;
      capability_id = none;
      reason = ai_reasoning_required;
      message = "No deterministic path; AI reasoning required (Model Router selects model/node).";
    }
    else record {
      execution_class = human;
      capability_id = none;
      reason = no_capability_fallback_human;
      message = "No capability available; routed to a human.";
    }

-- `candidates.length > 0` and the first of the sorted candidates.
abbrev pub pick : WorkRoutingInput → List RegisteredCapability → WorkRoutingDecision
pick input [] = unmatched input
pick input (chosen ∷ rest) = matched chosen

unfoldable pub route_work : WorkRoutingInput → CapabilityRegistry → WorkRoutingDecision
route_work input registry =
    if is_true input.prefers_human
    then record {
      execution_class = human;
      capability_id = none;
      reason = human_required;
      message = "Task requires human judgment, ownership, or policy.";
    }
    else pick input (sort_by by_preference (healthy_providing input.required_capabilities registry))

unfoldable pub candidate_capabilities :
    WorkRoutingInput → CapabilityRegistry → List RegisteredCapability
candidate_capabilities input registry =
    if is_true input.prefers_human
    then []
    else sort_by by_preference (healthy_providing input.required_capabilities registry)

-- The closure `push` of `candidateClasses`.
abbrev pub push : List ExecutionClass → ExecutionClass → List ExecutionClass
push ordered c = if includes ordered c then ordered else ordered ++ c ∷ []

unfoldable pub push_all : List ExecutionClass → List RegisteredCapability → List ExecutionClass
push_all ordered [] = ordered
push_all ordered (c ∷ cs) = push_all (push ordered c.execution_class) cs

unfoldable pub candidate_classes : WorkRoutingInput → CapabilityRegistry → List ExecutionClass
unfolding push_all
candidate_classes input registry =
    let start = if is_true input.prefers_human then push [] human else [] in
    let matched_classes =
      push_all start
        (sort_by by_preference (healthy_providing input.required_capabilities registry)) in
    let reasoned =
      if is_true input.needs_reasoning then push matched_classes cloud_ai else matched_classes in
    push reasoned human
