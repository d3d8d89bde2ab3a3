-- ===== src/Scenarios/Nested.antt =====
-- Objects that stand for the nested values of an order, and their readings: an instance of what
-- apps/worker/src/work-order-payload.ts casts.
use donnav.Common.{
  ℕ, String, Bool, false, List, [], ◌∷◌, ◌≡◌, refl, ap, Option, none, some, get_or, find, ◌==◌,
  string_eq, nat_eq,
}
use donnav.Common.Json.{
  Value, null, text, boolean, number, finite, array, object, Values, no_items, item, Fields,
  no_fields, field, lookup,
}
use donnav.Domain.Values.{
  AuthorityLevel, observe, prepare, routine_action, approval_required, never_autonomous, level,
  Role, owner, admin, executive, team_lead, team_member, contractor, roles, role_name, Scope,
  private_scope, project, team, organization, scopes, scope_name,
}
use donnav.Policy.Types.{
  ActorKind, human, agent, PrincipalContext, CapabilityCategory, outbound_comms, browser_actions,
  deployments, api_spend, local_compute, ActionDescriptor, ResourceDescriptor,
}
use donnav.Cost.Budget.{BudgetScope}
use donnav.Adapter.Contracts.{ModelRole, system, user, assistant, tool}
use donnav.Orchestrator.Order.{OrderPolicy, OrderBudget}
use donnav.Orchestrator.Json.{Nested, model_role_name, text_items}

-- The value of an enum that a name stands for, or the first one.
abbrev named : {A : Type 0} → (A → String) → List A → A → String → A
named name values default s = get_or (find (λ a. name a == s) values) default

abbrev as_string : Value → String
as_string (text s) = s
as_string _ = ""

abbrev as_option : Value → Option String
as_option (text s) = some s
as_option _ = none

abbrev option_value : Option String → Value
option_value none = null
option_value (some s) = text s

as_option-option_value : (o : Option String) → as_option (option_value o) ≡ o
as_option-option_value none = refl
as_option-option_value (some s) = refl

abbrev as_texts : Values → List String
as_texts no_items = []
as_texts (item v vs) = as_string v ∷ as_texts vs

as_texts-text_items : (ss : List String) → as_texts (text_items ss) ≡ ss
as_texts-text_items [] = refl
as_texts-text_items (s ∷ ss) = ap (◌∷◌ s) (as_texts-text_items ss)

abbrev as_list : Value → List String
as_list (array vs) = as_texts vs
as_list _ = []

abbrev as_bool : Value → Bool
as_bool (boolean b) = b
as_bool _ = false

abbrev as_number : Value → ℕ
as_number (number (finite n)) = n
as_number _ = 0

abbrev as_fields : Value → Fields
as_fields (object fields) = fields
as_fields _ = no_fields

abbrev role_in : Value → Role
role_in v = named role_name roles owner (as_string v)

role_in-role_name : (r : Role) → role_in (text (role_name r)) ≡ r
role_in-role_name owner = refl
role_in-role_name admin = refl
role_in-role_name executive = refl
role_in-role_name team_lead = refl
role_in-role_name team_member = refl
role_in-role_name contractor = refl

abbrev scope_in : Value → Scope
scope_in v = named scope_name scopes organization (as_string v)

scope_in-scope_name : (s : Scope) → scope_in (text (scope_name s)) ≡ s
scope_in-scope_name private_scope = refl
scope_in-scope_name project = refl
scope_in-scope_name team = refl
scope_in-scope_name organization = refl

abbrev kind_name : ActorKind → String
kind_name human = "human"
kind_name agent = "agent"

abbrev kind_in : Value → ActorKind
kind_in v = named kind_name (human ∷ agent ∷ []) agent (as_string v)

kind_in-kind_name : (k : ActorKind) → kind_in (text (kind_name k)) ≡ k
kind_in-kind_name human = refl
kind_in-kind_name agent = refl

abbrev category_name : CapabilityCategory → String
category_name outbound_comms = "outbound_comms"
category_name browser_actions = "browser_actions"
category_name deployments = "deployments"
category_name api_spend = "api_spend"
category_name local_compute = "local_compute"

abbrev category_value : Option CapabilityCategory → Value
category_value none = null
category_value (some c) = text (category_name c)

abbrev category_in : Value → Option CapabilityCategory
category_in (text s) =
    find (λ c. category_name c == s)
      (outbound_comms ∷ browser_actions ∷ deployments ∷ api_spend ∷ local_compute ∷ [])
category_in _ = none

category_in-category_value : (o : Option CapabilityCategory) → category_in (category_value o) ≡ o
category_in-category_value none = refl
category_in-category_value (some outbound_comms) = refl
category_in-category_value (some browser_actions) = refl
category_in-category_value (some deployments) = refl
category_in-category_value (some api_spend) = refl
category_in-category_value (some local_compute) = refl

abbrev level_in : Value → AuthorityLevel
level_in v =
    get_or
      (find (λ l. level l == as_number v)
        (observe ∷ prepare ∷ routine_action ∷ approval_required ∷ never_autonomous ∷ []))
      observe

level_in-level : (l : AuthorityLevel) → level_in (number (finite (level l))) ≡ l
level_in-level observe = refl
level_in-level prepare = refl
level_in-level routine_action = refl
level_in-level approval_required = refl
level_in-level never_autonomous = refl

abbrev principal_value : PrincipalContext → Value
principal_value p = object (
    field "userId" (text p.user_id) (
      field "organizationId" (text p.organization_id) (
        field "role" (text (role_name p.role)) (
          field "actorKind" (text (kind_name p.actor_kind)) (
            field "teamIds" (array (text_items p.team_ids))
              (field "projectIds" (array (text_items p.project_ids)) no_fields))))))

abbrev principal_in : Fields → PrincipalContext
principal_in f = record {
  user_id = as_string (lookup f "userId");
  organization_id = as_string (lookup f "organizationId");
  role = role_in (lookup f "role");
  actor_kind = kind_in (lookup f "actorKind");
  team_ids = as_list (lookup f "teamIds");
  project_ids = as_list (lookup f "projectIds");
}

abbrev action_value : ActionDescriptor → Value
action_value a = object (
    field "name" (text a.name) (
      field "authorityLevel" (number (finite (level a.authority_level))) (
        field "sideEffecting" (boolean a.side_effecting)
          (field "capability" (category_value a.capability) no_fields))))

abbrev action_in : Fields → ActionDescriptor
action_in f = record {
  name = as_string (lookup f "name");
  authority_level = level_in (lookup f "authorityLevel");
  side_effecting = as_bool (lookup f "sideEffecting");
  capability = category_in (lookup f "capability");
}

abbrev resource_value : ResourceDescriptor → Value
resource_value r = object (
    field "organizationId" (text r.organization_id) (
      field "scope" (text (scope_name r.scope)) (
        field "ownerUserId" (option_value r.owner_user_id) (
          field "teamId" (option_value r.team_id)
            (field "projectId" (option_value r.project_id) no_fields)))))

abbrev resource_in : Fields → ResourceDescriptor
resource_in f = record {
  organization_id = as_string (lookup f "organizationId");
  scope = scope_in (lookup f "scope");
  owner_user_id = as_option (lookup f "ownerUserId");
  team_id = as_option (lookup f "teamId");
  project_id = as_option (lookup f "projectId");
}

abbrev pub policy_fields : OrderPolicy → Fields
policy_fields p = field "principal" (principal_value p.principal) (
    field "action" (action_value p.action) (field "resource" (resource_value p.resource) no_fields))

abbrev pub as_policy : Fields → OrderPolicy
as_policy f = record {
  principal = principal_in (as_fields (lookup f "principal"));
  action = action_in (as_fields (lookup f "action"));
  resource = resource_in (as_fields (lookup f "resource"));
}

pub as_policy-policy_fields : (p : OrderPolicy) → as_policy (policy_fields p) ≡ p
unfolding lookup
as_policy-policy_fields p =
    rw
      (
        role_in-role_name p.principal.role,
        kind_in-kind_name p.principal.actor_kind,
        as_texts-text_items p.principal.team_ids,
        as_texts-text_items p.principal.project_ids,
        level_in-level p.action.authority_level,
        category_in-category_value p.action.capability,
        scope_in-scope_name p.resource.scope,
        as_option-option_value p.resource.owner_user_id,
        as_option-option_value p.resource.team_id,
        as_option-option_value p.resource.project_id,
      )
      refl

abbrev budget_scope_name : BudgetScope → String
budget_scope_name BudgetScope.organization = "organization"
budget_scope_name BudgetScope.project = "project"
budget_scope_name BudgetScope.user = "user"
budget_scope_name BudgetScope.objective = "objective"
budget_scope_name BudgetScope.task = "task"
budget_scope_name BudgetScope.provider = "provider"
budget_scope_name BudgetScope.model = "model"

abbrev budget_scope_in : Value → BudgetScope
budget_scope_in v =
    named budget_scope_name
      (BudgetScope.organization ∷ BudgetScope.project ∷ BudgetScope.user ∷ BudgetScope.objective
        ∷ BudgetScope.task ∷ BudgetScope.provider ∷ BudgetScope.model ∷ [])
      BudgetScope.organization (as_string v)

budget_scope_in-name : (s : BudgetScope) → budget_scope_in (text (budget_scope_name s)) ≡ s
budget_scope_in-name BudgetScope.organization = refl
budget_scope_in-name BudgetScope.project = refl
budget_scope_in-name BudgetScope.user = refl
budget_scope_in-name BudgetScope.objective = refl
budget_scope_in-name BudgetScope.task = refl
budget_scope_in-name BudgetScope.provider = refl
budget_scope_in-name BudgetScope.model = refl

abbrev pub budget_fields : OrderBudget → Fields
budget_fields b = field "scope" (text (budget_scope_name b.budget.scope)) (
    field "scopeRef" (text b.budget.scope_ref) (
      field "limitUsd" (number (finite b.budget.limit_usd))
        (field "spentUsd" (number (finite b.spent_usd)) no_fields)))

abbrev pub as_budget : Fields → OrderBudget
as_budget f = record {
  budget = record {
    scope = budget_scope_in (lookup f "scope");
    scope_ref = as_string (lookup f "scopeRef");
    limit_usd = as_number (lookup f "limitUsd");
  };
  spent_usd = as_number (lookup f "spentUsd");
}

pub as_budget-budget_fields : (b : OrderBudget) → as_budget (budget_fields b) ≡ b
unfolding lookup
as_budget-budget_fields b = rw (budget_scope_in-name b.budget.scope) refl

abbrev pub as_role : String → ModelRole
as_role s = named model_role_name (system ∷ user ∷ assistant ∷ tool ∷ []) user s

pub as_role-model_role_name : (r : ModelRole) → as_role (model_role_name r) ≡ r
as_role-model_role_name system = refl
as_role-model_role_name user = refl
as_role-model_role_name assistant = refl
as_role-model_role_name tool = refl

-- Orders here carry no input, and none of them names an actor.
abbrev pub nested : Nested (Unit {0})
nested = record {
  actor_value = λ a. text a.id;
  input_value = λ u. null;
  policy_fields = policy_fields;
  as_policy = as_policy;
  as_policy-policy_fields = as_policy-policy_fields;
  budget_fields = budget_fields;
  as_budget = as_budget;
  as_budget-budget_fields = as_budget-budget_fields;
  as_role = as_role;
  as_role-model_role_name = as_role-model_role_name;
}
