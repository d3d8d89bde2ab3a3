-- ===== src/Lib.antt =====
-- DONNA is a platform that takes units of work (work orders), decides by deterministic rules who may do
-- them and what does them (a function, an automation, a human, a local or a cloud model), executes
-- them through adapters, records events and costs, and commits the outcome to the task's row.
--
-- Parts, in the order in which an order meets them, with the files of this library:
--   * packages/core-domain: values, events, objectives, tasks and the task state machine:
--     Domain/Values, Domain/Events, Domain/Objectives, Domain/Tasks, Domain/Machine; Domain/Runs has
--     sequences of transitions.
--   * packages/db: the rows of src/schema/execution.ts and src/events-mapper.ts: Db.
--   * packages/policy: `evaluate` with its kill switches and role ceilings: Policy/Types,
--     Policy/Engine; Policy/Laws.
--   * apps/control-plane, who calls: `devAuthenticator` and `jwtAuthenticator` with the token
--     verification and the resolver of principals (src/auth, src/principal.ts): Access/Tokens,
--     Access/Principals, Access/Authenticate; Access/AuthLaws. The rows of src/schema/tenancy.ts of
--     packages/db: Access/Tenancy. Provisioning by signed events (src/webhooks): Access/ClerkEvents,
--     Access/Provisioning, Access/Webhook; Access/Upserts and Access/Membership follow one
--     membership to its principal, Access/Revocation a revoked user, Access/WebhookLaws the route.
--   * apps/control-plane, what is called: the routes of src/server.ts: Control/Requests has the
--     bodies and the services, Control/Server the handlers; Control/ServerLaws. The services:
--     Control/Objectives, Control/Tasks, Control/Queue, and the dispatcher that writes a task, its
--     event and its job in one transaction, Control/Dispatch; src/db/mappers.ts: Control/Mappers;
--     the statements of the database: Control/Postgres; Control/ObjectiveLaws,
--     Control/MapperLaws. The configuration at start (src/runtime-config.ts): Control/Startup;
--     Control/StartupLaws.
--   * apps/worker: `parseWorkOrder`: Worker/Payload; Worker/PayloadLaws and Worker/ParsedOrders give
--     what it accepts, Worker/Casts the casts after it, and Worker/RoundTrip reads what
--     Orchestrator/Json has written. `TaskStateStore.commitOutcome` and the rows of events:
--     Worker/TaskState, Worker/Rows; Worker/TaskLaws, Worker/Deliveries. The job handler of
--     src/worker.ts: Worker/Handler; Worker/HandlerLaws.
--   * packages/orchestrator: `executeWorkOrder`: Orchestrator/Order has its records,
--     Orchestrator/Steps the body of each loop, Orchestrator/Execute the loops and what is around
--     them, Orchestrator/Catalog the capability catalog, Orchestrator/Json an order as JSON;
--     Orchestrator/CatalogLaws; Orchestrator/Budgets and Orchestrator/Unaffordable follow the
--     budget gate; Orchestrator/Traces, Attempts, Told and Story follow the events.
--   * packages/work-router: the capability registry and `routeWork`, `candidateCapabilities`,
--     `candidateClasses`: Routing/Registry, Routing/Work; Routing/WorkLaws, Routing/ClassLaws.
--   * packages/model-router: `routeModel`: Routing/Models; Routing/ModelLaws.
--   * packages/config: the model registry and feature flags: Config/Models, Config/Flags.
--   * packages/adapters: the contract and health of base: Adapter/Contracts, Adapter/Health; the
--     adapter of capability-fn: Adapter/Function; the adapter of http: Adapter/Http;
--     Adapter/HttpLaws; the adapters of models (model-anthropic, model-openai, model-local):
--     Adapter/Completions, Adapter/Anthropic, Adapter/OpenAi, Adapter/Local; Adapter/VendorLaws;
--     the adapter of ghl, made of that of http: Adapter/Ghl; Adapter/GhlLaws.
--     What the worker makes of its environment (src/model-adapters.ts, src/capabilities.ts):
--     Worker/Models, Worker/Capabilities; Worker/ModelLaws.
--   * packages/cost-governor: budgets, costs, the ledger and summaries: Cost/Budget, Cost/Ledger,
--     Cost/Summary.
--   * packages/context: `buildContextPacket`: Context; Context/Laws, Context/Greedy.
--   * packages/events: `InMemoryEventBus`, `createEvent`, `OutboxDispatcher` and its in-memory
--     store: Events/Bus, Events/Create, Events/Outbox; Events/BusLaws, Events/Marking,
--     Events/OutboxLaws.
--   * Journey and Journey/Handover follow a task from the dispatcher's transaction over the payload
--     of its job and the worker's handler to the row that is committed.
--   * Common: the library's names passed on, JavaScript's operators and array methods, integers,
--     sorting, maps, texts and JSON values. Scenarios: concrete inputs, and each result at one of them.
--
-- How code becomes definitions. An interface is a record, a union of literals a data type, a
-- function of the source a function of the same name in snake case. An optional field is an
-- `Option`. What is thrown is the `err` of a `Result`. An asynchronous method is a function that
-- takes the state of the world outside and gives its result with the state after, so awaits
-- follow each other as in the source; jobs that run at the same time are not interleaved, each
-- has its own buffer and its own transaction. Identifiers and times come from a `Platform`,
-- adapters and their vendors from the dependencies, the job queue from a function, all of them
-- parameters. Orchestrator: the bus of an execution is the worker's buffering bus, which does not
-- throw, and its events and the ledger are part of the state.
--
-- Numbers are natural numbers or integers without a bound; the source's are JavaScript numbers,
-- exact up to 2^53. Money is a whole number of 10^-12 USD and a rate one of 10^-6 USD per million
-- tokens, which is exact for every rate of the registry, so rounding is not modelled. Averages are
-- kept as pairs of a sum and a count. A stable insertion sort stands for JavaScript's sort, which is
-- stable, so both give the same list for the comparators used here. All loops are recursions over a
-- list, so none needs fuel, but that the text of a number is computed with as much fuel as the
-- number itself, which is more than its digits.
--
-- Libraries that the code calls are parameters with no more than a type: the statements of the
-- control plane's database, each write of which may fail (a transaction that fails leaves the tables
-- as they were), and which answer rows in any order where the code asks for none; the
-- verification of a token (jose) and of a webhook's signature (svix), `fetch` and the parser of
-- URLs, the clients of model vendors, the job queue (graphile-worker). What a theorem needs of one
-- stands among its hypotheses. The policy, the budget and the input of an order are objects of any shape, so `Nested` says how
-- they are written as JSON and read again.
--
-- In the worker the statements of `commitOutcome` and of the outbox, and in the control plane the
-- reads of provisioning and of principals, are taken to succeed; where one fails, the source throws
-- what the database has thrown, and an open transaction is rolled back.
--
-- Not modelled: the web client, the web framework and the start of the processes, the approval
-- records and the services of the business graph and business constitution, the constraints and migrations of the database; the manifest gives the reasons.
pub mod Common
pub mod Domain
pub mod Db
pub mod Policy
pub mod Adapter
pub mod Config
pub mod Routing
pub mod Cost
pub mod Context
pub mod Events
pub mod Orchestrator
pub mod Control
pub mod Worker
pub mod Access
pub mod Journey
pub mod Scenarios
