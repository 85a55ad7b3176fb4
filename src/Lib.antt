-- ===== src/Lib.antt =====
-- WootPilot, an agent that answers customers in Chatwoot. A webhook stores a customer's message and
-- the safety state of its conversation; the support graph triages the message, asks policy whether
-- it may assist, asks a model for a proposal, lets policy validate it, and decides on one action;
-- the action is queued; the outbound worker claims queued actions, checks them again, and posts.
--
-- Files and the code that they model (paths under src/wootpilot):
--   Prelude       tests, lists, texts and JSON values over native numbers; the methods of Python's str
--                 and dict that the code uses
--   Domain        domain/models, application/errors.py and settings.py: records and enums
--   Policy        application/policy.py and text.py: Searchable has searchable_text and the price
--                 pattern, Rules has triage_message, pre_model_policy, validate_proposal and the rules
--                 of public text; Eligibility and PublicText say what policy lets through
--   Workflow      workflow/decisions.py, nodes.py, graph.py and state.py: Decisions builds each
--                 outcome, Graph has the nodes and the scheduler; Turn, Totality, Outcomes, Safety and
--                 Review say what a run does
--   Persistence   persistence/models.py and repositories.py: Rows has the tables, MessageOrder the
--                 order of message ids, Repository and Queue the operations; DueTime, Claims, Oldest and
--                 Superseding say what the queue promises
--   Outbound      application/outbound.py: Checks has the deterministic checks and the marks, Action
--                 the effects of the worker, Executor the worker; Posts, Conditions,
--                 Clearance and Retries say what it posts and how a row of the queue lives
--   Support       application/workflow.py: Recording is the service around the graph, Queueing and
--                 Idempotence say what it adds to the queue
--   Ingress       application/webhooks.py and security.py: State has the updates of a conversation,
--                 Webhooks the handler, Signature the authentication; Suppression, Events,
--                 Deliveries and Quiet say what a stored event achieves, and what starts no turn
--   Http          the answers of the HTTP library, which both clients read
--   Chatwoot      integrations/chatwoot.py: Payload, Messages and Events translate webhooks, Deliveries
--                 hands them to the handler, Responses and Client are the API client; Failures,
--                 Labels, Closed, Silence, Kinds, IntegerIds and Suppression say what they do
--   Catalog       catalog/store_api.py, catalog/mock.py, catalog/factory.py and
--                 domain/models/connectors.py: Values and Products map payloads to snapshots,
--                 StoreApi and Mock are the connectors, MockProducts reads the fixture, Connectors
--                 selects one; Prices, Searches, Limits, MockSearches and Capabilities say what they
--                 let through
--   Model         integrations/model.py: Prompt is the payload of the prompt, Fake and Generators
--                 are the fake and the OpenRouter generator; Privacy and Answers say what they
--                 show and answer
--   Golden        evals/golden.py: the run of a golden case, and what its flags do
--   Tests         concrete inputs and a run of each result on one of them
--
-- How the code corresponds to the definitions. A method keeps its name without the leading
-- underscore; its guards stand in the order of the source. A datetime is a number of microseconds in
-- UTC, a str is a list of code points, a table is a list of rows in the order of insertion. A query
-- is its result on that list, and a method of the repository takes the tables and returns them. The
-- worker's methods run in a world of tables, calls made so far and a tick counter; at every commit
-- and call, `others` may rewrite the tables as the rest of the system does meanwhile.
--
-- What stands outside and is a parameter: the Unicode tables of Python (Unicode, decimal), the model
-- provider (propose), the answers of the Chatwoot client (message_answer, safety_answer,
-- update_answer), the clock and the id source. The scheduler of LangGraph is modelled by its
-- documented contract: it merges updates, follows routes, and gives up after 25 steps. Five nodes
-- in a chain need five steps, so the limit is never met.
--
-- Not modelled: logging and traces, HTTP transport, the text of prompts, the command line,
-- database set-up, NOTIFY, and the row locks of PostgreSQL, for which a claim stands as
-- one step. A payload is a value of Prelude/Json, as the JSON parser gives it; the
-- keyed digest of the signature check, the digest of a payload, str() of a list or a dict, and the
-- readings of timestamps and of floats are parameters. A time before the epoch, and the values of
-- metadata that no modelled code reads, are left out. The service takes the answer of a connector as
-- a parameter, which Catalog/StoreApi fills.
pub mod Prelude
pub mod Http
pub mod Domain
pub mod Policy
pub mod Workflow
pub mod Persistence
pub mod Outbound
pub mod Support
pub mod Ingress
pub mod Chatwoot
pub mod Catalog
pub mod Model
pub mod Golden
mod Tests
