-- ===== src/Lib.antt =====
-- The orchestrator turns a request into a plan of steps over Gmail, Google Calendar, Google Drive and
-- a search of the indexed workspace, runs the plan, and asks the user before it writes anything.
--
-- The classifier (app/orchestration/classifier.py) has a language model read the intent of a request,
-- and the planner (app/orchestration/planner.py) has it make a plan, which it brings in line with the
-- intent. A plan (app/schemas/contracts.py) is checked as a graph when it is made, and by the registry
-- (app/orchestration/registry.py), which knows the operations of each service and checks the arguments
-- of a step against the catalog (app/orchestration/operation_specs.py). The executor
-- (app/orchestration/executor.py) runs the steps in waves, replaces references to earlier results in
-- the arguments, stores an approval for a step that writes, and calls the agents for the others. The
-- endpoints of app/api/routes/approvals.py decide on what waits, and call the agent of an approved
-- action. The agent of app/agents/workspace.py searches the index (app/retrieval/search.py), which the
-- tasks of app/workers/tasks.py keep up to date, and falls back on the agents of the services.
--
-- The files:
--   Contracts/Types        the models of app/schemas/contracts.py, and the exceptions
--   Contracts/Graph        ExecutionPlan.validate_graph, visit, _find_step_references
--   Specs                  app/orchestration/operation_specs.py: the catalog, the checks of single
--                          values, and validate_operation_arguments
--   Registry               AgentRegistry of app/orchestration/registry.py
--   References             _resolve_references of app/orchestration/executor.py
--   Database               the rows of app/db/models.py that are written, and a session over them
--   Executor               DAGExecutor: Wave is one round of its loop, Run the loop and the end
--   Approvals              approve_action and reject_action
--   Patterns               the regular expressions of the planner and the classifier
--   Planner                app/orchestration/planner.py: Requests is what it reads off a request,
--                          Arguments _canonical_arguments, and Routing _route_contextual_retrieval
--   Classifier             app/orchestration/classifier.py; Policy is _apply_clarification_policy
--   Compaction             app/orchestration/compaction.py
--   Synthesis              app/orchestration/synthesis.py; Grounded is grounded_response
--   Preview                _sanitized_approval_preview and the lists of the response in
--                          app/api/routes/query.py
--   Search                 app/retrieval/search.py: Cache is what the process keeps, Embedding
--                          _query_embedding_with_metadata, Index the search; and Relevance is
--                          app/retrieval/relevance.py
--   Freshness              app/retrieval/freshness.py
--   Chunking               app/retrieval/chunking.py
--   Agents                 WorkspaceSearchAgent of app/agents/workspace.py; Query is the text that it
--                          searches for, Native the fallback, and Asked the calls that this makes
--   Workers                the lock of _sync_user in app/workers/tasks.py
--   Sync                   sync_service of app/sync/service.py, and its loops over pages; Recovery is
--                          one synchronization, and History a series of them
--   Json, Text, Dict       the values of Python that the code works on
--   Prelude                tests, lists and results over the native numbers
--
-- How the code is read. A JSON object is a list of fields in its order. A call that may raise returns
-- a result with the exception as a value. An action of the executor or of an endpoint is a function of
-- a world: a database session, which is what the transaction sees and what is committed, and the log
-- of the calls of agents. An exception leaves the world as it is at that point, and the session of a
-- request is rolled back (app/db/session.py).
--
-- Parameters. The agents are a function of the number of a call and of the call, which may raise. Also
-- parameters are: the readers of ISO-8601 times, the local text of a time, which raises where there is
-- no such time zone, and the addition of minutes, which may overflow; the digits of Unicode, the text of an identifier or
-- of a value, and the tables of letters; the language model that reads a request, makes a plan and
-- words a response; the pages of a service that is copied; the model of embeddings, the store of
-- Redis, the selection of rows by the database, and the arithmetic of floating-point numbers.
-- Identifiers of rows and values of locks are numbers that count up. The calls of asyncio.gather are
-- made in the order of the tasks; what they do to each other is not modelled. What other tasks do to
-- the caches of embeddings while one waits for the lock of its query is a function of the caches.
--
-- Fuel. The search of validate_graph has one more than the number of steps, since each open step is
-- another one; the loop of the executor has the number of steps, since each wave settles at least one.
-- The planner tries one name more for a new step than there are names in use. The loop of chunk_text
-- has as many rounds as the text has characters, which is enough where each chunk starts behind the
-- one before. A download has as many rounds as it is given, which is enough where the pages come to an
-- end.
--
-- Not modelled: the calls of Google, of the language model, of Redis and of the database, the web
-- framework and its sign-in, and the text of most error messages. The database never fails here: the
-- bounds and constraints of columns are not modelled, so a step identifier of more than 128 characters
-- is stored, where the table refuses it. A validator of a model's single fields (a name's length,
-- unique dependencies) is not part of the graph check.
mod Prelude
pub mod Dict
pub mod Json
pub mod Text
pub mod Classifier
pub mod Contracts
pub mod References
pub mod Specs
pub mod Registry
pub mod Database
pub mod Executor
pub mod Approvals
pub mod Compaction
pub mod Freshness
pub mod Planner
pub mod Search
pub mod Preview
pub mod Patterns
pub mod Sync
pub mod Synthesis
pub mod Workers
pub mod Chunking
pub mod Agents
