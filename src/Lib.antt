-- ===== src/Lib.antt =====
-- Verification of the banking agent's core: the durable approval of a paused tool call, the tool node
-- of the agent graph with its validation, authorization and idempotency, the synthetic banking
-- repository, the role and tenant policies, the routing policy, the circuit breaker, plans with their
-- validation and execution, the runs of the agent, the migrations of its database, the memory and
-- the threads of conversations, the audit chain, the agent and approval endpoints with the rate
-- limit, and the verification of OIDC tokens.
--
-- How the program fits together. A model proposes tool calls. The tool node of
-- src/fxfill_banking_agent/graph.py validates each against the tool registry, asks the
-- authorization gateway, and calls the MCP server, with a record in the idempotency table. A call
-- that needs a human suspends the graph; a session and a grant are stored for it, and an operator
-- approves or rejects it through the approval executor, which claims the grant and calls the MCP
-- server with the arguments that the grant stored. The endpoints of api.py store the session and the
-- grant, and resume the graph after the operator's verdict. Before the graph, the runtime of agent.py
-- sends a message on the route of its intent: a direct tool call, a plan, an answer without tools, a
-- transfer workflow, or the graph.
--
-- Files (each with child modules named for what they prove, and Tests with runs and instances):
--   Common        names of the libraries, tests on numbers and texts, lists
--   Sql           what the stores use of SQLite: SELECT, conditional UPDATE, INSERT, keys
--   Hitl          src/fxfill_banking_agent/hitl_store.py: HITLSession, SqliteHITLStore
--   Idempotency   src/fxfill_banking_agent/idempotency_store.py: SqliteIdempotencyStore
--   Grants        src/fxfill_banking_agent/grant_repo.py: GrantRecord, GrantRepository
--   Approval      src/fxfill_banking_agent/approval_executor.py: HITLApprovalExecutor.approve and
--                 reject; State has the tables and environment (events of persistence.py, calls of
--                 mcp_client.py), Actor has actor_resolver.py
--   Tools         src/fxfill_banking_agent/tools/models.py and registry.py; Validation has
--                 tools/validation.py
--   Auth          src/fxfill_banking_agent/auth.py: the policies and AuthorizationGateway
--   Graph         src/fxfill_banking_agent/graph.py: _tool_node, _classify_tool_kind,
--                 _kind_from_metadata; State has its state, environment and the classification, Loop
--                 the agent node and the run of the whole graph
--   Banking       src/fxfill_banking_agent/banking/repository.py: BankingRepository; Models has
--                 banking/models.py, Reads the reads of the repository
--   Iam           src/fxfill_banking_agent/iam.py and security/authorization.py
--   Reliability   src/fxfill_banking_agent/reliability.py: CircuitBreaker
--   Routing       src/fxfill_banking_agent/routing/intent.py and routing/policies.py: the route table
--   Orchestration src/fxfill_banking_agent/orchestration: models.py; Search and Validator have
--                 validator.py, Executor has executor.py and verifier.py, Planner has planner.py and
--                 _execute_planner of agent.py
--   Agent         src/fxfill_banking_agent/agent.py: Direct has _execute_direct, Run has run,
--                 _execute_rag and _execute_transfer_workflow; Resumption has
--                 src/fxfill_banking_agent/resume_service.py: GraphResumeService
--   Db            src/fxfill_banking_agent/db.py: init_database and its migrations
--   Dict          what the stores in memory use of Python's dict
--   Memory        src/fxfill_banking_agent/memory/models.py and memory/store.py
--   Audit         src/fxfill_banking_agent/audit/models.py: AuditEvent, build_evidence_bundle
--   Conversations src/fxfill_banking_agent/conversation_service.py: ThreadService
--   Api           src/fxfill_banking_agent/api.py: the agent endpoint, the approval endpoint with
--                 AgentRuntime.resume of agent.py, and RateLimitMiddleware
--   Oidc          src/fxfill_banking_agent/security/oidc.py: OIDCVerifier
--   Samples       concrete rows and environments for the Tests modules
--
-- How the state is modelled. A table is the list of its rows in insertion order, a statement a
-- function on it; statements are atomic, as SQLite commits each, so concurrent workers are a
-- sequence of statements. A handler takes the whole state and returns it with its answer. Errors
-- are values; an exception that leaves a handler is a constructor of its outcome. Times are numbers
-- (microseconds; ISO texts of one format sort as the times do), and `now i` is the i-th reading of
-- the clock in a call. A dict of tool arguments stands for its canonical JSON text,
-- `json.dumps(..., sort_keys=True)`, on which the code compares and hashes it.
--
-- Parameters. SHA-256, `json.loads`, `str.lower` and `str.strip`, the order in which a set is
-- visited, PyJWT and the request of its key set, the replies of the language model, the intent
-- classifier, the MCP server, the resolved actor and the clock are fields of an environment or
-- arguments; float amounts and their operations are the record Money. Where a theorem needs more of
-- them (a digest without collisions, arguments that read back as themselves, a visit of a set that
-- has its elements, a PyJWT client that is no key) its statement says so.
--
-- Loops. All recursion is structural, with two exceptions on fuel. The search for circular
-- dependencies takes one more than the number of steps as the depth of its recursion, and a theorem
-- says that this is never reached. The run of the graph takes LangGraph's recursion limit, which is
-- an outcome of its own, and a theorem says which limit is enough.
--
-- Not modelled: the rest of the HTTP layer (api.py's probes, threads and audit listing,
-- auth_middleware.py, server.py), the providers of the language model, LangGraph's own checkpointing, wiring and configuration, the PostgreSQL backend, logging,
-- telemetry and metrics, the wrappers of the banking tools,
-- governance, the patterns of the intent classifier, and the demonstrations of retrieval, evaluation
-- and operations. Texts that only explain a decision, and the times at which decisions enter the
-- audit trail, are left out.
pub mod Common
pub mod Sql
pub mod Hitl
pub mod Idempotency
pub mod Grants
pub mod Approval
pub mod Tools
pub mod Auth
pub mod Graph
pub mod Banking
pub mod Iam
pub mod Reliability
pub mod Routing
pub mod Orchestration
pub mod Agent
pub mod Db
pub mod Dict
pub mod Memory
pub mod Audit
pub mod Conversations
pub mod Api
pub mod Oidc
mod Samples
