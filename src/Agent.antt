-- ===== src/Agent.antt =====
-- agent.py: AgentRuntime. A run takes the route of the message's intent: a tool that is called
-- directly, a plan, an answer from knowledge, a refusal, the transfer workflow, or the graph. The
-- classifier, the replies of the language model, and the reader of the extracted arguments
-- (`_extract_json_block` and `json.loads`, `none` where one raises) are parameters.
pub mod Direct
pub mod Run
pub mod Resumption
pub mod Identity
mod Tests
