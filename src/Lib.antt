-- ===== src/Lib.antt =====
-- The Python worker of the PHP-Python AI bridge. A PHP application submits jobs to a small HTTP
-- service (worker/ai_bridge/server.py), which validates them (worker/ai_bridge/tasks.py) and
-- hands them to a job store (worker/ai_bridge/jobs.py). The store keeps a bounded table of jobs,
-- a pool of child processes that run one job each, and a SQLite copy of the table; a coordinator
-- thread reads what the children send, ends jobs past their deadline and gives queued jobs to
-- idle children. Aggregates go to histograms (worker/ai_bridge/metrics.py).
--
-- Base holds tests on numbers and strings, lists, dictionaries as association lists, and sorting.
-- Json has the values that payloads and results hold. Metrics has the histograms.
--
-- Jobs is worker/ai_bridge/jobs.py. Jobs/Types has the state: `JobStore`'s fields are those of
-- `Store`, of which `Book` is the table of jobs with its aggregates. Jobs/Table is the dictionary
-- `_jobs`, a list in the order of insertion keyed by each job's id, and Jobs/Db the SQLite table.
-- Jobs/Finish has `_finish`, `_abort`, `_start_failed` and `_retire`; Jobs/Submit `_expire`,
-- `_retry_after` and `_accept`; Jobs/Dispatch `_attach`, `_dispatch` and `_send`; Jobs/Listen
-- `_drain_message` and `_drain`; Jobs/Service `get`, `cancel`, `drain`, `busy`, `readiness`, a
-- round of `_coordinate`, `_replenish`, `_reap` and `close`, of which Jobs/Drain and Jobs/Close
-- show more; Jobs/Open has the store that `__init__` and `_open_db` make of an earlier run's
-- table. Jobs/Steps is the abstract view of the table as a step relation; the files named Trace
-- show what steps each operation takes, and Jobs/Invariants, Jobs/Keys, Jobs/Limits and
-- Jobs/Final are about the steps. Jobs/Reach puts the critical sections of the store together
-- with what children do, in any order.
--
-- Jobs/Request has `submit` with the checks of its arguments, Jobs/Snapshot `snapshot`, and
-- Jobs/Series which series of the metrics exist.
--
-- Server is worker/ai_bridge/server.py. Server/Routes has the paths and the job ids, Server/Http
-- what a handler has to work with and what it replies, and Server/Handler the whole of a request
-- over the store: `parse_request`, `_authorized`, `_body`, `do_GET` and `do_POST`. Its child
-- modules are about who is recognised (Auth), which reply a request gets (Replies), and whose
-- jobs are shown (Shown and Owners). A reply whose JSON cannot be encoded raises, as in the
-- source. Server/Tokens has `check_tokens`, `_entries`, `_read_tokens_file` and `resolve_tokens`.
-- Server/Head is `_Head`, the reader of a connection, with `readline` and `read` in
-- Server/Head/Readline. Server/Busy is `_BusyDrain` and Server/Slots the connections around it,
-- `process_request` and the end of a request's thread. Server/Stop is the stop: the signal
-- handler, the drain thread and `server_close` as steps in any order. Log is
-- worker/ai_bridge/log.py: the events, the keys of their lines, and `JsonFormatter.format`.
--
-- Tasks is worker/ai_bridge/tasks.py: Tasks/Validate has `validate`, Tasks/Redact `_merge` and
-- the text of `_redact`, Tasks/Rerank the progress reports and the ranking of `execute`,
-- Tasks/Luhn `_luhn`, and Tasks/Cards `_card_ranges` and `_cards`, and Tasks/Ibans `_iban` and
-- the loop of `_ibans`.
--
-- Mcp is mcp_server/bridge_mcp, the side of the MCP server, which submits jobs over the service's
-- protocol. Mcp/Protocol is the client of protocol.py: `_request` behind the HTTP library,
-- `_job`, `submit`, `get`, `cancel` and `health`, and the service's answer to a submission as the
-- client reads it; Mcp/Run is its wait for a job. Mcp/Index is index.py: Mcp/Index/Chunks has
-- `chunk_text`, Mcp/Index/Batches `_batches`, Mcp/Index/Guard the guards on a sidecar's bytes,
-- Mcp/Index/Format `write_index`, Mcp/Index/Load `load_index`, Mcp/Index/Build `build`, from the
-- texts of files to an index, and Mcp/Index/Cache `IndexCache`. Mcp/Tools is tools.py:
-- Mcp/Tools/Replies has `_rankings`, `_vectors` and `_spans`, and the worker's results as they
-- take them, Mcp/Tools/Texts `_check_texts` and the request of `bridge_rerank`, Mcp/Tools/Call
-- the wait of `run` for a worker at capacity, and Mcp/Tools/Search `search` of index.py with
-- `bridge_search`, from the scores of the chunks to the hits.
--
-- Samples has tests and examples.
--
-- Conventions. JSON's encoder and decoder, digests and the arithmetic of floats are arguments of
-- the MCP server's functions. A method of the store takes the store and gives the next one; an
-- operation under the lock is one function, so that a history is a sequence of them. Times are
-- whole milliseconds, and each critical section reads each clock once. `Env` carries what the
-- world answers within a section: the clocks, whether SQLite can write, the next uuid4. Job
-- objects are referred to by id; children are numbered, with a heap of their state. Scores of
-- spans are in units of 0.0001, and the median of run times is kept doubled, so both are whole
-- numbers. Fuel appears in `dispatch_loop` and in `wait`: each round of the first takes one of
-- the jobs that wait, so their number is enough, and the second has ended once its deadline has
-- passed at a turn within the fuel. `line_loop` and `read_loop` take a byte at each turn but the
-- last, so the bytes to come are enough, and `cards_loop` moves past a group at each turn but the
-- last, so the groups are; `trim` takes a space off, so the characters are. `chunk_loop` moves
-- its start forward at each turn, so one turn for each position is enough; and `run_loop` waits
-- 125 milliseconds at least or up to the last second of the call, so the call's time bounds its
-- turns.
--
-- A request comes with what the standard library makes of it: the method, the headers, and what
-- becomes of the body. Connections are numbered, each a new one, and what the system answers
-- about them (a send, a selector, a thread that starts) is an argument. A tokens file is its
-- mode, size and lines.
--
-- Not modelled: the standard library's HTTP parser and the bytes of a reply, the queue and the
-- thread behind the log, the start of `main`, the text of the metrics page, the models and
-- regular expressions (what they find is an argument), a child's own program (what it sends is an
-- event), and waits for processes to exit. `close` is no step of a history. Of the MCP server:
-- the SDK, the reading of files of documents and the collection of files, snippets, and the
-- checks of `_embed`; the order of messages among checks that all refuse an index. Left for
-- later: the finders of addresses and phone numbers, and the spans of a model.
pub mod Base
pub mod Json
pub mod Metrics
pub mod Jobs
pub mod Tasks
pub mod Server
pub mod Log
pub mod Mcp
pub mod Samples
