-- ===== src/Lib.antt =====
-- A verification of the core of the Peko agent, an LLM agent in Rust that runs on Android devices.
--
-- The program takes a task, asks a language model what to do, runs the tools that the model calls,
-- gives the results back, and repeats this until the model answers, the budget is spent or a user
-- interrupts. Tasks come from a user, from the scheduler's cron expressions, or from background
-- jobs that survive a restart, and from the agent's own life loop, whose proposals a user may approve.
--
-- Parts, and the files that model them (paths of the repository under crates/):
--   Base, Text        Booleans, lists, results; Rust's strings as lists of characters, with the
--                     lengths and slices in bytes of UTF-8.
--   Cron              peko-core/src/cron.rs: `parse` is CronExpr::parse, Cron/Field.antt parse_field
--                     and parse_range, Cron/Sentence.antt describe.
--   Budget            peko-core/src/budget.rs.
--   Message           peko-core/src/message.rs: the messages and their estimated tokens.
--   Compressor        peko-core/src/compressor.rs.
--   Stream            peko-transport/src/stream.rs, and how run_task gathers a stream;
--                     Stream/Deltas.antt is parse_openai_delta of peko-transport/src/openai_compat.rs.
--   Sse, Chain        peko-transport/src/sse.rs, the parser of server-sent events, and chain.rs, the
--                     fallback over providers.
--   Brain             peko-core/src/brain.rs: which model a task goes to.
--   Tools             peko-core/src/tool.rs: the registry of tools.
--   Runtime           run_task of peko-core/src/runtime.rs. Runtime/Prompt.antt builds the prompt,
--                     Runtime/Calls.antt executes the calls of one answer, Runtime/Rounds.antt is the
--                     loop. It uses Budget, Compressor, Stream, Brain and Tools as the code does.
--   Turn              run_turn of the same file, the loop of a conversation with a client, which gets
--                     its events; Turn/Rounds.antt is the loop. The task queue runs every task by it.
--   Wire              what goes to a provider and comes back: to_transport_messages of
--                     peko-core/src/message.rs, peko-transport/src/provider.rs, to_openai_message of
--                     openai_compat.rs; Wire/Anthropic.antt is parse_event of anthropic.rs, and
--                     Wire/Documented.antt the format that it reads.
--   Notebook          peko-core/src/notebook.rs: the notes of the agent's second brain, their slugs
--                     (Notebook/Slug.antt) and the links between them (Notebook/Links.antt).
--   Plan              peko-tools-android/src/plan_tool.rs: plans are notes. Plan/Words.antt is the test
--                     of a plan's body, Plan/Content.antt its texts, and Plan/Marker.antt how
--                     ../src/telegram/bot.rs reads a plan's marker and the data of its buttons.
--   Scheduler         peko-core/src/scheduler.rs: it parses with Cron and runs tasks by a runtime.
--   Queue             peko-core/src/task_queue.rs: the status, the callers that wait, the channel and
--                     the executor. Queue/Steps.antt is the step relation of callers and executor.
--   Motivation        peko-core/src/motivation.rs: the drives, their events, decay and suggestion.
--   Life              peko-core/src/life_loop.rs: the rate limiter and the token budget.
--                     Life/Curiosity.antt is curiosity.rs, Life/Proposals.antt the proposals and the
--                     handle on them, Life/Tick.antt the tick, which asks Queue whether it is idle, and
--                     Life/Approval.antt the handlers of ../src/web/api.rs.
--   Background        peko-core/src/background.rs: the job store. Background/Writes.antt has the two
--                     halves of an operation, in memory and in the catalog, and
--                     Background/Catalog.antt the steps of operations that run at the same time;
--                     Background/Checkpoint.antt is what a resumed task starts from,
--                     Background/Resuming.antt what a restart does.
--
-- State is passed explicitly. In Runtime everything outside the loop (the session database, the
-- tools' effects, the clock, an interrupt from another task) is a type W of worlds, and the record
-- Agent holds what the loop calls as functions, so that a theorem about run_task holds for every
-- model, tool set and store. JSON is the record Json. An error is `err`, a panic is `none` or the
-- outcome `panicked`.
--
-- Numbers are natural numbers. The step of a cron field wraps at 2^32, the counter of a budget at
-- 2^64; token counts and lengths are taken not to overflow. One unit of fuel of `rounds` is one
-- round of the loop: at most one handover gives the budget back, so that two rounds for each
-- iteration and two more are enough. The fuel of a step field in Cron is the maximum and two more,
-- that of the loop of `feed` in Sse one more than the length of the text. In Turn no handover takes
-- place, so that one round for each iteration and one more are enough; the loop over the links of a
-- note in Notebook has the length of the note.
--
-- A tick of the life loop takes its locks one after the other. What the handlers of other tasks do
-- before each lock is a list of operations, one list per lock, and each lock reads its own time, so
-- that a theorem about ticks holds for every interleaving. In Queue each step is one update under
-- the status lock, or one send or receive; a panic of a task ends the executor, which is so only in
-- a build that unwinds (the release profile aborts the process). In Background/Catalog.antt the
-- statements about one job reach the catalog in the order of their changes in memory, which the two
-- locks of the code make likely but do not enforce; Background/Operations.antt takes each operation
-- as a whole.
--
-- Not modelled: the text of log lines, f32 arithmetic (the operations are a record of functions, in
-- Compressor a function from the context size, in Brain a comparison for the success rate of a
-- skill), the schemas of the tools, the retries of a lock, failing writes of the job catalog,
-- waiting for a job, and the SQL of queries that only read. A check of the scheduler reads the
-- clock once. The HTTP requests and the JSON reader and writer are functions of the model, as are
-- the tables of Unicode beyond ASCII. Nor are the builders of providers from the configuration, the
-- stores of memories and skills, the reflections and goals, the tools of the device and the rest of
-- the front ends, which are I/O, SQL, f32 arithmetic or callers of the parts above.
pub mod Base
pub mod Text
pub mod Cron
pub mod Budget
pub mod Message
pub mod Compressor
pub mod Stream
pub mod Brain
pub mod Tools
pub mod Runtime
pub mod Motivation
pub mod Wire
pub mod Notebook
pub mod Plan
pub mod Turn
pub mod Queue
pub mod Scheduler
pub mod Background
pub mod Sse
pub mod Chain
pub mod Life
pub mod Tests
