-- ===== src/Lib.antt =====
-- A verification library for the proactive agent, a worker that runs one conversational agent per
-- Discord guild. A bot writes notifications to Redis; the worker takes a guild's lease, claims the
-- pending notifications as a batch, runs a wake on it, and settles or retries the batch. A guild's
-- history lives in Redis and in the application's Postgres. Handlers fire on schedules.
--
-- Which file models what (paths from the repository's root):
--   Redis.antt: the Redis commands that the program relies on, over a parameter record of a database
--     with keys, expiry and a clock; Redis/Dict.antt is an instance, Redis/Laws.antt its lemmas.
--   Keys.antt, Contracts.antt: src/proactive_agent/keys.py and contracts.py. A key is a constructor.
--   Lease.antt: the acquire, renew and release scripts of src/proactive_agent/queue.py, and
--     GuildLease. Lease/Exclusive.antt runs them as steps of a fleet of workers.
--   Queue.antt: the claim and append scripts of queue.py. Queue/Streams.antt: its records and the
--     parameter `Streams`; Queue/Batch.antt: build_batch and drain_midrun; Queue/Settle.antt:
--     acknowledge, record_failure and dead letters.
--   History.antt: the scripts of src/proactive_agent/history.py. History/Repository.antt: class
--     GuildHistoryRepository; History/Writer.antt: class DebouncedHistoryWriter.
--   Worker.antt: a wake and a guild's lanes in src/proactive_agent/worker.py, over the queue; the
--     guild runtime is the interface `Runtime`, which also says what its drains have appended to the
--     batch in place.
--   Instructions.antt: class InstructionStore of src/proactive_agent/environment.py.
--   Channel.antt: class ChannelEnvironment of environment.py, without its rendering.
--   Runtime.antt: what class GuildRuntime of src/proactive_agent/runtime.py keeps of a guild's history,
--     `_sync_with_store` and `_load_history`.
--   Runtime/Dispatch.antt: `_dispatch` of runtime.py and class ActionJournal.
--   Text.antt: Python's text as code points. Conversation.antt: the edits and the compaction of a
--     conversation in src/proactive_agent/agent.py. Names.antt: its name matcher. Rewrite.antt: the
--     loops of privacy_compaction_summary and privacy_watch_decisions.
--   Lease/Fence.antt: PrivacyLock and `_acquire_fence` of src/proactive_agent/purge.py, and try_fence
--     of src/proactive_agent/idle.py. Idle.antt: class IdleHistoryCompactor.
--   Purge.antt: the stores, failures and outcomes of purge.py; Purge/History.antt: `_purge_history`;
--     Purge/Guild.antt: `_purge_fenced` and `_purge_guild`; Purge/Delivery.antt: from `handle` to
--     `_others_done_with`.
--   Transcript.antt: the speaker tags of src/proactive_agent/transcript.py. Reply.antt:
--     src/proactive_agent/response_fitting.py.
--   Blocked.antt: src/proactive_agent/blocked_users.py: the list, and the replicas' reports.
--   Schedule.antt: src/proactive_agent/handler_schedule.py.
-- Lemmas stand in child modules named for what they prove, and tests in modules called Tests.
--
-- How it is modelled: a script or a method takes the database and returns the new one beside its
-- result; a method that may raise returns a sum. Redis, its streams, the application's API and
-- Python's parsers are records of operations with their documented behaviour as laws, and the tests
-- instantiate each. Ids and checksums are numbers, times are whole seconds, milliseconds or
-- microseconds as the source counts them. A payload that does not parse is its own constructor, and
-- a notification that does not parse is not modelled. Numbers are unbounded as in Python. The member
-- of the idle index of a guild is a key of its own. Loops that retry are recursion on the number of
-- attempts that are left, with the source's number of attempts.
--
-- The messages of a conversation are pydantic-ai's; a part keeps what the edits look at. A run of the
-- model is a parameter that answers, times out or fails, and so is its summary. What of a purge fails
-- is a record of faults, one for each call. A loop that asks again, searches or divides runs on fuel:
-- the retries that are left and one, the text's length and one, and the number itself, and the
-- theorems about these loops show that it suffices. A wait with a deadline runs on the pauses left.
-- The one float, of `total_seconds`, is a double: a number of units, of which there are as many to a
-- second as its 53 bits leave. The digits of the seconds are counted on fuel 40: two instants are less
-- than 2 ^ 39 seconds apart.
--
-- Not modelled: the agent's tools and prompts, the HTTP clients and the process around them; of the
-- purge, its polling and heartbeat, its watch instructions and the discarding of what is queued, which
-- are an interface; of the idle compaction, its billing; of the runtime, the wake around the agent.
-- Scrubbing is a parameter.
pub mod Blocked
pub mod Channel
pub mod Contracts
pub mod Conversation
pub mod History
pub mod Idle
pub mod Instructions
pub mod Keys
pub mod Lease
pub mod Names
pub mod Prelude
pub mod Purge
pub mod Queue
pub mod Redis
pub mod Reply
pub mod Rewrite
pub mod Runtime
pub mod Schedule
pub mod Text
pub mod Transcript
pub mod Worker
