-- ===== src/Lib.antt =====
-- The verification library of gesta-agent, the endpoint daemon of Gesta: it models the durable event
-- queue of pkg/eventqueue, through which every event passes on its way to the control plane, the
-- accounting of tokens of pkg/daemon, whose deltas are such events, the command rules of pkg/policy,
-- the context rules of pkg/contextmatch, and the names of tools, the sums of outputs and the kinds of
-- files that turns are described by.
--
-- The agent's collectors and hooks append events to a bbolt database; the daemon's loop drains it in
-- batches to the control plane, and moves aside what the control plane rejects for good. Several
-- processes append at once, and one of them drains.
--
-- Files and code:
--   Model.antt                the event of pkg/model/types.go
--   Bolt.antt                 the records `Bolt` and `EventJson`: bbolt and encoding/json, parameters
--                             with the documented behaviour that the code relies on
--   Queue/Codec.antt          pkg/eventqueue/queue_codec.go: encodeUint64, queueTimeKey,
--                             deliveredTimeKey, encodeQueuedEvent and their decoders
--   Queue/Database.antt       the eight buckets and the counters: nextQueueSequence,
--                             incrementQueueMeta, queueMetaInt64
--   Queue/Store.antt          insertQueuedEvent and deleteQueuedEvent of queue_store.go,
--                             queue_index.go
--   Queue/Retention.antt      queue_retention.go: pruneExpired, evictOverCapacity,
--                             pruneDeliveredEventIDs
--   Queue/Append.antt         open, AppendWithStats and Stats of queue.go
--   Queue/Drain.antt          Drain of queue.go, drainWatermark, nextDrainBatch, acknowledge,
--                             quarantineRejectedEvents of queue_quarantine.go
--   Queue/Consistent.antt     the invariant of the database; its child modules are about insertion,
--                             deletion, pruning, eviction, opening and the backfill of the index
--   Queue/Delivery.antt       its child modules are about AppendWithStats and Drain
--   Policy.antt               pkg/policy/policy.go: the scope of a rule, its decision and risk score,
--                             and applyRuleMatches; Commands.antt has guardedCommandForms and
--                             unwrapCommandPrefix, Evaluate.antt EvaluateCommandWithRules, and
--                             Verdict.antt, Blocked.antt and Unwrapped.antt are about them
--   ContextMatch.antt         pkg/contextmatch/matcher.go: Match, and in Validation.antt ValidateRules;
--                             `compile` stands for regexp
--   McpMeta.antt              pkg/mcpmeta: the names of servers and tools; Parts.antt is about them
--   Receipt.antt              pkg/turnreceipt/types.go: the summaries of outputs; Sums.antt is about
--                             their sums
--   Classifier.antt           pkg/toolinput/classifier.go: NewClassifier and classifyPath; Clean.antt
--                             is about the suffixes
--   Payload.antt              the readers of an event's payload in pkg/daemon
--   Usage/Observation.antt    usageObservationFromEvent and calculateUsageTokenDelta of
--                             pkg/daemon/usage_delta.go
--   Usage/Delta.antt          BuildUsageDeltaEvents of usage_delta.go; Polls.antt and Seen.antt are
--                             about several polls of several sessions, Reported.antt about what a
--                             delta reports
--   Usage/Claude.antt         pkg/daemon/claude_usage_types.go; Sums.antt is about sums of usages
--   Usage/Merge.antt          mergeClaudeSessionsByID of claude_transcript_merge.go, and the merges of
--                             invocations, turns and tool calls; Kept.antt, Held.antt, Invocations.antt,
--                             Totals.antt and Sessions.antt are about them
--   Usage/Fork.antt           prepareClaudeForkAccounting of claude_fork_accounting.go, with the
--                             marks; Owner.antt has the occurrences and their owners, Offset.antt what a
--                             session does not count, Order.antt is about the ranks, Marks.antt
--                             about the turns that a round leaves to a session
--   Go.antt                   the record `Go`: SHA-256, random bytes and the forms of times,
--                             parameters; the identifiers of pkg/util/id.go
--   Bytes, Strings, SortedMap byte strings and their order, sorted association lists
--   Int64, Assoc, Sorting     the int64 of Go with its wrap-around, maps from strings, stable sorts
--
-- A transaction is a function from the database to a result with the database that it leaves; on an
-- error the caller keeps the old one, as bbolt rolls back. A time is the number of nanoseconds since
-- the zero time of Go, and UnixNano wraps as an int64 does. Counters are kept as the bit patterns of
-- an int64. The clock is read once in a call. The time before which events expire stops at the zero
-- time. The texts of an event are valid UTF-8, and its payload is read back from its record as
-- encoding/json reads it. What the control plane answers, what other processes append meanwhile and
-- what the clock shows then is the parameter `send` of the drain.
--
-- The loops of Retention read the first key of an index anew in each turn. They run on fuel, one
-- more than the index has keys; each turn removes the key that it has read, so that they never run
-- out. The drain runs on one more than there are events when the watermark is chosen; `unfinished`
-- would say that this was too little. The unwrapping of a command runs on one turn for each word.
--
-- Not modelled: the locks of files, permissions, the closing of the database, the statistics of the
-- former queue file, the partial statistics that come with an error, the texts of errors. TrimSpace
-- and ToLower are modelled for ASCII. Runes are counted in valid UTF-8. The redacted preview of a
-- command is an argument. Of the accounting of tokens, the files that keep the cursors and the
-- accounts, the default for a zero time of observation, numbers of a payload that are kept as
-- json.Number, the messages of a transcript, the evidence of a turn, and that a round of the
-- accounting of forks which changes nothing has no commit are not modelled; a time before the zero
-- time counts as the zero time.
mod Prelude
pub mod Bytes
pub mod Strings
pub mod SortedMap
pub mod Int64
pub mod Assoc
pub mod Sorting
pub mod Model
pub mod Go
pub mod Payload
pub mod Usage
pub mod Bolt
pub mod Queue
pub mod Policy
pub mod McpMeta
pub mod Receipt
pub mod Classifier
pub mod ContextMatch
pub mod Tests
