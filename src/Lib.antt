-- ===== src/Lib.antt =====
-- NonStopTalk is a party game in which players speak on drawn topics for as long as a turn lasts.
-- A browser talks to a server that keeps one room per game. This library models the server's room
-- core, cloudflare/game.ts, the browser's setup kits, cloudflare/public/setup-kits.js, which a
-- host saves, loads and sends to a room as settings and topics, the practice loops of the
-- browser's speech coach, cloudflare/public/coach-loop.js, the database in which the coach keeps
-- sessions and recordings, cloudflare/public/coach-storage.js, the choice of a microphone,
-- cloudflare/public/microphone-selection.js, the sound cues, cloudflare/public/sound-cues.js, the
-- client for the copies of summaries on the server, cloudflare/public/cloud-progress.js, and the
-- milestones that a room reports, from its queue in cloudflare/room-milestone-outbox.ts, over the
-- alarm of cloudflare/worker.ts, to the receiver in cloudflare/room-milestone-receiver.ts.
--
-- The parts and their files are as follows.
-- Prelude: the native numbers, lists and options that the rest shares, the counting of list
--   members, and number lemmas.
-- Text, Js: texts as lists of code points in which a lone surrogate is a number of its range,
--   trimming and toWellFormed; the values that a request may carry, and the functions text,
--   integer and clamp of cloudflare/game.ts that read them. A number is an integer, a fraction of
--   which the truncation is kept, infinite, or not a number.
-- Room: RoomState, GameError, a request's circumstances (token, time, tokens online, random
--   numbers) and the look-ups. A handler is a function from a room to an outcome, which has the
--   room also when the handler throws, so that what was mutated before a throw is seen.
-- Room/Packs, Room/Names: TOPIC_PACKS, cleanName, cleanTopics, cleanActionTopics.
-- Room/Deck: shuffleDeck, drawTopic, validDeck, resetDeck.
-- Room/TurnIds: repairNextTurn, nextTurnId.
-- Room/Seats: addPlayer, joinRoom, and the cases add-player, rename-player, move-player, remove-
--   player and leave.
-- Room/Setup: the cases settings, apply-setup-kit and custom-topics, and the topic generation
--   number.
-- Room/Turns: the cases start-turn, begin-turn, redraw-turn and submit-turn, and advance.
-- Room/Games: the cases start-game, reset and score, standings and archiveFinishedGame.
-- Room/Host: the cases transfer-host and claim-host, and setHostOnline, and
--   refreshHTTPHostPresence of cloudflare/worker.ts.
-- Room/Actions: applyAction and createRoomState. Room/Life: any sequence of the calls that
--   cloudflare/worker.ts makes on a room: an action, a join, a draft number, a change of the
--   host's sockets, and a poll of the host over HTTP. Room/View: publicRoomState.
-- SetupKits: the errors and limits; SetupKits/Topics: parseTopicText, serializeTopicText,
--   readTopicTextFile; SetupKits/Kits: normalizeSetupKit; SetupKits/Store: createSetupKitStore
--   over a Storage, whose entry and whose next failures are state.
-- Coach/Loop: createPracticeLoop, createRetryState, relationshipForSummary and
--   normalizeAttemptRelationship, on values as they come from storage.
-- Coach/Storage: the records and the policy of coach-storage.js. Coach/Storage/Reconcile:
--   reconcileArtifactState over the three stores. Coach/Storage/Sessions: saveCoachingSession,
--   readCoachingSummaries, readCoachingSummary, readCoachingArtifact,
--   readCoachingProgressSnapshot, deleteCoachingArtifacts and clearCoachingSummaries. The requests
--   of one transaction are put together, and a transaction completes with all that they wrote, or
--   ends with an error and none of it, as IndexedDB promises.
-- Microphone: the checks of device ids, device lists and constraints. Microphone/Selection:
--   createMicrophoneSelection, with its preference and its lists, where an asynchronous operation
--   is a function for its beginning and one for each await that settles, so that any calls may
--   come between.
-- SoundCues: createSoundCues in the same way. An audio context is a number, and a tone that sounds
--   is an entry of a list.
-- CloudProgress: mergeCoachingSummaries and createCloudProgressClient, with its preference and the
--   loop of list over the pages that a server gives.
-- Milestones: the milestones' names and the values of a payload. Milestones/Contract:
--   encodeRoomMilestonePayloadV1 and decodeRoomMilestonePayloadV1. Milestones/Outbox: the queue's
--   tables and enqueueRoomMilestones. Milestones/Retries: acknowledgeRoomMilestone,
--   recordRoomMilestoneRetry, the dead letters, their purge and the next alarm;
--   Milestones/Retries/Steps: any sequence of these calls. Milestones/Receiver:
--   receiveRoomMilestone, one function for each SQL statement of its batch. Milestones/Delivery:
--   alarm and its finalisers, which read the queue, call the receiver and settle the milestone. An
--   SQL table is a list of rows, a CHECK or a checked integer is a test, and an exception is none,
--   after which a transaction leaves its tables as they were.
--
-- Numbers are naturals, and a turn counter is compared with the largest safe integer as the source
-- does. One loop runs on fuel, that of CloudProgress.list, one unit for a request; 5000 are enough
-- if no page but the last is empty. Every other loop is over a list or down from a number. Times
-- are in milliseconds, and the clock may run backwards, which the subtractions write out.
--
-- The parameters are random numbers (a choice below a bound), random event ids, SHA-256 and HMAC,
-- dates, SQLite's sums of reals, String(value) and the values on which it throws a TypeError,
-- toLowerCase, localeCompare, JSON, the UTF-8 length of a stored envelope, and a server's replies.
-- Of a fraction the source asks only its truncation.
--
-- What is not modelled is the worker's HTTP, sockets, and its storage but for the alarm, the
-- creation of the outbox's tables, the platform API and its database, the model provider, the
-- coach's measures and comparisons, the opening and the migrations of its database,
-- sanitizeCloudSummary, whose numbers may be fractions, audio streams and the audio graph, the
-- rest of the browser application, the Go server, and the scripts.
pub mod Prelude
pub mod Text
pub mod Js
pub mod Room
pub mod SetupKits
pub mod Coach
pub mod Microphone
pub mod SoundCues
pub mod CloudProgress
pub mod Milestones
