-- ===== src/Lib.antt =====
-- OnlyTwo: a two-party encrypted messenger. A browser client (client/src) talks to its peer over a
-- relay that only forwards frames. What is verified here is the client's own logic.
--
-- A message travels from the application through client/src/crypto/cryptoWorker.ts, which pads and
-- encrypts it, client/src/protocol/envelope.ts, which writes the frame around it, and
-- client/src/transport/PacketScheduler.ts, which queues the frame by lane until the socket takes
-- it; the receiver unpacks the frame and hands it to its worker. A profile of
-- client/src/config/profiles.ts gives all of them their limits.
--
-- Base: helpers; lists, tests on numbers, and big-endian words (Base/Endian).
-- Config: client/src/config/profiles.ts. Config/Lanes has the lanes, their budgets and the records
--   with one entry per lane (`Record<LaneName, _>`), Config/Profile the profile's type, Config/Table
--   the four profiles and `getProfile`. `profileHashInput` is `JSON.stringify` and is left out.
-- Transport/Scheduler: the class `PacketScheduler`. Its private fields are the record `Scheduler`;
--   `enqueue`, `next`, `setProfile`, `clear`, `clearVolatile` and `snapshot` are functions of that
--   name on it. The `while` loop of `enqueue` is recursion on the lane's packets, each round of
--   which drops the first, so no fuel is needed. The byte counters are subtracted on the natural
--   numbers, which stop at 0 where the source would go below it; by the accounting invariant this
--   does not happen.
-- Transport/Reconnect: the opening and reopening of the socket in
--   client/src/transport/WebSocketConnection.ts; the socket's callbacks and the timer are events, in any
--   order. `send`, `drain` and the metrics of that class are left out.
-- Protocol/Envelope: `packEnvelope`, `unpackEnvelope`, `encodeAad`. Bytes are numbers, and the
--   writers reduce each value to its field as `DataView` does.
-- Protocol/Reliable: client/src/protocol/reliable.ts, the class `ReliableChannel`. The timers and the
--   promise of the send callback are steps of their own, in any order; message bodies are of any type.
--   `receive` is one step: inbound messages are handled one after the other, and that it awaits the
--   sending of the ack is not modelled. Reliable/Counts counts the copies among the events.
-- Protocol/RelayControl: client/src/protocol/relayControl.ts, the relay's own four-byte frames.
-- Protocol/Json, Protocol/Messages: client/src/utils/safeJson.ts and
--   client/src/protocol/appMessages.ts, between messages and the objects of `JSON.parse` and
--   `JSON.stringify`, which are not modelled, no more than UTF-8 is. Lengths are counted in UTF-16
--   units. Messages/Decode has `decodeAppMessage`, Messages/Fit the bounds of each field.
-- Protocol/Handshake: the handshake message of the same file.
-- Protocol/Negotiation: client/src/protocol/negotiation.ts, the profile's hash and the safety phrase;
--   Utils/Hex has `bytesToHex` and the order of texts.
-- Protocol/Streams: client/src/protocol/streams.ts, with `streamForLane`, `shouldSendReliably` and
--   `sendApp`, which choose the stream on the other side.
-- Files/Receiver: client/src/features/file/FileReceiver.ts, the class `FileReceiver`, with
--   `chunk` and `complete` in Files/Receiver/Chunks. Each operation runs to its end before the next.
--   The base64url and digest routines, `validateFilename` and `formatBytes` are parameters (`Tools`).
-- Files/Sender: client/src/features/file/FileSender.ts, the class `FileSender`. Sender/Inflight is the
--   map `inflight`, Sender/Chunks one chunk's way (`sendChunk`, `scheduleRetry`, `fail`), Sender/Pump
--   the window (`pump`, `completeIfDone`, `resumeOutstanding`), Sender/Operations and Sender/Calls the
--   methods. A method is cut where it awaits: what comes after is an operation of its own, and
--   Sender/Reachable has every sequence of calls, answers and timers under one profile. The loop of
--   `pump` has a round for each chunk that is left, which Sender/Full shows to be enough.
-- Files/Delivery: the two classes together.
-- Audio/VoiceQueue: client/src/features/audio/VoiceQueue.ts, `VoiceFreshnessQueue`; `now()` is an
--   argument of its operations, and limits are whole numbers.
-- Audio/JitterBuffer: client/src/features/audio/JitterBuffer.ts, `JitterBuffer`, with a function of
--   the frame in place of the field `seq`. Its map is the list of its frames, each of which has its own
--   key; the loop of `push` is given as many rounds as there are frames, which JitterBuffer/Order shows
--   to be enough.
-- Audio/VadGate: client/src/features/audio/VadGate.ts, `VadGate`; the level of a frame, computed in
--   floating point, and the order of levels are parameters.
-- Crypto: the worker. Crypto/Platform is what it takes from the browser, WebCrypto and
--   `TextEncoder`, as a parameter with documented laws; Crypto/Padding has the padding buckets
--   and the quota of `crypto.getRandomValues`,
--   Crypto/Worker the module state (`Worker`), `deriveStep`, `cacheSkipped`, `encryptBinary` and
--   `decryptBinary`, Worker/Session identities, `establishSession`, `CONFIGURE` and `handle`, and
--   Worker/Agreement what two workers agree on. The loop over skipped counters is recursion on their number. Crypto/Toy is a
--   platform for tests. A `Map` is an association list in insertion order. `toBytes` and
--   `toCounter` convert what arrives as a message; requests are taken as converted. Zeroing of
--   buffers is not modelled, since no key is read after it.
-- Crypto/Channel: client/src/crypto/SecureChannel.ts, the class `SecureChannel`, over the worker; the
--   bytes of a JSON object are parameters. Channel/Carried takes a message through the channel, the
--   frame and the worker, and back.
-- Session: client/src/session/SessionController.ts, with the types of client/src/session/types.ts. Its
--   fields are the record `Session`, `state` the record `SessionViewState`. An async method is cut at its
--   awaits: each part is a turn, which gives the session after it, the calls of other objects in
--   order, and the task that waits (Session/Calls). Session/Lifecycle has `disconnect` and
--   `prepareFreshCryptoEpoch`, Session/Handshake `sendHandshake` and `handleHandshake`, Session/Resume
--   `createRoom`, `joinRoom`, `start` and the events of the transport, Session/System all of them with
--   their tasks. Answers, and whether the transport takes a packet, come from outside, in any way.
--   Session/Transfers has the views of transfers, Session/Inbox `handleAppMessage`, Session/Actions
--   what the user does. Session/Meeting has two sessions with their workers; a handshake frame is
--   taken through four turns after its first, which Meeting/Stages shows to be enough. The queues of
--   voice frames, and the sending and receiving of data packets, are left out.
--
-- Not modelled: sockets, the requests of rooms by `fetch`, workers' messages, WebAudio and the DOM.
pub mod Base
pub mod Config
pub mod Transport
pub mod Session
pub mod Utils
pub mod Protocol
pub mod Crypto
pub mod Audio
pub mod Files
