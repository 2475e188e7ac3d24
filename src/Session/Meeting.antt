-- ===== src/Session/Meeting.antt =====
-- The controller with its worker (client/src/crypto/CryptoClient.ts, whose requests are answered in
-- order and in time): how it takes a peer's handshake from the frame to its end.
pub mod Stages
pub mod Fits
pub mod Agree
pub mod Tests
use onlytwo.Base.{ℕ, suc, zero, some, List, [], ◌∷◌, if◌then◌else◌}
use onlytwo.Config.Profile.{TransportProfile}
use onlytwo.Protocol.Envelope.{Envelope}
use onlytwo.Crypto.Worker.{Worker, Reply, ok, err}
use onlytwo.Crypto.Worker.Session.{ConfigRequest, configure, establish_session}
use onlytwo.Session.{Session}
use onlytwo.Session.Calls.{
  Host, Call, Answer, Task, Turn, Outside, crypto_configure, crypto_establish_session,
}
use onlytwo.Session.Handshake.{on_handshake}
use onlytwo.Session.Resume.{resume}
use onlytwo.Session.System.{is_idle}

-- `CryptoClient.configure`.
abbrev pub config_request : TransportProfile → ConfigRequest
config_request profile = record {
  padding_buckets = some profile.padding_buckets;
  max_skipped_message_keys = some profile.max_skipped_message_keys;
  protocol_version = some profile.protocol_version;
}

abbrev pub answered : {A : Type 0} → Reply A → Answer
answered (ok a) = Answer.done
answered (err e) = Answer.fails "Crypto request failed"

module _ (h : Host) where
  -- What the worker makes of the calls of a turn, and how the last of them ends.
  unfoldable pub perform : List Call → Answer → Worker → Answer × Worker
  perform [] answer w = (answer, w)
  perform (crypto_configure profile ∷ cs) answer w =
      perform cs Answer.done (configure w (config_request profile))
  perform (crypto_establish_session peer hash ∷ cs) answer w =
      let (reply, after) = establish_session h.platform w peer hash in
      perform cs (answered reply) after
  perform (_ ∷ cs) answer w = perform cs answer w

  -- The turns up to the end of the task, at most `n` of them after this one.
  unfoldable pub drive : Outside → ℕ → Turn → Worker → Session × Worker
  drive o zero t w = (t.after, w)
  drive o (suc n) t w =
      let (answer, after) = perform t.calls Answer.done w in
      if is_idle t.task
      then (t.after, after)
      else drive o n (resume h o t.task answer t.after) after

  -- A handshake frame has four turns after the first at most.
  unfoldable pub receive_handshake : Outside → Session → Worker → Envelope → Session × Worker
  receive_handshake o s w env = drive o 4 (on_handshake h s.secure_epoch env s) w
