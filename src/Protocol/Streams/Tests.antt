-- ===== src/Protocol/Streams/Tests.antt =====
-- Messages on their streams.
use onlytwo.Base.{◌≡◌, refl, true}
use onlytwo.Protocol.Messages.{core, file_ack, file_resume}
use onlytwo.Protocol.Streams.{
  validate_inbound_stream, stream_for_lane, sent_app, lane_of, control_stream,
}
use onlytwo.Protocol.Streams.Routing.{sent_accepted}

sent_accepted_example :
    let (wire, lane) = sent_app (file_resume "f1") (lane_of (file_resume "f1")) "r1" 10 1 in
    validate_inbound_stream wire (stream_for_lane lane) ≡ true
sent_accepted_example = sent_accepted (file_resume "f1") "r1" 10 1

ack_on_1 : validate_inbound_stream (core (file_ack "f1" 0)) 1 ≡ true
unfolding validate_inbound_stream control_stream
ack_on_1 = refl
