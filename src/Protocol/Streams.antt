-- ===== src/Protocol/Streams.antt =====
-- client/src/protocol/streams.ts, `shouldSendReliably` of client/src/protocol/reliable.ts and
-- `streamForLane` of client/src/crypto/SecureChannel.ts: which message goes on which stream.
pub mod Routing
pub mod Tests
use Prim.Native.String.{String}
use onlytwo.Base.{ℕ, ◌≡◌, refl, Bool, true, false, ◌&&◌, ◌||◌, not, ◌==◌, if◌then◌else◌, arith}
use onlytwo.Config.Lanes.{Lane, control, text, file, voice}
use onlytwo.Protocol.Messages.{
  CoreAppMessage, text_message, file_chunk, file_ack, file_nack, voice_frame, ReliableMsg,
  AppMessage, core, reliable_msg, reliable_ack, reliable_nack, is_reliable_body,
}
use onlytwo.Protocol.Reliable.{ReliableChannelName}
use onlytwo.Protocol.Reliable

is_text : CoreAppMessage → Bool
is_text (text_message _) = true
is_text _ = false

is_control_channel : ReliableChannelName → Bool
is_control_channel Reliable.control = true
is_control_channel Reliable.text = false

control_stream : AppMessage → Bool
unfolding is_text is_control_channel
control_stream (reliable_ack _) = true
control_stream (reliable_nack _ _) = true
control_stream (core (file_ack _ _)) = true
control_stream (core (file_nack _ _ _)) = true
control_stream (core _) = false
control_stream (reliable_msg m) = is_control_channel m.channel && not (is_text m.body)

text_stream : AppMessage → Bool
unfolding is_text is_control_channel
text_stream (reliable_msg m) = not (is_control_channel m.channel) && is_text m.body
text_stream _ = false

file_stream : AppMessage → Bool
file_stream (core (file_chunk _)) = true
file_stream _ = false

voice_stream : AppMessage → Bool
voice_stream (core (voice_frame _)) = true
voice_stream _ = false

-- `validateInboundStream`: false where it throws.
pub validate_inbound_stream : AppMessage → ℕ → Bool
unfolding control_stream text_stream file_stream voice_stream
validate_inbound_stream m stream_id =
    if stream_id == 1
    then control_stream m
    else if stream_id == 2
    then text_stream m
    else if stream_id == 3
    then file_stream m
    else if stream_id == 4
    then voice_stream m
    else false

unfoldable pub stream_for_lane : Lane → ℕ
stream_for_lane control = 1
stream_for_lane text = 2
stream_for_lane file = 3
stream_for_lane voice = 4

is_reliable_lane : Lane → Bool
is_reliable_lane control = true
is_reliable_lane text = true
is_reliable_lane file = false
is_reliable_lane voice = false

-- `shouldSendReliably`
pub should_send_reliably : AppMessage → Lane → Bool
unfolding is_reliable_lane
should_send_reliably (core m) lane = is_reliable_body m && is_reliable_lane lane
should_send_reliably _ lane = false

-- `sendApp` of client/src/session/SessionController.ts: what reaches `sendRawApp`, and on which
-- lane, with the id, the time and the attempt that the reliable channel puts in.
pub channel_of : Lane → ReliableChannelName
channel_of text = Reliable.text
channel_of _ = Reliable.control

pub lane_of_channel : ReliableChannelName → Lane
lane_of_channel Reliable.control = control
lane_of_channel Reliable.text = text

pub sent_app : CoreAppMessage → Lane → String → ℕ → ℕ → AppMessage × Lane
sent_app m lane id created_at attempt =
    if should_send_reliably (core m) lane
    then (
      reliable_msg (record {
        id = id;
        channel = channel_of lane;
        body = m;
        created_at = created_at;
        attempt = attempt;
      }),
      lane_of_channel (channel_of lane),
    )
    else (core m, lane)

-- The lane that the callers of `sendApp` and `sendRawApp` give for each kind of message: texts in
-- `sendText`, chunks in `sendChunk`, voice frames from the session's queue, and `control` for all else.
abbrev pub lane_of : CoreAppMessage → Lane
lane_of (text_message _) = text
lane_of (file_chunk _) = file
lane_of (voice_frame _) = voice
lane_of _ = control
