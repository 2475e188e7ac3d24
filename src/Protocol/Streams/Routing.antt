-- ===== src/Protocol/Streams/Routing.antt =====
-- The streams tell the messages apart.
use Prim.Native.String.{String}
use onlytwo.Base.{ℕ, ◌≡◌, refl, true, false, arith}
use onlytwo.Protocol.Messages.{
  CoreAppMessage, session_verified, text_message, file_offer, file_accept, file_reject, file_chunk,
  file_ack, file_nack, file_pause, file_resume, file_cancel, file_complete, voice_start,
  voice_frame, voice_stop, AppMessage, core, reliable_msg, reliable_ack, reliable_nack,
  is_reliable_body,
}
use onlytwo.Protocol.Streams.{
  validate_inbound_stream, stream_for_lane, sent_app, lane_of, control_stream, text_stream,
  file_stream, voice_stream, is_text, is_control_channel, should_send_reliably, is_reliable_lane,
  channel_of, lane_of_channel,
}

-- What the client sends on the lane of a message, wrapped or not, arrives on a stream that takes it.
pub sent_accepted :
    (m : CoreAppMessage) (id : String) (created_at attempt : ℕ)
    → let (wire, lane) = sent_app m (lane_of m) id created_at attempt in
      validate_inbound_stream wire (stream_for_lane lane) ≡ true
unfolding validate_inbound_stream stream_for_lane sent_app control_stream text_stream file_stream
    voice_stream is_text is_control_channel should_send_reliably is_reliable_lane is_reliable_body
    channel_of lane_of_channel
sent_accepted (session_verified _) id t n = refl
sent_accepted (text_message _) id t n = refl
sent_accepted (file_offer _) id t n = refl
sent_accepted (file_accept _) id t n = refl
sent_accepted (file_reject _ _) id t n = refl
sent_accepted (file_chunk _) id t n = refl
sent_accepted (file_ack _ _) id t n = refl
sent_accepted (file_nack _ _ _) id t n = refl
sent_accepted (file_pause _ _) id t n = refl
sent_accepted (file_resume _) id t n = refl
sent_accepted (file_cancel _ _) id t n = refl
sent_accepted (file_complete _ _) id t n = refl
sent_accepted (voice_start _) id t n = refl
sent_accepted (voice_frame _) id t n = refl
sent_accepted (voice_stop _) id t n = refl

-- A message is accepted on one stream at most.
pub stream_unique :
    (m : AppMessage) (s t : ℕ)
    → validate_inbound_stream m s ≡ true
    → validate_inbound_stream m t ≡ true
    → s ≡ t
unfolding validate_inbound_stream control_stream text_stream file_stream voice_stream
stream_unique (core (file_chunk _)) s t h k = ground arith
stream_unique (core (file_ack _ _)) s t h k = ground arith
stream_unique (core (file_nack _ _ _)) s t h k = ground arith
stream_unique (core (voice_frame _)) s t h k = ground arith
stream_unique (core _) s t h k = ground arith
stream_unique (reliable_msg m) s t h k = ground arith
stream_unique (reliable_ack _) s t h k = ground arith
stream_unique (reliable_nack _ _) s t h k = ground arith

-- A message that the peer has not wrapped for acknowledgement is accepted, on whatever stream, only
-- if it is of a kind that is never wrapped.
pub bare_never_reliable :
    (m : CoreAppMessage) (s : ℕ)
    → validate_inbound_stream (core m) s ≡ true
    → is_reliable_body m ≡ false
unfolding validate_inbound_stream control_stream text_stream file_stream voice_stream
    is_reliable_body
bare_never_reliable (file_chunk _) s h = refl
bare_never_reliable (file_ack _ _) s h = refl
bare_never_reliable (file_nack _ _ _) s h = refl
bare_never_reliable (voice_frame _) s h = refl
bare_never_reliable _ s h = ground arith
