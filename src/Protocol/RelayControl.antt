-- ===== src/Protocol/RelayControl.antt =====
-- client/src/protocol/relayControl.ts: the relay's four-byte frames.
pub mod Tests
use onlytwo.Base.{
  ℕ, ◌≡◌, ◌≤◌, ◌↔◌, refl, Bool, true, false, ◌||◌, not, Option, none, some, [], ◌∷◌, ltb, ◌==◌,
  if◌then◌else◌, length, Bytes, arith, ap, ◌∙◌,
}
use onlytwo.Config.Profile.{TransportProfile}
use onlytwo.Protocol.Envelope
use onlytwo.Protocol.Envelope.{unpack_envelope}
use onlytwo.Protocol.Envelope.Roundtrip.{IsUnpackable-of_unpack}

pub data RelayEvent : Type 0 where
  peer_present peer_disconnected peer_rejoined session_ended : RelayEvent

pub encode : ℕ → Bytes
encode type = 0x4f ∷ 0x52 ∷ 1 ∷ type ∷ []

pub encode_session_end_command : Bytes
unfolding encode
encode_session_end_command = encode 4

pub decode_type : Bytes → Option ℕ
decode_type (a ∷ b ∷ version ∷ type ∷ []) =
    if not (a == 0x4f) || not (b == 0x52) || not (version == 1)
    then none
    else if ltb type 1 || ltb 5 type
    then none
    else some type
decode_type _ = none

event_of : Option ℕ → Option RelayEvent
event_of none = none
event_of (some type) =
    if type == 1
    then some peer_present
    else if type == 2
    then some peer_disconnected
    else if type == 3
    then some peer_rejoined
    else if type == 5
    then some session_ended
    else none

pub decode_relay_event : Bytes → Option RelayEvent
unfolding event_of
decode_relay_event bytes = event_of (decode_type bytes)

is_type : Option ℕ → Bool
is_type none = false
is_type (some _) = true

pub is_relay_control_frame : Bytes → Bool
unfolding is_type
is_relay_control_frame bytes = is_type (decode_type bytes)

decode_type-long : (b : Bytes) → 38 ≤ length b → decode_type b ≡ none
unfolding decode_type
decode_type-long [] h = refl
decode_type-long (a ∷ []) h = refl
decode_type-long (a ∷ b ∷ []) h = refl
decode_type-long (a ∷ b ∷ c ∷ []) h = refl
decode_type-long (a ∷ b ∷ c ∷ d ∷ []) h = absurd (omega arith)
decode_type-long (a ∷ b ∷ c ∷ d ∷ e ∷ rest) h = refl

-- Bytes that `unpack_envelope` accepts are not a relay control frame and decode to no relay event.
pub unpacked_never_control :
    (b : Bytes) (profile : TransportProfile) (env : Envelope.Envelope)
    → unpack_envelope b profile ≡ Envelope.ok env
    → (is_relay_control_frame b ≡ false) × (decode_relay_event b ≡ none)
unfolding is_relay_control_frame decode_relay_event
unpacked_never_control b profile env h =
    let (u, _) = IsUnpackable-of_unpack b profile env h in
    let long = decode_type-long b u.enough in (ap is_type long, ap event_of long)
