-- ===== src/Protocol/Envelope/Header.antt =====
-- What the associated data of an encrypted frame binds.
use onlytwo.Base.{
  of_be32-be32, of_be64-be64, drop, be32, ◌^◌, ◌∙◌, ◌++◌, take, length, ◌<◌, ◌≡◌, ap, sym, arith, ℕ,
  Bytes,
}
use onlytwo.Config.Profile.{TransportProfile}
use onlytwo.Protocol.Envelope.{
  byte, get_uint32, get_big_uint64, AadContext, Envelope, ok, prefix, create_aad_context,
  encode_aad, pack_envelope,
}
use onlytwo.Protocol.Envelope.Checks.{pass, passed, ==-false, false-==, ok-injective}
use onlytwo.Protocol.Envelope.Roundtrip.{pack-frame, take-nonce}

pub encode_aad_lem :
    (c : AadContext) (counter : ℕ) (nonce b : Bytes)
    → encode_aad c counter nonce ≡ ok b
    → (length nonce ≡ 12)
      × (b ≡ prefix c.protocol_version c.outer_type c.flags c.stream_id c.sequence counter ++ nonce)
unfolding encode_aad
encode_aad_lem c counter nonce b h =
    let (l, e) = passed _ _ _ h in (==-false _ _ l, sym (ok-injective e))

-- The associated data that the receiver computes from a frame's envelope is the frame itself up to
-- its payload length: every header field and the nonce are authenticated.
pub encode_aad-pack :
    (env : Envelope) (profile : TransportProfile) (b : Bytes)
    → pack_envelope env profile ≡ ok b
    → encode_aad (create_aad_context env.context profile) env.counter env.nonce ≡ ok (take 34 b)
unfolding encode_aad create_aad_context
encode_aad-pack env profile b h =
    let (p, e) = (pack-frame env profile b).0 h in
    let rest = be32 (length env.payload) ++ env.payload in
    let header = λ (version : ℕ) (xs : Bytes).
      prefix version env.outer_type env.flags env.stream_id env.sequence env.counter ++ xs in
    pass _ _ _ (false-== _ _ p.nonce_length) (
      ap ok (
        ap (λ v. header v env.nonce) (sym p.same_version)
        ∙ (ap (header env.protocol_version) (sym (take-nonce env.nonce rest p.nonce_length))
            ∙ ap (take 34) (sym e))))

-- The values that fit the fields of a header.
pub record FitsHeader (c : AadContext) (counter : ℕ) : Type 0 where
  pub version : c.protocol_version < 256
  pub type : c.outer_type < 256
  pub flags : c.flags < 256
  pub stream : c.stream_id < 2 ^ 32
  pub order : c.sequence < 2 ^ 32
  pub count : counter < 2 ^ 64

-- Two headers that fit and have the same associated data are the same, nonce and counter included.
pub encode_aad-injective :
    (c d : AadContext) (m n : ℕ) (x y b : Bytes)
    → FitsHeader c m
    → FitsHeader d n
    → encode_aad c m x ≡ ok b
    → encode_aad d n y ≡ ok b
    → (c ≡ d) × (m ≡ n) × (x ≡ y)
encode_aad-injective c d m n x y b f g h k =
    let e = sym (encode_aad_lem c m x b h).1 ∙ (encode_aad_lem d n y b k).1 in
    let version : c.protocol_version ≡ d.protocol_version =
      omega (arith, ap (λ b. byte b 2) e, f.version, g.version) in
    let type : c.outer_type ≡ d.outer_type = omega (arith, ap (λ b. byte b 3) e, f.type, g.type) in
    let flags : c.flags ≡ d.flags = omega (arith, ap (λ b. byte b 4) e, f.flags, g.flags) in
    let stream : c.stream_id ≡ d.stream_id =
      sym (of_be32-be32 c.stream_id f.stream)
      ∙ (ap (λ b. get_uint32 b 6) e ∙ of_be32-be32 d.stream_id g.stream) in
    let order : c.sequence ≡ d.sequence =
      sym (of_be32-be32 c.sequence f.order)
      ∙ (ap (λ b. get_uint32 b 10) e ∙ of_be32-be32 d.sequence g.order) in
    let count : m ≡ n =
      sym (of_be64-be64 m f.count) ∙ (ap (λ b. get_big_uint64 b 14) e ∙ of_be64-be64 n g.count) in
    (
      λ i. record {
        protocol_version = version i;
        outer_type = type i;
        flags = flags i;
        stream_id = stream i;
        sequence = order i;
      },
      count,
      ap (drop 22) e,
    )
