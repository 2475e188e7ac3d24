-- ===== src/Protocol/Envelope/Roundtrip.antt =====
-- Frames that one side packs are unpacked by the other, and the other way round.
use native.Mathlib.Nat.{mod-eq_of_lt}
use onlytwo.Base.{
  reads, length-take, ◌%◌, zero, suc, be32-of_be32, be64-of_be64, drop-reads, length-drop,
  take-append-drop, ℕ, ◌+◌, ◌≤◌, ◌<◌, ◌≡◌, refl, true, [], ◌∷◌, ◌++◌, ◌==◌, if◌then◌else◌, length,
  take, drop, Bytes, IsBytes, be32, be64, arith, ap, length-append, take-length_append,
  drop-length_append, get_or-append_right, of_be32-be32, of_be64-be64, ◌^◌, ◌↔◌, subst, ◌∙◌,
  drop-add, sym, suc,
}
use onlytwo.Config.Lanes.{control, text}
use onlytwo.Config.Profile.{TransportProfile}
use onlytwo.Protocol.Envelope.Checks.{
  both-false, ok-injective, pass, passed, ltb-false, false-ltb, ==-false, false-==, not-false,
}
use onlytwo.Protocol.Envelope.{
  Envelope, ok, prefix, pack_envelope, unpack_envelope, byte, get_uint32, get_big_uint64,
  handshake_type, is_outer_type,
}

-- The values that fit the fields of a frame, with the reserved flags clear.
pub record FitsFrame (env : Envelope) : Type 0 where
  pub version : env.protocol_version < 256
  pub clear : env.flags ≡ 0
  pub stream : env.stream_id < 2 ^ 32
  pub order : env.sequence < 2 ^ 32
  pub count : env.counter < 2 ^ 64
  pub size : length env.payload < 2 ^ 32

-- The frame that `pack_envelope` writes when it does not throw.
abbrev pub frame : Envelope → Bytes
frame env =
    prefix env.protocol_version env.outer_type env.flags env.stream_id env.sequence env.counter
    ++ (env.nonce ++ (be32 (length env.payload) ++ env.payload))

-- What `pack_envelope` checks.
pub record IsPackable (env : Envelope) (profile : TransportProfile) : Type 0 where
  pub nonce_length : length env.nonce ≡ 12
  pub same_version : env.protocol_version ≡ profile.protocol_version
  pub known_type : is_outer_type env.outer_type ≡ true
  pub bounded : 38 + length env.payload ≤ profile.max_frame_bytes

-- `pack_envelope` succeeds exactly on those, with that frame.
pub pack-frame :
    (env : Envelope) (profile : TransportProfile) (b : Bytes)
    → (pack_envelope env profile ≡ ok b) ↔ (IsPackable env profile × (b ≡ frame env))
unfolding pack_envelope
pack-frame env profile b = (λ h. ground arith, λ h. ground arith)

module _ (nonce rest : Bytes) (h : length nonce ≡ 12) where
  pub take-nonce : take 12 (nonce ++ rest) ≡ nonce
  take-nonce = subst (λ k. take k (nonce ++ rest) ≡ nonce) h (take-length_append nonce rest)

  drop-nonce : drop 12 (nonce ++ rest) ≡ rest
  drop-nonce = subst (λ k. drop k (nonce ++ rest) ≡ rest) h (drop-length_append nonce rest)

  byte-nonce : (i j : ℕ) → 12 + i ≡ j → byte (nonce ++ rest) j ≡ byte rest i
  byte-nonce i j e =
      let e' : length nonce + i ≡ j = omega arith in
      subst (λ k. byte (nonce ++ rest) k ≡ byte rest i) e' (get_or-append_right nonce rest i 0)

module _ (env : Envelope) (h : length env.nonce ≡ 12) where
  nonce-frame : take 12 (drop 22 (frame env)) ≡ env.nonce
  nonce-frame = take-nonce env.nonce (be32 (length env.payload) ++ env.payload) h

  payload-frame : drop 38 (frame env) ≡ env.payload
  payload-frame =
      drop-add 12 4 (env.nonce ++ (be32 (length env.payload) ++ env.payload))
      ∙ ap (drop 4) (drop-nonce env.nonce (be32 (length env.payload) ++ env.payload) h)

  length-frame : length (frame env) ≡ 38 + length env.payload
  length-frame =
      omega (arith, h, length-append env.nonce (be32 (length env.payload) ++ env.payload))

  size-frame : length env.payload < 2 ^ 32 → get_uint32 (frame env) 34 ≡ length env.payload
  size-frame s =
      let rest = be32 (length env.payload) ++ env.payload in
      omega (
        arith,
        of_be32-be32 (length env.payload) s,
        byte-nonce env.nonce rest h 0 12 refl,
        byte-nonce env.nonce rest h 1 13 refl,
        byte-nonce env.nonce rest h 2 14 refl,
        byte-nonce env.nonce rest h 3 15 refl,
      )

-- What `unpack_envelope` makes of the bytes that it accepts.
abbrev pub unpacked : Bytes → Envelope
unpacked bytes = record {
  context = record {
    protocol_version = byte bytes 2;
    outer_type = byte bytes 3;
    flags = byte bytes 4;
    stream_id = get_uint32 bytes 6;
    sequence = get_uint32 bytes 10;
  };
  counter = get_big_uint64 bytes 14;
  nonce = take 12 (drop 22 bytes);
  payload = drop 38 bytes;
  lane = if byte bytes 3 == handshake_type then control else text;
}

pub record IsUnpackable (b : Bytes) (profile : TransportProfile) : Type 0 where
  pub enough : 38 ≤ length b
  pub bounded : length b ≤ profile.max_frame_bytes
  pub magic : (byte b 0 ≡ 0x4f) × (byte b 1 ≡ 0x54)
  pub same_version : byte b 2 ≡ profile.protocol_version
  pub known_type : is_outer_type (byte b 3) ≡ true
  pub clear : byte b 4 ≡ 0
  pub header_length : byte b 5 ≡ 38
  pub exact : get_uint32 b 34 + 38 ≡ length b

-- `unpack_envelope` succeeds on those,
unpack_of_IsUnpackable :
    (b : Bytes) (profile : TransportProfile)
    → IsUnpackable b profile
    → unpack_envelope b profile ≡ ok (unpacked b)
unfolding unpack_envelope
unpack_of_IsUnpackable b profile v = pass _ _ _ (false-ltb _ _ v.enough) (
    pass _ _ _ (false-ltb _ _ v.bounded) (
      pass _ _ _ (ground arith) (
        pass _ _ _ (false-== _ _ v.same_version) (
          pass _ _ _ (rw v.known_type) (
            pass _ _ _ (false-== _ _ v.clear) (
              pass _ _ _ (false-== _ _ v.header_length)
                (pass _ _ _ (false-== _ _ v.exact) refl)))))))

-- and on no other bytes.
pub IsUnpackable-of_unpack :
    (b : Bytes) (profile : TransportProfile) (env : Envelope)
    → unpack_envelope b profile ≡ ok env
    → IsUnpackable b profile × (env ≡ unpacked b)
unfolding unpack_envelope
IsUnpackable-of_unpack b profile env h =
    let (c1, h1) = passed _ _ _ h in
    let (c2, h2) = passed _ _ _ h1 in
    let (c3, h3) = passed _ _ _ h2 in
    let (c4, h4) = passed _ _ _ h3 in
    let (c5, h5) = passed _ _ _ h4 in
    let (c6, h6) = passed _ _ _ h5 in
    let (c7, h7) = passed _ _ _ h6 in
    let (c8, h8) = passed _ _ _ h7 in
    (
      record {
        enough = ltb-false _ _ c1;
        bounded = ltb-false _ _ c2;
        magic = both-false _ _ _ _ c3;
        same_version = ==-false _ _ c4;
        known_type = not-false _ c5;
        clear = ==-false _ _ c6;
        header_length = ==-false _ _ c7;
        exact = ==-false _ _ c8;
      },
      sym (ok-injective h8),
    )

-- The lane that a received frame is given: its type decides, not the sender's lane.
abbrev pub received : Envelope → Envelope
received env = record env { lane = if env.outer_type == handshake_type then control else text }

is_outer_type-lt : (t : ℕ) → is_outer_type t ≡ true → t < 256
is_outer_type-lt t h = ground arith

frame-IsUnpackable :
    (env : Envelope) (profile : TransportProfile)
    → FitsFrame env
    → IsPackable env profile
    → IsUnpackable (frame env) profile
frame-IsUnpackable env profile f p =
    let l = length-frame env p.nonce_length in
    let t = is_outer_type-lt env.outer_type p.known_type in
    let same : env.outer_type % 256 ≡ env.outer_type = omega arith in
    record {
      enough = omega (arith, l);
      bounded = omega (arith, l);
      magic = (refl, refl);
      same_version = omega arith;
      known_type = rw same p.known_type;
      clear = omega arith;
      header_length = refl;
      exact = omega (arith, l, size-frame env p.nonce_length f.size);
    }

unpacked-frame :
    (env : Envelope) (profile : TransportProfile)
    → FitsFrame env
    → IsPackable env profile
    → unpacked (frame env) ≡ received env
unpacked-frame env profile f p =
    let t = is_outer_type-lt env.outer_type p.known_type in
    let type : env.outer_type % 256 ≡ env.outer_type = omega arith in
    let version : env.protocol_version % 256 ≡ env.protocol_version = omega arith in
    let flags : env.flags % 256 ≡ env.flags = omega arith in
    let stream = of_be32-be32 env.stream_id f.stream in
    let order = of_be32-be32 env.sequence f.order in
    let count = of_be64-be64 env.counter f.count in
    let nonce = nonce-frame env p.nonce_length in
    let payload = payload-frame env p.nonce_length in
    λ i. record {
      context = record {
        protocol_version = version i;
        outer_type = type i;
        flags = flags i;
        stream_id = stream i;
        sequence = order i;
      };
      counter = count i;
      nonce = nonce i;
      payload = payload i;
      lane = if type i == handshake_type then control else text;
    }

-- A frame packed from values that fit its fields, with no flag set, is unpacked to the same
-- envelope by a receiver with the same profile, except that the lane is the one that the frame's
-- type stands for.
pub unpack-pack :
    (env : Envelope) (profile : TransportProfile) (b : Bytes)
    → FitsFrame env
    → pack_envelope env profile ≡ ok b
    → unpack_envelope b profile ≡ ok (received env)
unpack-pack env profile b f h =
    let (p, e) = (pack-frame env profile b).0 h in
    rw e (
      unpack_of_IsUnpackable (frame env) profile (frame-IsUnpackable env profile f p)
      ∙ ap ok (unpacked-frame env profile f p))

byte-lt : (b : Bytes) (i : ℕ) → IsBytes b → byte b i < 256
byte-lt [] i h = omega arith
byte-lt (x ∷ xs) zero h = h.0
byte-lt (x ∷ xs) (suc i) h = byte-lt xs i h.1

words-unpacked :
    (b rest : Bytes)
    → IsBytes b
    → be32 (get_uint32 b 6) ++ (be32 (get_uint32 b 10) ++ (be64 (get_big_uint64 b 14) ++ rest))
      ≡ reads 16 6 b 0 ++ rest
words-unpacked b rest h =
    let lt = λ (i : ℕ). byte-lt b i h in
    let count =
      be64-of_be64 (byte b 14) (byte b 15) (byte b 16) (byte b 17) (byte b 18) (byte b 19)
        (byte b 20) (byte b 21) rest (lt 14) (lt 15) (lt 16) (lt 17) (lt 18) (lt 19) (lt 20)
        (lt 21) in
    let order =
      be32-of_be32 (byte b 10) (byte b 11) (byte b 12) (byte b 13) (reads 8 14 b 0 ++ rest) (lt 10)
        (lt 11) (lt 12) (lt 13) in
    let stream =
      be32-of_be32 (byte b 6) (byte b 7) (byte b 8) (byte b 9) (reads 12 10 b 0 ++ rest) (lt 6)
        (lt 7) (lt 8) (lt 9) in
    ap (λ (xs : Bytes). be32 (get_uint32 b 6) ++ (be32 (get_uint32 b 10) ++ xs)) count
    ∙ (ap (λ (xs : Bytes). be32 (get_uint32 b 6) ++ xs) order ∙ stream)

frame-unpacked :
    (b : Bytes) (profile : TransportProfile)
    → IsBytes b
    → IsUnpackable b profile
    → frame (unpacked b) ≡ b
frame-unpacked b profile h u =
    let lt = λ (i : ℕ). byte-lt b i h in
    let small : (i : ℕ) → byte b i % 256 ≡ byte b i = λ i. mod-eq_of_lt (lt i) in
    let tail = drop 22 b in
    let size : length (drop 38 b) ≡ get_uint32 b 34 =
      omega (arith, length-drop 38 b, u.exact, u.enough) in
    let body : be32 (length (drop 38 b)) ++ drop 38 b ≡ drop 34 b = rw size (
      be32-of_be32 (byte b 34) (byte b 35) (byte b 36) (byte b 37) (drop 38 b) (lt 34) (lt 35)
        (lt 36) (lt 37)
      ∙ sym (drop-reads 4 34 b 0 (omega (arith, u.enough)))) in
    let rest : take 12 tail ++ (be32 (length (drop 38 b)) ++ drop 38 b) ≡ tail =
      rw (body, drop-add 22 12 b) (take-append-drop 12 tail) in
    let head : frame (unpacked b) ≡ reads 22 0 b 0 ++ tail =
      (λ i.
        sym u.magic.0 i
        ∷ sym u.magic.1 i
        ∷ small 2 i
        ∷ small 3 i
        ∷ small 4 i
        ∷ sym u.header_length i
        ∷ (be32 (get_uint32 b 6)
            ++ (be32 (get_uint32 b 10) ++ (be64 (get_big_uint64 b 14) ++ rest i))))
      ∙ ap (λ (xs : Bytes). byte b 0 ∷ byte b 1 ∷ byte b 2 ∷ byte b 3 ∷ byte b 4 ∷ byte b 5 ∷ xs)
          (words-unpacked b tail h) in
    head ∙ sym (drop-reads 22 0 b 0 (omega (arith, u.enough)))

-- Bytes that `unpack_envelope` accepts are the very bytes that `pack_envelope` writes for the
-- envelope read from them: no frame has a second spelling.
pub pack-unpack :
    (b : Bytes) (profile : TransportProfile) (env : Envelope)
    → IsBytes b
    → unpack_envelope b profile ≡ ok env
    → pack_envelope env profile ≡ ok b
pack-unpack b profile env h k =
    let (u, e) = IsUnpackable-of_unpack b profile env k in
    let l = length-drop 38 b in
    rw e (
      (pack-frame (unpacked b) profile b).1 (
        record {
          nonce_length = omega (arith, u.enough, length-take 12 (drop 22 b), length-drop 22 b);
          same_version = u.same_version;
          known_type = u.known_type;
          bounded = omega (arith, u.enough, u.bounded, l);
        },
        sym (frame-unpacked b profile h u),
      ))
