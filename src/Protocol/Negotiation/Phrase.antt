-- ===== src/Protocol/Negotiation/Phrase.antt =====
-- The safety phrase is one for both sides.
use Prim.Native.String.{String}
use onlytwo.Base.{◌≡◌, Bytes}
use onlytwo.Config.Profile.{TransportProfile}
use onlytwo.Crypto.Platform.{Platform}
use onlytwo.Protocol.Json.{Fields}
use onlytwo.Utils.Hex.{bytes_to_hex, ordered_comm}
use onlytwo.Protocol.Negotiation.{PhraseInput, material, verification_phrase}

-- What the other side computes its phrase from: the two keys change places.
abbrev pub mirrored : PhraseInput → PhraseInput
mirrored i = record i { local_public_key = i.peer_public_key; peer_public_key = i.local_public_key }

module _ (p : Platform) (profile_text : TransportProfile → String) where
  material-mirrored :
      (i : PhraseInput) → material p profile_text (mirrored i) ≡ material p profile_text i
  unfolding material
  material-mirrored i =
      let e = ordered_comm (bytes_to_hex i.peer_public_key) (bytes_to_hex i.local_public_key) in
      rw e

  -- Both sides compute the same safety phrase: it does not change when the local and the peer's public
  -- key change places.
  pub phrase_agrees :
      (json_bytes : Fields → Bytes) (i : PhraseInput)
      → verification_phrase p profile_text json_bytes (mirrored i)
        ≡ verification_phrase p profile_text json_bytes i
  unfolding verification_phrase
  phrase_agrees json_bytes i = rw (material-mirrored i)
