-- ===== src/Protocol/Messages/Tests.antt =====
-- Messages at concrete inputs.
use onlytwo.Base.{◌≡◌, refl, none, some, arith}
use onlytwo.Protocol.Json.{get, utf16_length, field, string, no_fields}
use onlytwo.Protocol.Messages.{
  AppMessage, reliable_msg, file_offer, app_fields, FileOffer, is_reliable_body,
}
use onlytwo.Protocol.Reliable
use onlytwo.Protocol.Messages.Decode.{decode_app, decode_app_kind, decode_core_kind}
use onlytwo.Protocol.Messages.Fit.{FitsSha256, FitsCore, FitsApp}
use onlytwo.Protocol.Messages.Sound.{decode_app-Fits}
use onlytwo.Protocol.Messages.Roundtrip.{decode_app-app_fields}

abbrev offer : FileOffer
offer = record {
  file_id = "file_1";
  name = "notes.txt";
  mime = "text/plain";
  size = 40000;
  chunk_size = 32768;
  total_chunks = 2;
  sha256 = none;
}

abbrev wrapped : AppMessage
wrapped = reliable_msg (record {
  id = "r1";
  channel = Reliable.control;
  body = file_offer offer;
  created_at = 1000;
  attempt = 1;
})

offer-FitsCore : FitsCore (file_offer offer)
unfolding FitsCore FitsSha256 utf16_length
offer-FitsCore = (
  record { some_text = omega arith; short = omega arith },
  record { some_text = omega arith; short = omega arith },
  omega arith,
  record { at_least = omega arith; safe = omega arith },
  record { at_least = omega arith; safe = omega arith },
  record { at_least = omega arith; safe = omega arith },
  tt,
)

wrapped-FitsApp : FitsApp wrapped
unfolding FitsApp is_reliable_body utf16_length
wrapped-FitsApp = (
  record { some_text = omega arith; short = omega arith },
  refl,
  offer-FitsCore,
  omega arith,
  record { at_least = omega arith; safe = omega arith },
)

-- An object of an unknown kind is refused.
refused : decode_app 5 (field "kind" (string "file.delete") no_fields) ≡ none
unfolding decode_app decode_app_kind decode_core_kind get
refused = refl

decode_app-app_fields_example : decode_app 5 (app_fields wrapped) ≡ some wrapped
decode_app-app_fields_example = decode_app-app_fields 5 wrapped wrapped-FitsApp

decode_app-Fits_example : FitsApp wrapped
decode_app-Fits_example =
    decode_app-Fits 5 (app_fields wrapped) wrapped (omega arith) decode_app-app_fields_example
