-- ===== src/Crypto/Worker/Tests.antt =====
-- Runs of the crypto worker on the toy platform, and its theorems at concrete inputs.
use onlytwo.Base.{
  length, ◌≢◌, ℕ, ◌≡◌, refl, true, some, none, inl, [], ◌∷◌, replicate, Bytes, arith,
  length-replicate,
}
use onlytwo.Protocol.Envelope.{AadContext, encode_aad}
use onlytwo.Crypto.Toy.{toy, toy-IsPlatform}
use onlytwo.Crypto.Padding.{
  parse_plaintext, build_plaintext, draw, select_padding_bucket, first_bucket, sort_numbers,
  insert_number, includes, plaintext_length,
}
use onlytwo.Crypto.Worker.{
  Worker, EncryptRequest, DecryptRequest, Encrypted, ok, err, decryption_failed, decrypt_binary,
  encrypt_binary, derive_step, decrypt_checked, decrypt_with, decrypt_ahead, skip_keys,
  open_payload, cache_get,
}
use onlytwo.Crypto.Worker.Replay.{IsOrderly, IsAccepted, no_replay, decrypt_all}
use onlytwo.Crypto.Worker.Chain.{IsSynced, chain_at, decrypt-IsSynced}
use onlytwo.Crypto.Worker.Delivery.{IsSending, deliver, request_of}
use onlytwo.Crypto.Worker.Agreement.{session_agrees}
use onlytwo.Crypto.Worker.Session.{compare_bytes, establish_session}
use onlytwo.Crypto.Worker.Quota.{large_never_sealed}
use onlytwo.Config.Table.{balanced_profile}
use onlytwo.Crypto.Worker.Forgery.{replay_after_forgery, second_key}

abbrev pub header : AadContext
header = record { protocol_version = 2; outer_type = 2; flags = 0; stream_id = 2; sequence = 1 }

-- Both directions stand at the start of one chain.
abbrev pub fresh : Worker
fresh = record {
  config = record {
    padding_buckets = 16 ∷ [];
    max_skipped_message_keys = 32;
    protocol_version = 2;
  };
  identity = none;
  send_chain_key = some (0 ∷ []);
  receive_chain_key = some (0 ∷ []);
  outbound_counter = 0;
  highest_inbound_counter = 0;
  session_established = true;
  skipped_keys = [];
}

abbrev pub nonce : Bytes
nonce = replicate 12 5

abbrev pub zeros : ℕ → Bytes
zeros n = replicate n 0

abbrev pub greeting : EncryptRequest
greeting = record { content = 7 ∷ []; context = header }

-- The frame of `greeting`, sealed under the first message key.
abbrev pub sent : Encrypted
sent = record { ciphertext = 1 ∷ 0 ∷ 0 ∷ 0 ∷ 1 ∷ 7 ∷ replicate 11 0; nonce = nonce; counter = 1 }

abbrev forged : DecryptRequest
forged = record { ciphertext = []; nonce = nonce; counter = 2; context = header }

pub sent_lem : (encrypt_binary toy zeros nonce fresh greeting).0 ≡ ok sent
unfolding encrypt_binary encode_aad derive_step build_plaintext draw select_padding_bucket
    first_bucket sort_numbers insert_number
sent_lem = refl

received_lem : (decrypt_binary toy fresh (request_of greeting sent)).0 ≡ ok (7 ∷ [])
unfolding decrypt_binary decrypt_checked decrypt_with cache_get decrypt_ahead open_payload
    encode_aad derive_step skip_keys parse_plaintext includes plaintext_length
received_lem = refl

fresh-IsOrderly : IsOrderly toy fresh
unfolding cache_get
fresh-IsOrderly = record { behind = λ c l. refl; distinct = tt }

pub fresh-IsSynced : IsSynced toy (0 ∷ []) fresh
unfolding chain_at
fresh-IsSynced = record { established = refl; on_chain = refl; genuine = tt }

pub fresh-IsSending : IsSending toy (0 ∷ []) fresh
unfolding chain_at
fresh-IsSending = record { established = refl; on_chain = refl }

fresh_accepts : IsAccepted (decrypt_binary toy fresh (request_of greeting sent)).0
fresh_accepts = rw received_lem tt

forged_fails : open_payload toy (second_key toy fresh (0 ∷ [])) forged ≡ err decryption_failed
unfolding open_payload encode_aad derive_step
forged_fails = refl

no_replay_example :
    let later =
      decrypt_all toy (decrypt_binary toy fresh (request_of greeting sent)).1 (forged ∷ []) in
    ((decrypt_binary toy later (request_of greeting sent)).1 ≡ later)
    × (¬ IsAccepted (decrypt_binary toy later (request_of greeting sent)).0)
no_replay_example =
    no_replay toy fresh (request_of greeting sent) (forged ∷ []) (request_of greeting sent)
      fresh-IsOrderly fresh_accepts refl

decrypt-IsSynced_example : IsSynced toy (0 ∷ []) (decrypt_binary toy fresh forged).1
decrypt-IsSynced_example = decrypt-IsSynced toy (0 ∷ []) fresh forged fresh-IsSynced

deliver_example : (decrypt_binary toy fresh (request_of greeting sent)).0 ≡ ok (7 ∷ [])
deliver_example =
    deliver toy toy-IsPlatform (0 ∷ []) zeros nonce fresh fresh greeting sent
      (λ n. length-replicate n 0) (omega arith) refl fresh-IsSending fresh-IsSynced sent_lem
      (omega arith) (inl (omega arith))

replay_after_forgery_example :
    let forged_once = (decrypt_binary toy fresh forged).1 in
    let once = (decrypt_binary toy forged_once (request_of greeting sent)).1 in
    ((decrypt_binary toy forged_once (request_of greeting sent)).0 ≡ ok (7 ∷ []))
    × (once ≡ fresh)
    × ((decrypt_binary toy once (request_of greeting sent)).0 ≡ ok (7 ∷ []))
replay_after_forgery_example =
    replay_after_forgery toy fresh (0 ∷ []) forged (request_of greeting sent) decryption_failed
      (7 ∷ []) refl refl refl (omega arith) refl refl forged_fails refl received_lem

-- A side with the toy key pair of a private key.
abbrev side : Bytes → Worker
side a = record fresh { identity = some (record { private = a; public = toy.public_key a }) }

session_agrees_example :
    let (reply_v, after_v) = establish_session toy (side (1 ∷ [])) (toy.public_key (2 ∷ [])) "h" in
    let (reply_w, after_w) = establish_session toy (side (2 ∷ [])) (toy.public_key (1 ∷ [])) "h" in
    (reply_v ≡ ok true)
    × (reply_w ≡ ok true)
    × ((k : Bytes) × IsSending toy k after_v × IsSynced toy k after_w)
    × ((m : Bytes) × IsSending toy m after_w × IsSynced toy m after_v)
unfolding compare_bytes
session_agrees_example =
    session_agrees toy toy-IsPlatform "h" (1 ∷ []) (2 ∷ []) (3 ∷ []) (side (1 ∷ [])) (side (2 ∷ []))
      refl refl refl refl

-- A session with the buckets of the balanced profile, and one byte too many.
abbrev roomy : Worker
roomy = record fresh {
  config = record (fresh.config) { padding_buckets = balanced_profile.padding_buckets };
}

abbrev large : EncryptRequest
large = record { content = replicate 65533 7; context = header }

large_length : length large.content ≡ 65533
large_length = length-replicate {A = ℕ} 65533 7

large_never_sealed_example :
    (select_padding_bucket roomy.config.padding_buckets (length large.content) ≡ some 131072)
    × ((encrypt_binary toy zeros nonce roomy large).0 ≢ ok sent)
large_never_sealed_example =
    large_never_sealed toy zeros nonce roomy large sent refl (omega (arith, large_length))
      (omega (arith, large_length))
