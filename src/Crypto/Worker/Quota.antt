-- ===== src/Crypto/Worker/Quota.antt =====
-- Payloads that need a bucket of more random bytes than the browser fills in one call.
use onlytwo.Base.{ℕ, ◌≤◌, ◌<◌, ◌≡◌, ◌≢◌, some, arith, Bytes, length}
use onlytwo.Config.Table.{balanced_profile}
use onlytwo.Crypto.Platform.{Platform}
use onlytwo.Crypto.Padding.{
  select_padding_bucket, first_bucket, sort_numbers, insert_number, build-large,
}
use onlytwo.Crypto.Worker.{Worker, EncryptRequest, Encrypted, ok, encrypt_binary, encrypt_step}

balanced_bucket :
    (n : ℕ)
    → 65532 < n
    → n ≤ 131068
    → select_padding_bucket balanced_profile.padding_buckets n ≡ some 131072
unfolding select_padding_bucket first_bucket sort_numbers insert_number
balanced_bucket n l h = ground arith

-- With the buckets of the balanced profile, a payload of 65533 to 131068 bytes has a bucket of 131072
-- bytes, and `encryptBinary` never succeeds on it, whatever the session, the nonce and the random bytes.
pub large_never_sealed :
    (p : Platform) (rb : ℕ → Bytes) (nonce : Bytes) (w : Worker) (q : EncryptRequest)
    (e : Encrypted)
    → w.config.padding_buckets ≡ balanced_profile.padding_buckets
    → 65532 < length q.content
    → length q.content ≤ 131068
    → (select_padding_bucket w.config.padding_buckets (length q.content) ≡ some 131072)
      × ((encrypt_binary p rb nonce w q).0 ≢ ok e)
unfolding encrypt_binary encrypt_step
large_never_sealed p rb nonce w q e same l h =
    let chosen = balanced_bucket (length q.content) l h in
    let unpadded = build-large rb w.config.padding_buckets q.content (omega arith) in
    (rw same chosen, λ r. ground (arith, unpadded))
