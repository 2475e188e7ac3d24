-- ===== src/Protocol/Messages/Sound.antt =====
-- Every decoded message is within the bounds of its fields.
use Prim.Native.String.{String}
use onlytwo.Base.{
  ℕ, ◌≤◌, ◌≡◌, refl, Bool, true, false, Option, none, some, leb, ◌==◌, if◌then◌else◌, arith, leb→le,
  subst,
}
use onlytwo.Protocol.Json.{
  Fields, get, utf16_length, is_hex, require_string, optional_string, require_integer, ◌>>=◌,
  as_string, as_whole, keep, in_range,
}
use onlytwo.Protocol.Messages.{
  CoreAppMessage, file_accept, file_reject, file_pause, file_resume, file_cancel, AppMessage,
  is_reliable_body,
}
use onlytwo.Protocol.Messages.Decode.{
  bounded_string, check_bounds, bounded_optional_string, optional_sha256, optional_timestamp,
  clamp_timestamp, max_timestamp, max_text_message_chars, decode_offer, decode_chunk_message,
  with_reason, with_id, decode_ack, decode_nack, decode_complete, decode_text, decode_voice_start,
  decode_voice_frame, decode_voice_stop, decode_core_kind, decode_core, decode_reliable,
  decode_reliable_ack, decode_reliable_nack, decode_app_kind, decode_app, parse_mode, parse_channel,
  as_object,
}
use onlytwo.Protocol.Messages.Fit.{IsBounded, IsInteger, FitsSha256, FitsCore, FitsApp}

pub data Ensures {A : Type 0} (P : A → Type 0) : Option A → Type 0 where
  fails : Ensures P none
  fits : {a : A} → P a → Ensures P (some a)

Ensures-bind :
    {A B : Type 0} {P : A → Type 0} {Q : B → Type 0} {o : Option A} {f : A → Option B}
    → Ensures P o
    → ((a : A) → P a → Ensures Q (f a))
    → Ensures Q (o >>= f)
Ensures-bind fails k = fails
Ensures-bind (fits {a} h) k = k a h

Ensures-if :
    {A : Type 0} {P : A → Type 0} (b : Bool) {x y : Option A}
    → Ensures P x
    → Ensures P y
    → Ensures P (if b then x else y)
Ensures-if true h k = h
Ensures-if false h k = k

-- A value of which nothing is asked.
Ensures-any :
    {A B : Type 0} {Q : B → Type 0} (o : Option A) {f : A → Option B}
    → ((a : A) → Ensures Q (f a))
    → Ensures Q (o >>= f)
Ensures-any none k = fails
Ensures-any (some a) k = k a

pub Ensures-some :
    {A : Type 0} {P : A → Type 0} {o : Option A} {a : A} → Ensures P o → o ≡ some a → P a
Ensures-some {P} (fits h) e = subst P (cc) h
Ensures-some fails e = cc

keep-Ensures :
    {A : Type 0} (P : A → Type 0) (b : Bool) (a : A) → (b ≡ true → P a) → Ensures P (keep b a)
keep-Ensures P true a h = fits (h refl)
keep-Ensures P false a h = fails

check_bounds-IsBounded : (max : ℕ) (s : String) → Ensures (IsBounded max) (check_bounds s max)
unfolding check_bounds
check_bounds-IsBounded max s = keep-Ensures (IsBounded max) _ s (λ h. ground arith)

bounded :
    (obj : Fields) (key : String) (max : ℕ) → Ensures (IsBounded max) (bounded_string obj key max)
unfolding bounded_string
bounded obj key max = Ensures-any (require_string obj key) (λ s. check_bounds-IsBounded max s)

integer :
    (obj : Fields) (key : String) (min : ℕ) → Ensures (IsInteger min) (require_integer obj key min)
unfolding require_integer
integer obj key min =
    Ensures-any (as_whole (get key obj))
      (λ n. keep-Ensures (IsInteger min) (in_range min n) n (λ h. ground arith))

sha256 : (obj : Fields) → Ensures FitsSha256 (optional_sha256 obj)
unfolding optional_sha256 FitsSha256
sha256 obj =
    let value = optional_string obj "sha256" "" in
    Ensures-if (utf16_length value == 0) (fits tt)
      (keep-Ensures FitsSha256 (is_hex 64 value) (some value) (λ h. h))

timestamp :
    (now : ℕ) (obj : Fields) (key : String)
    → now ≤ max_timestamp
    → optional_timestamp now obj key ≤ max_timestamp
unfolding optional_timestamp
timestamp now obj key h = go (as_whole (get key obj))
  where
    go : (o : Option ℕ) → clamp_timestamp now o ≤ max_timestamp
    go none = h
    go (some n) = ground arith

optional :
    (obj : Fields) (key fallback : String) (max : ℕ)
    → Ensures (λ s. utf16_length s ≤ max) (bounded_optional_string obj key fallback max)
unfolding bounded_optional_string
optional obj key fallback max =
    let value = optional_string obj key fallback in
    keep-Ensures (λ s. utf16_length s ≤ max) (leb (utf16_length value) max) value
      (λ h. leb→le _ _ h)

text-FitsCore :
    (now : ℕ) (obj : Fields) → now ≤ max_timestamp → Ensures FitsCore (decode_text now obj)
unfolding decode_text FitsCore
text-FitsCore now obj h = Ensures-bind (bounded obj "messageId" 160) (λ id i.
    Ensures-bind (bounded obj "body" max_text_message_chars)
      (λ body b. fits (i, b, timestamp now obj "createdAt" h)))

offer-FitsCore : (obj : Fields) → Ensures FitsCore (decode_offer obj)
unfolding decode_offer FitsCore
offer-FitsCore obj = Ensures-bind (sha256 obj) (λ _ sum.
    Ensures-bind (bounded obj "fileId" 160) (λ _ id.
      Ensures-bind (bounded obj "name" 180) (λ _ name.
        Ensures-bind (optional obj "mime" "application/octet-stream" 160) (λ _ mime.
          Ensures-bind (integer obj "size" 1) (λ _ size.
            Ensures-bind (integer obj "chunkSize" 1) (λ _ chunk_size.
              Ensures-bind (integer obj "totalChunks" 1)
                (λ _ total. fits (id, name, mime, size, chunk_size, total, sum))))))))

chunk-FitsCore : (obj : Fields) → Ensures FitsCore (decode_chunk_message obj)
unfolding decode_chunk_message FitsCore
chunk-FitsCore obj = Ensures-bind (bounded obj "fileId" 160) (λ _ id.
    Ensures-bind (integer obj "index" 0) (λ _ index.
      Ensures-bind (integer obj "totalChunks" 1) (λ _ total.
        Ensures-bind (bounded obj "data" 400000) (λ _ content. fits (id, index, total, content)))))

-- The readers of an id, and of an id and a reason.
id-FitsCore :
    (obj : Fields) (make : String → CoreAppMessage)
    → ((s : String) → IsBounded 160 s → FitsCore (make s))
    → Ensures FitsCore (with_id obj make)
id-FitsCore obj make k = Ensures-bind (bounded obj "fileId" 160) (λ s h. fits (k s h))

reason-FitsCore :
    (obj : Fields) (make : String → String → CoreAppMessage)
    → ((s r : String) → IsBounded 160 s → IsBounded 240 r → FitsCore (make s r))
    → Ensures FitsCore (with_reason obj make)
reason-FitsCore obj make k =
    Ensures-bind (bounded obj "fileId" 160)
      (λ s h. Ensures-bind (bounded obj "reason" 240) (λ r g. fits (k s r h g)))

ack-FitsCore : (obj : Fields) → Ensures FitsCore (decode_ack obj)
unfolding decode_ack FitsCore
ack-FitsCore obj =
    Ensures-bind (bounded obj "fileId" 160)
      (λ _ id. Ensures-bind (integer obj "index" 0) (λ _ index. fits (id, index)))

nack-FitsCore : (obj : Fields) → Ensures FitsCore (decode_nack obj)
unfolding decode_nack FitsCore
nack-FitsCore obj = Ensures-bind (bounded obj "fileId" 160) (λ _ id.
    Ensures-bind (integer obj "index" 0)
      (λ _ index. Ensures-bind (bounded obj "reason" 240) (λ _ reason. fits (id, index, reason))))

complete-FitsCore : (obj : Fields) → Ensures FitsCore (decode_complete obj)
unfolding decode_complete FitsCore
complete-FitsCore obj =
    Ensures-bind (sha256 obj)
      (λ _ sum. Ensures-bind (bounded obj "fileId" 160) (λ _ id. fits (id, sum)))

voice_start-FitsCore : (obj : Fields) → Ensures FitsCore (decode_voice_start obj)
unfolding decode_voice_start FitsCore
voice_start-FitsCore obj = Ensures-any (parse_mode (optional_string obj "mode" "")) (λ _.
    Ensures-bind (bounded obj "streamId" 80) (λ _ id.
      Ensures-bind (integer obj "sampleRate" 1)
        (λ _ rate. Ensures-bind (integer obj "frameMs" 1) (λ _ ms. fits (id, rate, ms)))))

voice_frame-FitsCore : (obj : Fields) → Ensures FitsCore (decode_voice_frame obj)
unfolding decode_voice_frame FitsCore
voice_frame-FitsCore obj = Ensures-bind (bounded obj "streamId" 80) (λ _ id.
    Ensures-bind (integer obj "seq" 0) (λ _ seq. Ensures-bind (integer obj "sentAt" 0) (λ _ at.
      Ensures-bind (integer obj "sampleRate" 1) (λ _ rate.
        Ensures-bind (integer obj "frameMs" 1) (λ _ ms.
          Ensures-bind (bounded obj "pcm16" 400000)
            (λ _ pcm. fits (id, seq, at, rate, ms, pcm)))))))

voice_stop-FitsCore : (obj : Fields) → Ensures FitsCore (decode_voice_stop obj)
unfolding decode_voice_stop FitsCore
voice_stop-FitsCore obj = Ensures-bind (bounded obj "streamId" 80) (λ _ id. fits id)

kind-FitsCore :
    (now : ℕ) (obj : Fields) (kind : String)
    → now ≤ max_timestamp
    → Ensures FitsCore (decode_core_kind now obj kind)
unfolding decode_core_kind FitsCore
kind-FitsCore now obj kind h = Ensures-if _ (fits (timestamp now obj "at" h)) (
    Ensures-if _ (text-FitsCore now obj h) (
      Ensures-if _ (offer-FitsCore obj) (
        Ensures-if _ (id-FitsCore obj file_accept (λ s h. h)) (
          Ensures-if _ (reason-FitsCore obj file_reject (λ s r h g. (h, g))) (
            Ensures-if _ (chunk-FitsCore obj) (
              Ensures-if _ (ack-FitsCore obj) (
                Ensures-if _ (nack-FitsCore obj) (
                  Ensures-if _ (reason-FitsCore obj file_pause (λ s r h g. (h, g))) (
                    Ensures-if _ (id-FitsCore obj file_resume (λ s h. h)) (
                      Ensures-if _ (reason-FitsCore obj file_cancel (λ s r h g. (h, g))) (
                        Ensures-if _ (complete-FitsCore obj) (
                          Ensures-if _ (voice_start-FitsCore obj) (
                            Ensures-if _ (voice_frame-FitsCore obj)
                              (Ensures-if _ (voice_stop-FitsCore obj) fails))))))))))))))

core-FitsCore :
    (now : ℕ) (obj : Fields) → now ≤ max_timestamp → Ensures FitsCore (decode_core now obj)
unfolding decode_core
core-FitsCore now obj h =
    Ensures-any (as_string (get "kind" obj)) (λ kind. kind-FitsCore now obj kind h)

reliable-FitsApp :
    (now : ℕ) (obj : Fields) → now ≤ max_timestamp → Ensures FitsApp (decode_reliable now obj)
unfolding decode_reliable FitsApp
reliable-FitsApp now obj h = Ensures-any (require_string obj "channel") (λ name.
    Ensures-any (parse_channel name) (λ channel. Ensures-any (as_object (get "body" obj)) (λ fields.
      Ensures-bind (core-FitsCore now fields h) (λ decoded d.
        Ensures-bind
          (keep-Ensures (λ m. (is_reliable_body m ≡ true) × FitsCore m) (is_reliable_body decoded)
            decoded (λ r. (r, d)))
          (λ _ body. Ensures-bind (bounded obj "id" 160) (λ _ id.
            Ensures-bind (integer obj "attempt" 1) (λ _ attempt.
              fits (id, body.0, body.1, timestamp now obj "createdAt" h, attempt))))))))

reliable_ack-FitsApp : (obj : Fields) → Ensures FitsApp (decode_reliable_ack obj)
unfolding decode_reliable_ack FitsApp
reliable_ack-FitsApp obj = Ensures-bind (bounded obj "id" 160) (λ _ id. fits id)

reliable_nack-FitsApp : (obj : Fields) → Ensures FitsApp (decode_reliable_nack obj)
unfolding decode_reliable_nack FitsApp
reliable_nack-FitsApp obj =
    Ensures-bind (bounded obj "id" 160)
      (λ _ id. Ensures-bind (bounded obj "reason" 240) (λ _ reason. fits (id, reason)))

app-FitsApp : (now : ℕ) (obj : Fields) → now ≤ max_timestamp → Ensures FitsApp (decode_app now obj)
unfolding decode_app decode_app_kind FitsApp
app-FitsApp now obj h = Ensures-any (as_string (get "kind" obj)) (λ kind.
    Ensures-if _ (reliable-FitsApp now obj h) (
      Ensures-if _ (reliable_ack-FitsApp obj) (
        Ensures-if _ (reliable_nack-FitsApp obj)
          (Ensures-bind (kind-FitsCore now obj kind h) (λ _ m. fits m)))))

-- Whatever object is received, a message decoded from it has every text and every integer within
-- the bounds of its field, and a body in a `reliable.msg` is one that may be there. The clock reads
-- a timestamp that a date can have.
pub decode_app-Fits :
    (now : ℕ) (obj : Fields) (m : AppMessage)
    → now ≤ max_timestamp
    → decode_app now obj ≡ some m
    → FitsApp m
decode_app-Fits now obj m h e = Ensures-some (app-FitsApp now obj h) e
