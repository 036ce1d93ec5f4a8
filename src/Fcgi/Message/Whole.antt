-- ===== src/Fcgi/Message/Whole.antt =====
-- fcgi_message_parse() on a chunk that begins with a complete header.
use qgis_scheduler.Prelude.{
  ℕ, ◌+◌, ◌-◌, ◌*◌, ◌≤◌, ◌≡◌, ◌⊎◌, ◌∙◌, true, false, some, none, [], ◌∷◌, ◌++◌, arith, Bytes,
  length, drop, inl, inr, length-append, length-replicate, append-nil, take-length_append,
  drop-length_append, append_assoc, take-all, drop_add, drop-replicate, ltb, leb, if◌then◌else◌,
  replicate,
}
use qgis_scheduler.Outcome.{ok, ◌>>=◌}
use qgis_scheduler.Fcgi.Protocol.{Protocol, MessageType, in_content, storage}
use qgis_scheduler.Fcgi.Message.{
  Message, message_new, message_parse, parse_header, parse_body, parse_rest, parse_in_content,
  header_done, allocate, write_header, write_at, store_content, finish, min_ℕ,
}

-- The eight bytes of a header.
pub record Header : Type 0 where
  pub version : ℕ
  pub type : ℕ
  pub request_id_b1 : ℕ
  pub request_id_b0 : ℕ
  pub content_length_b1 : ℕ
  pub content_length_b0 : ℕ
  pub padding_length : ℕ
  pub reserved : ℕ

abbrev pub bytes_of : Header → Bytes
bytes_of h =
    h.version ∷ h.type ∷ h.request_id_b1 ∷ h.request_id_b0 ∷ h.content_length_b1
    ∷ h.content_length_b0 ∷ h.padding_length ∷ h.reserved ∷ []

abbrev pub announced : Header → ℕ
announced h = h.content_length_b1 * 256 + h.content_length_b0

-- The message once its header is read.
abbrev pub headed : Header → Message
headed h = record {
  bytes_read = 8;
  content_length = announced h;
  parse_header_done = true;
  parse_done = false;
  store = bytes_of h ++ replicate 8 0;
  content = none;
}

min_header : (h : Header) (rest : Bytes) → min_ℕ (length (bytes_of h ++ rest)) 8 ≡ 8
min_header h rest = ground arith

-- A first chunk with a complete header goes on as the header's message, on the bytes behind it.
pub message_parse-header :
    (p : Protocol) (h : Header) (rest : Bytes)
    → message_parse p message_new (bytes_of h ++ rest)
      ≡ (header_done p (headed h) >>= λ m. parse_body p m rest 8)
unfolding message_parse message_new parse_header write_header write_at header_done
message_parse-header p h rest = rw (min_header h rest, parse_header)

-- The message when `front` is what has come of its content.
abbrev pub received : Header → Bytes → Message
received h front = record {
  bytes_read = 8 + length front;
  content_length = announced h;
  parse_header_done = true;
  parse_done = leb (announced h) (8 + length front);
  store = bytes_of h ++ replicate 8 0;
  content =
      if ltb 0 (announced h)
      then some (front ++ replicate (announced h - length front) 0)
      else none;
}

write_at-append :
    (front src old : Bytes)
    → write_at (length front) src (front ++ old) ≡ (front ++ src) ++ drop (length src) old
unfolding write_at
write_at-append front src old = rw (drop_add, take-length_append, drop-length_append, append_assoc)

-- The content of `received h front` with `back` written behind `front`.
store_content-received :
    (h : Header) (front back : Bytes)
    → 1 ≤ length back
    → length front + length back ≤ announced h
    → store_content (received h front).content (length front) back
      ≡ ok ((front ++ back) ++ replicate (announced h - length (front ++ back)) 0)
unfolding store_content
store_content-received h front [] k m = absurd (omega arith)
store_content-received h front (b ∷ back) k m = ground (
  arith,
  length-append front (replicate (announced h - length front) 0),
  length-replicate {A = ℕ} (announced h - length front) 0,
  write_at-append front (b ∷ back) (replicate (announced h - length front) 0),
  drop-replicate {A = ℕ} (announced h - length front) (length (b ∷ back)) 0,
  length-append front (b ∷ back),
)

-- The content of a message goes on with `back`; more bytes follow only if `back` completes it.
pub parse_in_content-received :
    (h : Header) (front back rest : Bytes) (dataread : ℕ)
    → length front + length back ≤ announced h
    → (rest ≡ []) ⊎ (length front + length back ≡ announced h)
    → parse_in_content (record (received h front) { parse_done = false }) (back ++ rest) dataread
      ≡ ok (record { dataread = dataread + length back; message = received h (front ++ back) })
unfolding parse_in_content finish
parse_in_content-received h front [] [] dataread k m = ground (arith, append-nil front)
parse_in_content-received h front [] (x ∷ rest) dataread k (inl e) = cc
parse_in_content-received h front [] (x ∷ rest) dataread k (inr e) =
    ground (arith, append-nil front)
parse_in_content-received h front (b ∷ back) rest dataread k m = ground (
  arith,
  length-append (b ∷ back) rest,
  take-length_append (b ∷ back) rest,
  take-all (length (b ∷ back)) (b ∷ back),
  append-nil (b ∷ back),
  length-append front (b ∷ back),
  store_content-received h front (b ∷ back),
)

-- A first chunk with a complete header of a type with content takes the content that follows, up
-- to the announced length, and leaves the bytes behind it. The message counts as done if its bytes,
-- those of the header included, reach the content's length.
pub message_parse-received :
    (p : Protocol) (t : MessageType) (h : Header) (front rest : Bytes)
    → p.message_type h.type ≡ some t
    → storage t ≡ in_content
    → length front ≤ announced h
    → (rest ≡ []) ⊎ (length front ≡ announced h)
    → message_parse p message_new (bytes_of h ++ (front ++ rest))
      ≡ ok (record { dataread = 8 + length front; message = received h front })
unfolding header_done allocate parse_body parse_rest
message_parse-received p t h front rest e s k m =
    message_parse-header p h (front ++ rest)
    ∙ ground (arith, parse_in_content-received h [] front rest 8)
