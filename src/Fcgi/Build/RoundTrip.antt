-- ===== src/Fcgi/Build/RoundTrip.antt =====
-- What fcgi_message_write() writes, fcgi_message_parse() reads back.
use qgis_scheduler.Prelude.{
  ℕ, ◌+◌, ◌/◌, ◌%◌, ◌≤◌, ◌<◌, ◌≡◌, refl, sym, ◌∙◌, some, none, [], ◌∷◌, ◌++◌, arith, Bytes, length,
  take, inr, length-append, append-nil, append_assoc, take-all, take-length_append, ltb,
  if◌then◌else◌, replicate,
}
use qgis_scheduler.Outcome.{ok, ◌>>=◌}
use qgis_scheduler.Fcgi.Protocol.{
  Protocol, MessageType, in_body, in_content, storage, begin_request, end_request,
}
use qgis_scheduler.Fcgi.Message.{
  Message, message_new, message_parse, header_done, allocate, parse_body, parse_rest, parse_in_body,
  finish, write_at, min_ℕ,
}
use qgis_scheduler.Fcgi.Message.Whole.{
  Header, bytes_of, announced, received, message_parse-header, message_parse-received,
}
use qgis_scheduler.Fcgi.Build.{
  new_begin, new_endrequest, new_content, message_write, get_size, write_type, write_content,
  copy_out, complete,
}

-- The header of a message that a constructor makes.
abbrev pub header_of : Protocol → MessageType → ℕ → ℕ → Header
header_of p t request_id len = record {
  version = p.version_1;
  type = p.code t;
  request_id_b1 = request_id / 256 % 256;
  request_id_b0 = request_id % 256;
  content_length_b1 = len / 256 % 256;
  content_length_b0 = len % 256;
  padding_length = 0;
  reserved = 0;
}

-- The message that holds all of `content`.
abbrev made : Protocol → MessageType → ℕ → Bytes → Message
made p t request_id content =
    complete (bytes_of (header_of p t request_id (length content)) ++ replicate 8 0)
      (length content) (if ltb 0 (length content) then some content else none)

new_content-made :
    (p : Protocol) (t : MessageType) (request_id : ℕ) (content : Bytes)
    → new_content p t request_id content (length content) ≡ ok (made p t request_id content)
unfolding new_content
new_content-made p t id [] = refl
new_content-made p t id (b ∷ content) =
    ground (arith, take-all (length (b ∷ content)) (b ∷ content))

pub announced-header_of :
    (p : Protocol) (t : MessageType) (request_id len : ℕ)
    → len < 65536
    → announced (header_of p t request_id len) ≡ len
announced-header_of p t id len h = omega arith

-- A message with a copied content is written as its header and its content, if the buffer has room
-- for both.
pub message_write-new_content :
    (p : Protocol) (t : MessageType) (request_id : ℕ) (content : Bytes) (room : ℕ)
    → storage t ≡ in_content
    → length content < 65536
    → 8 + length content ≤ room
    → (new_content p t request_id content (length content) >>= message_write p room)
      ≡ ok (bytes_of (header_of p t request_id (length content)) ++ content)
unfolding message_write get_size write_type write_content copy_out
message_write-new_content p t id [] room s h r =
    rw new_content-made (ground (arith, p.message_type-code t))
message_write-new_content p t id (b ∷ content) room s h r =
    rw new_content-made
      (ground (arith, p.message_type-code t, take-all (length (b ∷ content)) (b ∷ content)))

received-whole :
    (h : Header) (content : Bytes)
    → announced h ≡ length content
    → received h content
      ≡ record (complete
          (bytes_of h ++ replicate 8 0)
          (length content)
          (if ltb 0 (length content) then some content else none)) {
            bytes_read = 8 + length content;
          }
received-whole h content e = ground (arith, append-nil content)

-- What is written of such a message parses, in one chunk with any bytes behind it, to a message
-- that is done, with the same type, request and content, and takes the bytes written.
pub message_parse-message_write :
    (p : Protocol) (t : MessageType) (request_id : ℕ) (content rest : Bytes) (room : ℕ)
    → storage t ≡ in_content
    → length content < 65536
    → 8 + length content ≤ room
    → (new_content p t request_id content (length content) >>= message_write p room >>= λ written.
        message_parse p message_new (written ++ rest))
      ≡ (new_content p t request_id content (length content) >>= λ m. ok (record {
        dataread = 8 + length content;
        message = record m { bytes_read = 8 + length content };
      }))
message_parse-message_write p t id content rest room s h r =
    let head = header_of p t id (length content) in
    let a = announced-header_of p t id (length content) h in
    ground (
      arith,
      a,
      message_write-new_content p t id content room s h r,
      new_content-made p t id content,
      append_assoc (bytes_of head) content rest,
      message_parse-received p t head content rest (p.message_type-code t) s (omega arith)
          (inr (sym a)),
      received-whole head content a,
    )

min_body : (body rest : Bytes) → length body ≡ 8 → min_ℕ 8 (length (body ++ rest)) ≡ 8
min_body body rest e = ground (arith, length-append body rest)

take_body : (body rest : Bytes) → length body ≡ 8 → take 8 (body ++ rest) ≡ body
take_body body rest e = rw e at (take-length_append body rest)

write_body :
    (h : Header) (body : Bytes)
    → length body ≡ 8
    → write_at 8 body (bytes_of h ++ replicate 8 0) ≡ bytes_of h ++ body
unfolding write_at
write_body h body e = rw e (ground (arith, append-nil body))

pub message_parse-body :
    (p : Protocol) (t : MessageType) (h : Header) (body rest : Bytes)
    → p.message_type h.type ≡ some t
    → storage t ≡ in_body
    → announced h ≡ 8
    → length body ≡ 8
    → message_parse p message_new (bytes_of h ++ (body ++ rest))
      ≡ ok (record {
        dataread = 16;
        message = record (complete (bytes_of h ++ body) 8 none) { bytes_read = 16 };
      })
unfolding header_done allocate parse_body parse_rest parse_in_body finish
message_parse-body p t h body rest e s a b =
    message_parse-header p h (body ++ rest)
    ∙ ground (arith, min_body body rest b, take_body body rest b, write_body h body b)

-- A begin-request message, written into a buffer of 16 bytes or more, parses back to itself with
-- any bytes behind it, and takes its 16 bytes.
pub message_parse-new_begin :
    (p : Protocol) (request_id role flags : ℕ) (rest : Bytes) (room : ℕ)
    → 16 ≤ room
    → (message_write p room (new_begin p request_id role flags) >>= λ written.
        message_parse p message_new (written ++ rest))
      ≡ ok (record {
        dataread = 16;
        message = record (new_begin p request_id role flags) { bytes_read = 16 };
      })
unfolding new_begin message_write get_size write_type copy_out storage
message_parse-new_begin p id role flags rest room r =
    let body : Bytes = (role / 256 % 256) ∷ (role % 256) ∷ (flags % 256) ∷ replicate 5 0 in
    let n : min_ℕ (8 + 8) room ≡ 16 = ground arith in
    rw (n, p.message_type-code begin_request, write_type)
      (message_parse-body p begin_request (header_of p begin_request id 8) body rest
        (p.message_type-code begin_request) refl refl refl)

-- So does an end-request message.
pub message_parse-new_endrequest :
    (p : Protocol) (request_id app_status protocol_status : ℕ) (rest : Bytes) (room : ℕ)
    → 16 ≤ room
    → (message_write p room (new_endrequest p request_id app_status protocol_status) >>= λ written.
        message_parse p message_new (written ++ rest))
      ≡ ok (record {
        dataread = 16;
        message = record (new_endrequest p request_id app_status protocol_status) {
          bytes_read = 16;
        };
      })
unfolding new_endrequest message_write get_size write_type copy_out storage
message_parse-new_endrequest p id app status rest room r =
    let body : Bytes =
      (app / 256 / 256 / 256 % 256)
      ∷ (app / 256 / 256 % 256)
      ∷ (app / 256 % 256)
      ∷ (app % 256)
      ∷ (status % 256)
      ∷ replicate 3 0 in
    let n : min_ℕ (8 + 8) room ≡ 16 = ground arith in
    rw (n, p.message_type-code end_request, write_type)
      (message_parse-body p end_request (header_of p end_request id 8) body rest
        (p.message_type-code end_request) refl refl refl)
