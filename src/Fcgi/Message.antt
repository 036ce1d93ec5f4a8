-- ===== src/Fcgi/Message.antt =====
-- fcgi_state.c, one FastCGI message: parsing from chunks of a stream, writing, and the constructors.
-- The bytes that a caller passes are a list; its length is the argument `len`.
pub mod Whole
pub mod Chunks
use qgis_scheduler.Prelude.{
  ℕ, zero, suc, ◌+◌, ◌-◌, ◌*◌, ◌/◌, ◌%◌, Bool, true, false, not, ◌||◌, Option, none, some, List, [],
  ◌∷◌, ◌++◌, ltb, leb, ◌==◌, if◌then◌else◌, Bytes, length, take, drop, get_or, replicate, ℤ, pos,
  negsuc,
}
use qgis_scheduler.Outcome.{Outcome, ok, fault, over_write, exit_failure, ◌>>=◌, ◌>>◌, assert}
use qgis_scheduler.Fcgi.Protocol.{
  MessageType, begin_request, abort_request, end_request, params, stdin, Protocol, Storage, in_body,
  no_content, in_content, storage,
}

-- struct fcgi_message_s. `store` is the member `message`: eight bytes of header, eight of body.
pub record Message : Type 0 where
  pub bytes_read : ℕ
  pub content_length : ℕ
  pub parse_header_done : Bool
  pub parse_done : Bool
  pub store : Bytes
  pub content : Option Bytes

-- sizeof(FCGI_Header), and of each of the bodies.
abbrev pub header_size : ℕ
header_size = 8

abbrev pub body_size : ℕ
body_size = 8

abbrev pub field : ℕ → Bytes → ℕ
field i bytes = get_or bytes i 0

-- ASSEMBLE_FCGI_NUMBERS16 of the bytes at `i` and `i + 1`.
abbrev pub assemble16 : ℕ → Bytes → ℕ
assemble16 i bytes = field i bytes * 256 + field (i + 1) bytes

-- WRITE_FCGI_NUMBER16, high byte first.
abbrev pub write16 : ℕ → Bytes
write16 value = (value / 256 % 256) ∷ (value % 256) ∷ []

-- memcpy(dest + offset, src, length src).
unfoldable pub write_at : ℕ → Bytes → Bytes → Bytes
write_at offset src dest = take offset dest ++ (src ++ drop (offset + length src) dest)

unfoldable pub message_new : Message
message_new = record {
  bytes_read = 0;
  content_length = 0;
  parse_header_done = false;
  parse_done = false;
  store = replicate 16 0;
  content = none;
}

pub record Step : Type 0 where
  pub dataread : ℕ
  pub message : Message

abbrev pub min_ℕ : ℕ → ℕ → ℕ
min_ℕ a b = if ltb a b then a else b

-- `(&message->message.header) + bytes_read` counts in headers, not in bytes.
unfoldable pub write_header : Message → Bytes → Outcome Message
write_header m [] = ok m
write_header m (b ∷ bs) =
    let offset = header_size * m.bytes_read in
    if ltb (header_size + body_size) (offset + length (b ∷ bs))
    then fault over_write
    else ok (record m { store = write_at offset (b ∷ bs) m.store })

-- What follows a complete header: its length, and memory for the content.
unfoldable pub allocate : Option MessageType → Message → Outcome Message
allocate none m = fault exit_failure
allocate (some t) m = elim (storage t) [
  | in_content ↦ ok (
      if ltb 0 m.content_length
      then record m { content = some (replicate m.content_length 0) }
      else m)
  | _ ↦ ok m
]

unfoldable pub header_done : Protocol → Message → Outcome Message
header_done p m =
    allocate (p.message_type (field 1 m.store))
      (record m { content_length = assemble16 4 m.store; parse_header_done = true })

-- The end of fcgi_message_parse().
unfoldable pub finish : ℕ → Message → Step
finish dataread m = record {
  dataread = dataread;
  message = if leb m.content_length m.bytes_read then record m { parse_done = true } else m;
}

unfoldable pub parse_in_body : Message → Bytes → ℕ → Outcome Step
parse_in_body m bytes dataread = do
  assert (m.content_length == body_size)
  let copylen = min_ℕ body_size (length bytes)
  ok (
      finish (dataread + copylen) (record m {
        store = write_at header_size (take copylen bytes) m.store;
        bytes_read = m.bytes_read + copylen;
      }))

unfoldable pub store_content : Option Bytes → ℕ → Bytes → Outcome Bytes
store_content none offset [] = ok []
store_content none offset (b ∷ bs) = fault over_write
store_content (some c) offset src =
    if ltb (length c) (offset + length src) then fault over_write else ok (write_at offset src c)

unfoldable pub parse_in_content : Message → Bytes → ℕ → Outcome Step
parse_in_content m bytes dataread = do
  assert (leb m.bytes_read (header_size + m.content_length))
  let content_read = min_ℕ (length bytes) (header_size + m.content_length - m.bytes_read)
  if content_read == 0 then ok (finish dataread m) else do
    assert (leb header_size m.bytes_read)
    let previous_read = m.bytes_read - header_size
    assert (leb (previous_read + content_read) m.content_length)
    c ← store_content m.content previous_read (take content_read bytes)
    ok (
        finish (dataread + content_read)
          (record m { content = some c; bytes_read = m.bytes_read + content_read }))

unfoldable pub parse_rest : Option MessageType → Message → Bytes → ℕ → Outcome Step
parse_rest none m bytes dataread = fault exit_failure
parse_rest (some t) m bytes dataread = elim (storage t) [
  | in_body ↦ parse_in_body m bytes dataread
  | no_content ↦ do assert (m.content_length == 0); ok (finish dataread m)
  | in_content ↦ parse_in_content m bytes dataread
]

unfoldable pub parse_body : Protocol → Message → Bytes → ℕ → Outcome Step
parse_body p m bytes dataread = do
  assert m.parse_header_done
  parse_rest (p.message_type (field 1 m.store)) m bytes dataread

-- The branch for a header that is not complete yet.
unfoldable pub parse_header : Protocol → Message → Bytes → Outcome Step
parse_header p m bytes = do
  let n = min_ℕ (length bytes) (header_size - m.bytes_read)
  w ← write_header m (take n bytes)
  let m' = record w { bytes_read = w.bytes_read + n }
  if ltb m'.bytes_read header_size
      then ok (record { dataread = n; message = m' })
      else do h ← header_done p m'; parse_body p h (drop n bytes) n

unfoldable pub message_parse : Protocol → Message → Bytes → Outcome Step
message_parse p m bytes =
    if m.parse_done
    then ok (record { dataread = 0; message = m })
    else if ltb m.bytes_read header_size
    then parse_header p m bytes
    else parse_body p m bytes 0
