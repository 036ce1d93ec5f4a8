-- ===== src/Fcgi/Build.antt =====
-- fcgi_state.c: the constructors of messages, what is read off a message, and fcgi_message_write().
-- `parameter`, `stdindata` and `bytes` are the memory that a pointer argument leads to.
pub mod RoundTrip
use qgis_scheduler.Prelude.{
  ℕ, ◌+◌, ◌-◌, ◌*◌, ◌/◌, ◌%◌, Bool, true, false, not, Option, none, some, List, [], ◌∷◌, ◌++◌, ltb,
  leb, ◌==◌, if◌then◌else◌, Bytes, length, take, replicate,
}
use qgis_scheduler.Outcome.{Outcome, ok, fault, over_read, exit_failure, ◌>>=◌, ◌>>◌, assert}
use qgis_scheduler.Fcgi.Protocol.{
  MessageType, begin_request, abort_request, end_request, params, stdin, Protocol, Storage, in_body,
  no_content, in_content, storage,
}
use qgis_scheduler.Fcgi.Message.{
  Message, header_size, body_size, field, assemble16, write16, write_at, min_ℕ,
}

-- fcgi_message_get_requestid(), for a message that is there.
unfoldable pub get_requestid : Message → Outcome ℕ
get_requestid m = do assert m.parse_header_done; ok (assemble16 2 m.store)

unfoldable pub get_type : Message → Outcome ℕ
get_type m = do assert m.parse_header_done; ok (field 1 m.store)

unfoldable pub get_role : Protocol → Message → Outcome ℕ
get_role p m = do
  assert m.parse_header_done
  ok (if field 1 m.store == p.code begin_request then assemble16 header_size m.store else 0)

unfoldable pub get_flag : Message → Outcome ℕ
get_flag m = do assert m.parse_header_done; ok (field 10 m.store)

unfoldable pub set_flag : Message → ℕ → Outcome Message
set_flag m flags = do
  assert m.parse_header_done
  ok (record m { store = write_at 10 ((flags % 256) ∷ []) m.store })

unfoldable pub get_size : Message → Outcome ℕ
get_size m = do assert m.parse_header_done; ok (header_size + m.content_length)

-- The header that a constructor writes into zeroed memory, with `body` behind it.
abbrev pub header_bytes : Protocol → MessageType → ℕ → ℕ → Bytes
header_bytes p t request_id len =
    p.version_1 ∷ p.code t ∷ (write16 request_id ++ (write16 len ++ (0 ∷ 0 ∷ [])))

abbrev pub complete : Bytes → ℕ → Option Bytes → Message
complete store len content = record {
  bytes_read = 0;
  content_length = len;
  parse_header_done = true;
  parse_done = true;
  store = store;
  content = content;
}

unfoldable pub new_begin : Protocol → ℕ → ℕ → ℕ → Message
new_begin p request_id role flags =
    complete
      (header_bytes p begin_request request_id body_size
        ++ (write16 role ++ ((flags % 256) ∷ replicate 5 0)))
      body_size none

-- A message whose content is copied from `bytes`: `len` of them, none for a length of 0.
unfoldable pub new_content : Protocol → MessageType → ℕ → Bytes → ℕ → Outcome Message
new_content p t request_id bytes len =
    let store = header_bytes p t request_id len ++ replicate body_size 0 in
    if len == 0
    then ok (complete store 0 none)
    else if ltb (length bytes) len
    then fault over_read
    else ok (complete store len (some (take len bytes)))

unfoldable pub new_parameter : Protocol → ℕ → Bytes → ℕ → Outcome Message
new_parameter p request_id parameter len = do
  assert (ltb 0 request_id)
  new_content p params request_id parameter len

unfoldable pub new_stdin : Protocol → ℕ → Bytes → ℕ → Outcome Message
new_stdin p request_id stdindata len = new_content p stdin request_id stdindata len

-- fcgi_message_new_data() writes the type FCGI_STDIN.
pub new_data : Protocol → ℕ → Bytes → ℕ → Outcome Message
new_data p request_id bytes len = new_content p stdin request_id bytes len

unfoldable pub new_endrequest : Protocol → ℕ → ℕ → ℕ → Message
new_endrequest p request_id app_status protocol_status =
    complete
      (header_bytes p end_request request_id body_size
        ++ (write16 (app_status / 256 / 256)
            ++ (write16 app_status ++ ((protocol_status % 256) ∷ replicate 3 0))))
      body_size none

-- memcpy() of `n` bytes out of an object of the size of the list.
unfoldable pub copy_out : ℕ → Bytes → Outcome Bytes
copy_out n source = if ltb (length source) n then fault over_read else ok (take n source)

unfoldable pub write_content : Bytes → Option Bytes → ℕ → Outcome Bytes
write_content store content written =
    if leb written header_size then copy_out written store else elim content [
      | none ↦ fault over_read
      | some c ↦ do body ← copy_out (written - header_size) c; ok (take header_size store ++ body)
    ]

unfoldable pub write_type : Option MessageType → Message → ℕ → Outcome Bytes
write_type none m written = fault exit_failure
write_type (some t) m written = elim (storage t) [
  | in_content ↦ write_content m.store m.content written
  | _ ↦ copy_out written m.store
]

-- The bytes stored into a buffer of `len` bytes; the number returned is their length.
unfoldable pub message_write : Protocol → ℕ → Message → Outcome Bytes
message_write p len m = do
  size ← get_size m
  write_type (p.message_type (field 1 m.store)) m (min_ℕ size len)
