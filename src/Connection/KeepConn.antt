-- ===== src/Connection/KeepConn.antt =====
-- connection_manager.c: what the process is sent in place of the begin message.
use Prim.Native.Nat.{bit_and}
use qgis_scheduler.Prelude.{
  ℕ, ◌-◌, ◌/◌, replicate, ◌%◌, ◌≤◌, ◌<◌, ◌≡◌, refl, ap, Bool-cases, inl, inr, ◌∷◌, ◌++◌, arith,
  ◌==◌, if◌then◌else◌, Bytes, length, ltb,
}
use qgis_scheduler.Outcome.{ok, ◌>>=◌}
use qgis_scheduler.Fcgi.Protocol.{Protocol, begin_request, storage}
use qgis_scheduler.Fcgi.Message.{message_new, message_parse, write_at}
use qgis_scheduler.Fcgi.Message.Whole.{bytes_of}
use qgis_scheduler.Fcgi.Build.{get_flag, set_flag, message_write, get_size, write_type, copy_out}
use qgis_scheduler.Fcgi.Build.RoundTrip.{header_of, message_parse-body}
use qgis_scheduler.Fcgi.Session.Request.{begin_body, begin_message}
use qgis_scheduler.Connection.Attempt.{clear_keep_conn}

-- The begin message of a request at the front of a block.
abbrev pub begins : Protocol → (id role flags : ℕ) → Bytes → Bytes
begins p id role flags rest =
    bytes_of (header_of p begin_request id 8) ++ (begin_body role flags ++ rest)

parse_begins :
    (p : Protocol) (id role flags : ℕ) (rest : Bytes)
    → message_parse p message_new (begins p id role flags rest)
      ≡ ok (record { dataread = 16; message = begin_message p id role flags })
unfolding storage
parse_begins p id role flags rest =
    message_parse-body p begin_request (header_of p begin_request id 8) (begin_body role flags) rest
      (p.message_type-code begin_request) refl refl refl

write_begin :
    (p : Protocol) (room id role flags : ℕ)
    → 16 ≤ room
    → message_write p room (begin_message p id role flags)
      ≡ ok (bytes_of (header_of p begin_request id 8) ++ begin_body role flags)
unfolding message_write get_size write_type copy_out storage
write_begin p room id role flags h =
    let n : (if ltb 16 room then 16 else room) ≡ 16 = ground arith in
    rw (n, p.message_type-code begin_request, write_type) refl

-- In a block that begins with a begin-request message with flags below 256, only the byte of the flags
-- changes, and in it only the bit FCGI_KEEP_CONN, which is 0 afterwards.
pub clear_keep_conn-begins :
    (p : Protocol) (keep_conn id role flags : ℕ) (rest : Bytes)
    → flags < 256
    → clear_keep_conn p keep_conn (begins p id role flags rest)
      ≡ ok (
          begins p id role
            (if bit_and flags keep_conn == 0 then flags else bit_and flags (255 - keep_conn))
            rest)
unfolding clear_keep_conn get_flag set_flag write_at
clear_keep_conn-begins p keep_conn id role flags rest h =
    let byte : flags % 256 ≡ flags = omega arith in
    elim (Bool-cases (bit_and flags keep_conn == 0)) [
      | inl e ↦ rw (clear_keep_conn, parse_begins p id role flags rest, byte, e, byte) refl
      | inr e ↦
          let new = bit_and flags (255 - keep_conn) in
          let block =
            bytes_of (header_of p begin_request id 8)
            ++ ((role / 256 % 256) ∷ (role % 256) ∷ flags ∷ (replicate 5 0 ++ rest)) in
          rw (clear_keep_conn, parse_begins p id role flags rest, byte, e)
            (ap (λ m. m >>= λ written. ok (write_at 0 written block))
              (write_begin p (length block) id role new (omega arith)))
    ]
