-- ===== src/Examples.antt =====
-- The theorems at concrete inputs, with the record types of FastCGI 1.0.
mod Processes
mod Configuration
mod Connections
mod Running
mod Included
use qgis_scheduler.Prelude.{
  ℕ, suc, ◌+◌, ◌≤◌, ◌<◌, ◌≡◌, ◌≢◌, ◌↔◌, ◌⊎◌, refl, inl, inr, true, false, Bool, Option, none, some,
  List, [], ◌∷◌, ◌++◌, arith, Bytes, length, All, if◌then◌else◌, ◌==◌, leb, replicate, get_or, ℤ,
  pos, negsuc, String, ◌+ℤ◌, ◌<ℤ◌, select, ltb,
}
use qgis_scheduler.Outcome.{
  Outcome, ok, fault, ◌>>=◌, over_read, out_of_fuel, exit_failure, assert_failed,
}
use qgis_scheduler.Timer.{Timespec, timer_add, timer_stop, timer_isgreaterthan}
use qgis_scheduler.Timer.Laws.{
  IsNormal, nanos, timer_isgreaterthan_iff, timer_add-nanos, timer_add-timer_stop,
}
use qgis_scheduler.Fcgi.Param.{
  Param, Parsed, Written, param_parse, param_list_parse, param_list_write, write_value,
  length_prefix,
}
use qgis_scheduler.Fcgi.Param.RoundTrip.{
  encoded, encoded_all, IsShort, IsRefused, param_list_write_cases, param_parse-param_list_write,
  param_list_parse-encoded_all,
}
use qgis_scheduler.Fcgi.Param.Reads.{
  IsSound as IsSoundRead, param_parse_over_read, param_parse-IsSound, param_parse_no_over_read,
  param_list_parse_ends,
}
use qgis_scheduler.Fcgi.Protocol.{
  MessageType, begin_request, abort_request, end_request, params, stdin, stdout, stderr,
  data_stream, Protocol, storage, in_content,
}
use qgis_scheduler.Fcgi.Message.{Message, message_new, message_parse}
use qgis_scheduler.Fcgi.Message.Whole.{
  Header, bytes_of, announced, received, message_parse-received,
}
use qgis_scheduler.Fcgi.Message.Chunks.{
  feed, message_parse-next, feed-received, message_parse_early, message_parse_split_header,
}
use qgis_scheduler.Fcgi.Build.{new_begin, new_endrequest, new_content, message_write}
use qgis_scheduler.Fcgi.Build.RoundTrip.{
  header_of, message_write-new_content, message_parse-message_write, message_parse-new_begin,
  message_parse-new_endrequest,
}
use qgis_scheduler.Fcgi.Session.{Session, session_new, session_parse}
use qgis_scheduler.Fcgi.Session.States.{IsConsumed, session_parse-IsConsumed}
use qgis_scheduler.Fcgi.Session.Request.{request, answered, messages_of, session_parse-request}

abbrev fcgi_code : MessageType → ℕ
fcgi_code begin_request = 1
fcgi_code abort_request = 2
fcgi_code end_request = 3
fcgi_code params = 4
fcgi_code stdin = 5
fcgi_code stdout = 6
fcgi_code stderr = 7
fcgi_code data_stream = 8

abbrev fcgi_type : ℕ → Option MessageType
fcgi_type n =
    get_or
      (none
        ∷ some begin_request
        ∷ some abort_request
        ∷ some end_request
        ∷ some params
        ∷ some stdin
        ∷ some stdout
        ∷ some stderr
        ∷ some data_stream
        ∷ [])
      n none

fcgi_code-lt : (t : MessageType) → fcgi_code t < 256
fcgi_code-lt begin_request = omega arith
fcgi_code-lt abort_request = omega arith
fcgi_code-lt end_request = omega arith
fcgi_code-lt params = omega arith
fcgi_code-lt stdin = omega arith
fcgi_code-lt stdout = omega arith
fcgi_code-lt stderr = omega arith
fcgi_code-lt data_stream = omega arith

fcgi_type-fcgi_code : (t : MessageType) → fcgi_type (fcgi_code t) ≡ some t
fcgi_type-fcgi_code begin_request = refl
fcgi_type-fcgi_code abort_request = refl
fcgi_type-fcgi_code end_request = refl
fcgi_type-fcgi_code params = refl
fcgi_type-fcgi_code stdin = refl
fcgi_type-fcgi_code stdout = refl
fcgi_type-fcgi_code stderr = refl
fcgi_type-fcgi_code data_stream = refl

abbrev fcgi : Protocol
fcgi = record {
  version_1 = 1;
  code = fcgi_code;
  message_type = fcgi_type;
  version_1-lt = omega arith;
  code-lt = fcgi_code-lt;
  message_type-code = fcgi_type-fcgi_code;
  message_type-zero = refl;
}

-- A=12, BC=3
abbrev pairs : List Param
pairs =
    record { name = 65 ∷ []; value = 49 ∷ 50 ∷ [] }
    ∷ record { name = 66 ∷ 67 ∷ []; value = 51 ∷ [] }
    ∷ []

pairs-IsShort : All IsShort pairs
pairs-IsShort = (omega arith, (omega arith, tt))

session_parse-request_example :
    session_parse fcgi (session_new 0) (request fcgi 7 1 0 pairs)
    ≡ ok (record {
      dataread = length (request fcgi 7 1 0 pairs);
      session = answered fcgi 0 7 1 0 pairs (messages_of fcgi 7 1 0 pairs);
    })
unfolding length_prefix
session_parse-request_example =
    session_parse-request fcgi 0 7 1 0 pairs (omega arith) (omega arith) pairs-IsShort (omega arith)

session_parse-IsConsumed_example :
    IsConsumed
      (session_new 0)
      9
      (session_parse fcgi (session_new 0) (1 ∷ 5 ∷ 0 ∷ 7 ∷ 0 ∷ 0 ∷ 0 ∷ 0 ∷ 1 ∷ []))
session_parse-IsConsumed_example =
    session_parse-IsConsumed fcgi (session_new 0) (1 ∷ 5 ∷ 0 ∷ 7 ∷ 0 ∷ 0 ∷ 0 ∷ 0 ∷ 1 ∷ [])

stdin_in_content : storage stdin ≡ in_content
unfolding storage
stdin_in_content = refl

message_parse-message_write_example :
    (new_content fcgi stdin 7 (1 ∷ 2 ∷ 3 ∷ []) 3 >>= message_write fcgi 64 >>= λ written.
    message_parse fcgi message_new (written ++ (9 ∷ [])))
    ≡ (new_content fcgi stdin 7 (1 ∷ 2 ∷ 3 ∷ []) 3 >>= λ m.
        ok (record { dataread = 11; message = record m { bytes_read = 11 } }))
message_parse-message_write_example =
    message_parse-message_write fcgi stdin 7 (1 ∷ 2 ∷ 3 ∷ []) (9 ∷ []) 64 stdin_in_content
      (omega arith) (omega arith)

-- An input message of twelve bytes.
abbrev twelve : Header
twelve = header_of fcgi stdin 7 12

feed-received_example :
    feed fcgi
      (received twelve (1 ∷ []))
      ((2 ∷ []) ∷ (3 ∷ 4 ∷ 5 ∷ 6 ∷ 7 ∷ 8 ∷ 9 ∷ 10 ∷ 11 ∷ 12 ∷ []) ∷ [])
    ≡ ok (received twelve (1 ∷ 2 ∷ 3 ∷ 4 ∷ 5 ∷ 6 ∷ 7 ∷ 8 ∷ 9 ∷ 10 ∷ 11 ∷ 12 ∷ []))
feed-received_example =
    feed-received fcgi stdin twelve (1 ∷ [])
      ((2 ∷ []) ∷ (3 ∷ 4 ∷ 5 ∷ 6 ∷ 7 ∷ 8 ∷ 9 ∷ 10 ∷ 11 ∷ 12 ∷ []) ∷ []) refl stdin_in_content
      (omega arith, omega arith, (omega arith, omega arith, tt))

message_parse_early_example :
    (m : Message) × (message_parse fcgi message_new (bytes_of twelve ++ (1 ∷ 2 ∷ 3 ∷ 4 ∷ []))
      ≡ ok (record { dataread = 12; message = m }))
    × (m.parse_done ≡ true)
    × (m.content ≡ some ((1 ∷ 2 ∷ 3 ∷ 4 ∷ []) ++ replicate 8 0))
    × (message_parse fcgi m (5 ∷ []) ≡ ok (record { dataread = 0; message = m }))
message_parse_early_example =
    message_parse_early fcgi stdin twelve (1 ∷ 2 ∷ 3 ∷ 4 ∷ []) (5 ∷ []) refl stdin_in_content
      (omega arith) (omega arith)

message_parse_split_header_example :
    (message_parse fcgi message_new (1 ∷ []) >>= λ s.
    message_parse fcgi s.message (5 ∷ 0 ∷ 7 ∷ 0 ∷ 0 ∷ 0 ∷ 0 ∷ []))
    ≡ fault exit_failure
message_parse_split_header_example =
    message_parse_split_header fcgi (1 ∷ []) (5 ∷ 0 ∷ 7 ∷ 0 ∷ 0 ∷ 0 ∷ 0 ∷ []) (omega arith)
      (omega arith) (omega arith)

param_list_write_cases_example :
    ((5 < 5) × IsRefused (param_list_write 5 (65 ∷ []) (49 ∷ 50 ∷ [])))
    ⊎ (((◌≡◌ {A = ℕ} 5 5) × (param_list_write 5 (65 ∷ []) (49 ∷ 50 ∷ []) ≡ fault assert_failed))
        ⊎ ((5 < 5)
            × (param_list_write 5 (65 ∷ []) (49 ∷ 50 ∷ [])
                ≡ ok (record { retval = pos 5; bytes = encoded (65 ∷ []) (49 ∷ 50 ∷ []) }))))
unfolding length_prefix
param_list_write_cases_example = param_list_write_cases 5 (65 ∷ []) (49 ∷ 50 ∷ [])

param_list_parse-encoded_all_example :
    param_list_parse [] (some (encoded_all pairs)) (length (encoded_all pairs)) ≡ ok pairs
param_list_parse-encoded_all_example = param_list_parse-encoded_all pairs [] pairs-IsShort

param_parse-IsSound_example : IsSoundRead 3 (param_parse (1 ∷ 200 ∷ 0 ∷ []) 3)
param_parse-IsSound_example = param_parse-IsSound (1 ∷ 200 ∷ 0 ∷ []) 3

param_parse_over_read_example : param_parse (200 ∷ 1 ∷ []) 2 ≡ fault over_read
param_parse_over_read_example =
    param_parse_over_read 200 (1 ∷ []) (omega arith) (omega arith) (omega arith)

-- 1.5 s and 2.75 s
abbrev early : Timespec
early = record { tv_sec = pos 1; tv_nsec = pos 500000000 }

abbrev late : Timespec
late = record { tv_sec = pos 2; tv_nsec = pos 750000000 }

early-IsNormal : IsNormal early
early-IsNormal = record { nonneg = refl; below = omega arith }

late-IsNormal : IsNormal late
late-IsNormal = record { nonneg = refl; below = omega arith }

timer_add-timer_stop_example :
    IsNormal (timer_stop early (some late)).timer
    × (timer_add early (timer_stop early (some late)).timer ≡ late)
timer_add-timer_stop_example = timer_add-timer_stop early late early-IsNormal late-IsNormal
