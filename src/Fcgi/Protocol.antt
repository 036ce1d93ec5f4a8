-- ===== src/Fcgi/Protocol.antt =====
-- What fcgi_state.c takes from <fastcgi.h>, which is not part of the repository: the numbers of the
-- record types and of the version. A development over them is given any numbers that are distinct,
-- fit a byte and are not 0. The places of the fields are those of the FastCGI 1.0 records:
-- version, type, requestIdB1, requestIdB0, contentLengthB1, contentLengthB0, paddingLength,
-- reserved; roleB1, roleB0, flags; appStatusB3 to appStatusB0, protocolStatus.
use qgis_scheduler.Prelude.{ℕ, ◌<◌, ◌≡◌, Option, none, some}

-- The cases of the source's switch statements.
pub data MessageType : Type 0 where
  begin_request abort_request end_request : MessageType
  params stdin stdout stderr data_stream : MessageType

pub record Protocol : Type 0 where
  pub version_1 : ℕ
  pub code : MessageType → ℕ
  -- The case that a switch over a type byte takes; `none` is its default.
  pub message_type : ℕ → Option MessageType
  pub version_1-lt : version_1 < 256
  pub code-lt : (t : MessageType) → code t < 256
  pub message_type-code : (t : MessageType) → message_type (code t) ≡ some t
  pub message_type-zero : message_type 0 ≡ none

-- Types whose content is kept in allocated memory.
pub data Storage : Type 0 where
  in_body : Storage
  no_content : Storage
  in_content : Storage

unfoldable pub storage : MessageType → Storage
storage begin_request = in_body
storage end_request = in_body
storage abort_request = no_content
storage params = in_content
storage stdin = in_content
storage stdout = in_content
storage stderr = in_content
storage data_stream = in_content
