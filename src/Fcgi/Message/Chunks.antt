-- ===== src/Fcgi/Message/Chunks.antt =====
-- fcgi_message_parse() on a message that comes in several chunks.
use qgis_scheduler.Prelude.{
  ℕ, suc, ◌+◌, ◌-◌, ◌≤◌, ◌<◌, ◌≡◌, ◌⊎◌, refl, ap, true, false, some, none, List, [], ◌∷◌, ◌++◌,
  arith, Bytes, length, take, inl, append-nil, take-all, append_assoc, length-append, ◌==◌,
  if◌then◌else◌, replicate,
}
use qgis_scheduler.Outcome.{Outcome, ok, fault, over_write, exit_failure, ◌>>=◌}
use qgis_scheduler.Fcgi.Protocol.{Protocol, MessageType, in_content, storage}
use qgis_scheduler.Fcgi.Message.{
  Message, message_new, message_parse, parse_header, parse_body, parse_rest, header_done, allocate,
  write_header, write_at, min_ℕ,
}
use qgis_scheduler.Fcgi.Message.Whole.{
  Header, bytes_of, announced, received, parse_in_content-received, message_parse-received,
}

-- The next chunk of a content of which more than eight bytes are missing.
pub message_parse-next :
    (p : Protocol) (t : MessageType) (h : Header) (front back rest : Bytes)
    → p.message_type h.type ≡ some t
    → storage t ≡ in_content
    → 8 + length front < announced h
    → length front + length back ≤ announced h
    → (rest ≡ []) ⊎ (length front + length back ≡ announced h)
    → message_parse p (received h front) (back ++ rest)
      ≡ ok (record { dataread = length back; message = received h (front ++ back) })
unfolding message_parse parse_body parse_rest
message_parse-next p t h front back rest e s k m r =
    ground (arith, parse_in_content-received h front back rest 0)

-- A caller that hands one chunk after the other to the message.
pub feed : Protocol → Message → List Bytes → Outcome Message
feed p m [] = ok m
feed p m (c ∷ cs) = message_parse p m c >>= λ s. feed p s.message cs

abbrev pub joined : List Bytes → Bytes
joined [] = []
joined (c ∷ cs) = c ++ joined cs

-- Behind `n` bytes of content, no chunk ends within the last eight bytes but the one that ends it.
abbrev pub InTime : Header → ℕ → List Bytes → Type 0
InTime h n [] = Unit {0}
InTime h n (c ∷ cs) =
    (8 + n < announced h) × (n + length c ≤ announced h) × InTime h (n + length c) cs

-- However a content is cut into chunks, the message holds what was sent, in order, as long as no
-- chunk but the last ends within the last eight bytes.
pub feed-received :
    (p : Protocol) (t : MessageType) (h : Header) (front : Bytes) (cs : List Bytes)
    → p.message_type h.type ≡ some t
    → storage t ≡ in_content
    → InTime h (length front) cs
    → feed p (received h front) cs ≡ ok (received h (front ++ joined cs))
unfolding feed
feed-received p t h front [] e s i = rw append-nil
feed-received p t h front (c ∷ cs) e s i =
    let next = message_parse-next p t h front c [] e s i.0 i.1 (inl refl) in
    let more : InTime h (length (front ++ c)) cs = rw (length-append front c) i.2 in
    rw (rw append-nil at next, ← append_assoc front c (joined cs))
      (feed-received p t h (front ++ c) cs e s more)

-- A message is closed too early: when a chunk ends within the last eight bytes of the content, the
-- message counts as done with zero bytes in place of those that are missing, and takes no further
-- byte from the next chunk.
pub message_parse_early :
    (p : Protocol) (t : MessageType) (h : Header) (front next : Bytes)
    → p.message_type h.type ≡ some t
    → storage t ≡ in_content
    → length front < announced h
    → announced h ≤ 8 + length front
    → (m : Message) × (message_parse p message_new (bytes_of h ++ front)
        ≡ ok (record { dataread = 8 + length front; message = m }))
      × (m.parse_done ≡ true)
      × (m.content ≡ some (front ++ replicate (announced h - length front) 0))
      × (message_parse p m next ≡ ok (record { dataread = 0; message = m }))
unfolding message_parse
message_parse_early p t h front next e s k m = (
  received h front,
  rw append-nil at (message_parse-received p t h front [] e s (omega arith) (inl refl)),
  ground arith,
  ground arith,
  ground arith,
)

-- The message after less than a header.
abbrev begun : Bytes → Message
begun first = record {
  bytes_read = length first;
  content_length = 0;
  parse_header_done = false;
  parse_done = false;
  store = write_at 0 first (replicate 16 0);
  content = none;
}

message_parse-begun :
    (p : Protocol) (b : ℕ) (first : Bytes)
    → length (b ∷ first) < 8
    → message_parse p message_new (b ∷ first)
      ≡ ok (record { dataread = length (b ∷ first); message = begun (b ∷ first) })
unfolding message_parse parse_header write_header message_new
message_parse-begun p b first k =
    let n : min_ℕ (length (b ∷ first)) 8 ≡ length (b ∷ first) = ground arith in
    rw (n, parse_header) (ground (arith, take-all (length (b ∷ first)) (b ∷ first)))

second_chunk_faults :
    (p : Protocol) (m : Message) (c : ℕ) (second : Bytes)
    → m.parse_done ≡ false
    → 2 ≤ m.bytes_read
    → m.bytes_read < 8
    → message_parse p m (c ∷ second) ≡ fault over_write
unfolding message_parse parse_header write_header
second_chunk_faults p m c second d h k =
    let n = min_ℕ (length (c ∷ second)) (8 - m.bytes_read) in
    let positive : n ≡ suc (n - 1) = ground arith in
    ground (arith, ap (λ i. write_header m (take i (c ∷ second))) positive)

one_byte_exits :
    (p : Protocol) (a b0 b1 b2 b3 b4 b5 b6 : ℕ) (rest : Bytes)
    → message_parse p (begun (a ∷ [])) (b0 ∷ b1 ∷ b2 ∷ b3 ∷ b4 ∷ b5 ∷ b6 ∷ rest)
      ≡ fault exit_failure
unfolding message_parse parse_header write_header header_done allocate write_at
one_byte_exits p a b0 b1 b2 b3 b4 b5 b6 rest =
    let n : min_ℕ (length (b0 ∷ b1 ∷ b2 ∷ b3 ∷ b4 ∷ b5 ∷ b6 ∷ rest)) 7 ≡ 7 = ground arith in
    rw (n, parse_header) (rw p.message_type-zero)

-- A header that comes in two chunks is not put together: of the second chunk nothing is stored
-- right. If the first has one byte, the type byte stays 0 and the program exits once eight bytes
-- are there; if it has more, the copy goes behind the header and the body, over the members that
-- follow them and the memory behind the message.
pub message_parse_split_header :
    (p : Protocol) (first second : Bytes)
    → 1 ≤ length first
    → length first < 8
    → 8 ≤ length first + length second
    → (message_parse p message_new first >>= λ s. message_parse p s.message second)
      ≡ fault (if length first == 1 then exit_failure else over_write)
message_parse_split_header p [] second h k m = absurd (omega arith)
message_parse_split_header p (a ∷ []) (b0 ∷ b1 ∷ b2 ∷ b3 ∷ b4 ∷ b5 ∷ b6 ∷ rest) h k m =
    rw message_parse-begun (one_byte_exits p a b0 b1 b2 b3 b4 b5 b6 rest)
message_parse_split_header p (a ∷ []) second h k m = absurd (omega arith)
message_parse_split_header p (a ∷ b ∷ first) [] h k m = absurd (omega arith)
message_parse_split_header p (a ∷ b ∷ first) (c ∷ second) h k m = ground (
  arith,
  message_parse-begun p a (b ∷ first) k,
  second_chunk_faults p (begun (a ∷ b ∷ first)) c second refl (omega arith) k,
)
