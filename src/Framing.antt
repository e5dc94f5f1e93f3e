-- ===== src/Framing.antt =====
-- src/tcp.rs: how a connection's reader cuts its buffer into messages, and what its writer sends. The
-- client's and the server's connection handler have the same loop.
pub mod Segments
pub mod Delivery
use recentip.Prelude.{
  ℕ, zero, suc, ◌+◌, Bool, true, false, ltb, leb, if◌then◌else◌, List, [], ◌∷◌, ◌++◌, none, some,
  length, take, drop,
}
use recentip.Wire.Cookie.{is_magic_cookie, parse_someip_length}
use recentip.Wire.Header.{header_size}

-- `while read_buffer.len() >= Header::SIZE`: the messages that are passed on, and the buffer that is
-- left. The receiver of the messages is open. The fuel bounds the rounds.
unfoldable pub drain : (fuel : ℕ) → (read_buffer : List ℕ) → List (List ℕ) × List ℕ
drain zero read_buffer = ([], read_buffer)
drain (suc fuel) read_buffer =
    if ltb (length read_buffer) header_size
    then ([], read_buffer)
    else elim (parse_someip_length read_buffer) [
      | none ↦ ([], read_buffer)
      | some len ↦
          let total_size = 8 + len in
          let (messages, left) = drain fuel (drop total_size read_buffer) in
          if is_magic_cookie read_buffer
          then if leb total_size (length read_buffer) then (messages, left) else ([], read_buffer)
          else if leb total_size (length read_buffer)
          then (take total_size read_buffer ∷ messages, left)
          else ([], read_buffer)
    ]

-- One `Ok(n)` of a read: the received bytes go to the end of the buffer, which is then drained. Each
-- round takes bytes away, so their number is enough fuel.
unfoldable pub read : (read_buffer received : List ℕ) → List (List ℕ) × List ℕ
unfolding drain
read read_buffer received = let buffer = read_buffer ++ received in drain (length buffer) buffer

-- The reads of a connection, in order: all messages that are passed on, and the buffer at the end.
unfoldable pub reads : (read_buffer : List ℕ) → List (List ℕ) → List (List ℕ) × List ℕ
unfolding read
reads read_buffer [] = ([], read_buffer)
reads read_buffer (received ∷ later) =
    let (messages, left) = read read_buffer received in
    let (messages', left') = reads left later in (messages ++ messages', left')

-- The bytes that a connection writes for one message, with a Magic Cookie before it if enabled.
unfoldable pub write : (magic_cookies : Bool) → (cookie message : List ℕ) → List ℕ
write true cookie message = cookie ++ message
write false cookie message = message
