-- ===== src/Framing/Delivery.antt =====
-- Messages that are written to a connection are passed on at its other end.
use recentip.Prelude.{
  ℕ, suc, ap, ◌+◌, ◌≤◌, ◌≡◌, refl, ◌∙◌, ◌==◌, ◌&&◌, ◌||◌, Bool, true, false, List, [], ◌∷◌, ◌++◌,
  append_assoc, some, map, length, length-append, take-append, drop-append, arith, All,
}
use recentip.Buffer.{ByteBuffer}
use recentip.Wire.Cookie.{
  is_magic_cookie, parse_someip_length, magic_cookie_client, magic_cookie_server,
}
use recentip.Wire.Header.RoundTrip.{u32_digits}
use recentip.Wire.Header.Peek.{peek_method}
use recentip.Wire.Message.{Message, serialize}
use recentip.Wire.Message.RoundTrip.{IsValid, serialize-message_bytes}
use recentip.Framing.{read, reads, write}
use recentip.Framing.Segments.{emit, drain-frame, drain_enough, concat, reads-segments}

-- A valid message that does not look like a Magic Cookie.
pub record Deliverable (m : Message) : Type 0 where
  pub valid : IsValid m
  pub no_cookie :
      (m.header.service_id == 0xffff
        && (m.header.method_id == 0x0000 || m.header.method_id == 0x8000))
      ≡ false

-- The cookie of the side that writes.
unfoldable pub cookie_of : (server : Bool) → List ℕ
unfolding magic_cookie_client magic_cookie_server
cookie_of true = magic_cookie_server
cookie_of false = magic_cookie_client

read-frame :
    (f rest : List ℕ) (len : ℕ)
    → parse_someip_length (f ++ rest) ≡ some len
    → length f ≡ 8 + len
    → 8 ≤ len
    → read [] (f ++ rest) ≡ emit (is_magic_cookie (f ++ rest)) f (read [] rest)
unfolding read
read-frame f rest len good size long =
    drain_enough (length (f ++ rest)) (suc (length (f ++ rest))) (f ++ rest) (omega arith)
      (omega arith)
    ∙ drain-frame (length (f ++ rest)) (f ++ rest) len (omega (arith, length-append f rest)) good
        (omega (arith, length-append f rest))
    ∙ rw (
      ← size,
      take-append f rest,
      drop-append f rest,
      drain_enough (length (f ++ rest)) (length rest) rest (omega (arith, length-append f rest))
          (omega arith),
    )

read-cookie : (server : Bool) (rest : List ℕ) → read [] (cookie_of server ++ rest) ≡ read [] rest
unfolding cookie_of parse_someip_length is_magic_cookie
read-cookie true rest = read-frame (cookie_of true) rest 8 refl refl (omega arith)
read-cookie false rest = read-frame (cookie_of false) rest 8 refl refl (omega arith)

module _ ⦃bytes : ByteBuffer⦄ where
  -- What a connection writes for a list of messages.
  unfoldable pub stream : (magic_cookies server : Bool) → List Message → List ℕ
  unfolding write
  stream magic_cookies server [] = []
  stream magic_cookies server (m ∷ ms) =
      write magic_cookies (cookie_of server) (serialize m) ++ stream magic_cookies server ms

  length-serialize : (m : Message) → IsValid m → length (serialize m) ≡ 8 + m.header.length
  length-serialize m v = omega (
    arith,
    ap length (serialize-message_bytes m [] v),
    length-append (serialize m) [],
    length-append m.payload [],
    v.length_payload,
  )

  peek_message :
      (m : Message) (rest : List ℕ)
      → Deliverable m
      → (parse_someip_length (serialize m ++ rest) ≡ some m.header.length)
        × (is_magic_cookie (serialize m ++ rest) ≡ false)
  unfolding parse_someip_length is_magic_cookie
  peek_message m rest d = rw (serialize-message_bytes m rest d.valid) (
    rw (u32_digits m.header.length),
    peek_method m.header.service_id m.header.method_id d.valid.header_valid.service_id_u16
          d.valid.header_valid.method_id_u16
        ∙ d.no_cookie,
  )

  read-message :
      (m : Message) (rest : List ℕ)
      → Deliverable m
      → read [] (serialize m ++ rest) ≡ emit false (serialize m) (read [] rest)
  read-message m rest d =
      let (good, other) = peek_message m rest d in
      rw other at (
        read-frame (serialize m) rest m.header.length good (length-serialize m d.valid)
          d.valid.header_valid.length_tail)

  read-stream :
      (magic_cookies server : Bool) (ms : List Message)
      → All Deliverable ms
      → read [] (stream magic_cookies server ms) ≡ (map serialize ms, [])
  unfolding write stream
  read-stream magic_cookies server [] d = unfold read in refl
  read-stream true server (m ∷ ms) d = rw (
    append_assoc (cookie_of server) (serialize m) (stream true server ms),
    read-cookie server,
    read-message m (stream true server ms) d.0,
    read-stream true server ms d.1,
  )
  read-stream false server (m ∷ ms) d =
      rw (read-message m (stream false server ms) d.0, read-stream false server ms d.1)

  -- Messages that one side writes, with Magic Cookies or without, are passed on by the other side's
  -- reader: all of them, in order, with their bytes unchanged and nothing left over, however the
  -- stream is cut into reads; if they are valid and none has the ids of a Magic Cookie.
  pub reads-stream :
      (magic_cookies server : Bool) (ms : List Message) (c : List ℕ) (cs : List (List ℕ))
      → All Deliverable ms
      → c ++ concat cs ≡ stream magic_cookies server ms
      → reads [] (c ∷ cs) ≡ (map serialize ms, [])
  reads-stream magic_cookies server ms c cs d e =
      reads-segments [] c cs ∙ rw e (read-stream magic_cookies server ms d)
