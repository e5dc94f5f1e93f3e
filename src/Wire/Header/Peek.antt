-- ===== src/Wire/Header/Peek.antt =====
-- What the reader of a stream sees of a message before it parses it: the length field at its offset,
-- and whether it is a Magic Cookie.
use recentip.Prelude.{ℕ, ◌/◌, ◌%◌, ◌<◌, ◌≡◌, ◌==◌, ◌&&◌, ◌||◌, List, [], ◌++◌, some, arith}
use recentip.Buffer.{ByteBuffer}
use recentip.Wire.Cookie.{is_magic_cookie, parse_someip_length}
use recentip.Wire.Header.{Header, IsValid, serialize}
use recentip.Wire.Header.RoundTrip.{serialize-header_bytes, u32_digits}

pub peek_method :
    (s m : ℕ)
    → s < 65536
    → m < 65536
    → (s / 256 == 0xff
        && s % 256 == 0xff
        && (m / 256 == 0x00 || m / 256 == 0x80)
        && m % 256 == 0x00)
      ≡ (s == 0xffff && (m == 0x0000 || m == 0x8000))
peek_method s m hs hm = ground arith

module _ ⦃bytes : ByteBuffer⦄ where
  -- From the bytes of a valid message the length field is read at its offset, and the bytes are
  -- taken for a Magic Cookie exactly if the service id is 0xFFFF and the method id 0x0000 or 0x8000.
  peek-serialize :
      (h : Header) (rest : List ℕ)
      → IsValid h
      → (parse_someip_length (serialize h [] ++ rest) ≡ some h.length)
        × (is_magic_cookie (serialize h [] ++ rest)
            ≡ (h.service_id == 0xffff && (h.method_id == 0x0000 || h.method_id == 0x8000)))
  unfolding is_magic_cookie parse_someip_length
  peek-serialize h rest v = rw (serialize-header_bytes h [] v) (
    rw (u32_digits h.length),
    peek_method h.service_id h.method_id v.service_id_u16 v.method_id_u16,
  )
