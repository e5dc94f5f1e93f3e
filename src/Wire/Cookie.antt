-- ===== src/Wire/Cookie.antt =====
-- src/wire.rs: Magic Cookies and the length field.
use recentip.Prelude.{ℕ, ◌+◌, ◌*◌, ◌==◌, ◌&&◌, ◌||◌, Bool, false, List, [], ◌∷◌, Option, none, some}

unfoldable pub magic_cookie_client : List ℕ
magic_cookie_client =
    0xff ∷ 0xff ∷ 0x00 ∷ 0x00 ∷ 0x00 ∷ 0x00 ∷ 0x00 ∷ 0x08 ∷ 0xde ∷ 0xad ∷ 0xbe ∷ 0xef ∷ 0x01 ∷ 0x01
    ∷ 0x01 ∷ 0x00 ∷ []

unfoldable pub magic_cookie_server : List ℕ
magic_cookie_server =
    0xff ∷ 0xff ∷ 0x80 ∷ 0x00 ∷ 0x00 ∷ 0x00 ∷ 0x00 ∷ 0x08 ∷ 0xde ∷ 0xad ∷ 0xbe ∷ 0xef ∷ 0x01 ∷ 0x01
    ∷ 0x01 ∷ 0x00 ∷ []

-- The pattern `[0xFF, 0xFF, 0x00 | 0x80, 0x00]` on the first four bytes, if there are four.
unfoldable pub is_magic_cookie : List ℕ → Bool
is_magic_cookie (a ∷ b ∷ c ∷ d ∷ _) =
    a == 0xff && b == 0xff && (c == 0x00 || c == 0x80) && d == 0x00
is_magic_cookie _ = false

-- `data.get(4..8)` as a big-endian u32.
unfoldable pub parse_someip_length : List ℕ → Option ℕ
parse_someip_length (_ ∷ _ ∷ _ ∷ _ ∷ x ∷ y ∷ z ∷ w ∷ _) =
    some (x * 16777216 + y * 65536 + z * 256 + w)
parse_someip_length _ = none
