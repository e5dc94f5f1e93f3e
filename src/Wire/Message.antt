-- ===== src/Wire/Message.antt =====
-- src/wire.rs: `Message`, a header with its payload.
pub mod RoundTrip
use recentip.Prelude.{ℕ, ◌+◌, ltb, if◌then◌else◌, List, Option, none, some, length, ◌>>=◌}
use recentip.Buffer.{ByteBuffer}
use recentip.Wire.Header
use recentip.Wire.Header.{Header, header_size, payload_length}

pub record Message : Type 0 where
  pub header : Header
  pub payload : List ℕ

module _ ⦃bytes : ByteBuffer⦄ where
  open bytes use {remaining, copy_to_bytes, with_capacity, extend_from_slice, freeze}

  unfoldable pub parse : List ℕ → Option (Message × List ℕ)
  parse b0 = Header.parse b0 >>= λ (header, b1).
      let payload_len = payload_length header in
      if ltb (remaining b1) payload_len
      then none
      else (let (payload, b2) = copy_to_bytes payload_len b1 in
          some (record { header = header; payload = payload }, b2))

  unfoldable pub serialize : Message → List ℕ
  serialize self =
      let buf = with_capacity (header_size + length self.payload) in
      freeze (extend_from_slice (Header.serialize self.header buf) self.payload)
