-- ===== src/Tests/Framing.antt =====
-- The theorems on framing at concrete inputs.
use recentip.Prelude.{ℕ, ◌≡◌, refl, true, false, List, [], ◌∷◌, ◌++◌, map, arith}
use recentip.Buffer.Slice.{slice}
use recentip.Types.ReturnCode
use recentip.Wire.MessageType
use recentip.Wire.Header
use recentip.Wire.Header.{Header}
use recentip.Wire.Cookie.{magic_cookie_client}
use recentip.Wire.Message
use recentip.Wire.Message.{Message}
use recentip.Framing.{read, reads, write}
use recentip.Framing.Segments
use recentip.Framing.Delivery

abbrev call : Message
call = record {
  header = record {
    service_id = 0x1234;
    method_id = 0x0001;
    length = 9;
    client_id = 0x0001;
    session_id = 0x0203;
    protocol_version = 0x01;
    interface_version = 0x01;
    message_type = MessageType.request;
    return_code = ReturnCode.ok;
  };
  payload = 0xaa ∷ [];
}

call-Deliverable : Delivery.Deliverable call
call-Deliverable = record {
  valid = record { header_valid = omega arith; length_payload = refl };
  no_cookie = refl;
}

-- A first read that ends within the cookie, and a second one with the rest.
abbrev first_read : List ℕ
first_read = 0xff ∷ 0xff ∷ 0x00 ∷ []

abbrev second_read : List ℕ
second_read =
    0x00 ∷ 0x00 ∷ 0x00 ∷ 0x00 ∷ 0x08 ∷ 0xde ∷ 0xad ∷ 0xbe ∷ 0xef ∷ 0x01 ∷ 0x01 ∷ 0x01 ∷ 0x00 ∷ 0x12
    ∷ 0x34 ∷ 0x00 ∷ 0x01 ∷ 0x00 ∷ 0x00 ∷ 0x00 ∷ 0x09 ∷ 0x00 ∷ 0x01 ∷ 0x02 ∷ 0x03 ∷ 0x01 ∷ 0x01
    ∷ 0x00 ∷ 0x00 ∷ 0xaa ∷ []

reads_call :
    first_read ++ Segments.concat (second_read ∷ []) ≡ Delivery.stream true false (call ∷ [])
unfolding Delivery.stream Delivery.cookie_of write magic_cookie_client Message.serialize
    Header.serialize MessageType.as_u8 ReturnCode.as_u8
reads_call = refl

reads-stream_example :
    reads [] (first_read ∷ second_read ∷ []) ≡ (map Message.serialize (call ∷ []), [])
reads-stream_example =
    Delivery.reads-stream true false (call ∷ []) first_read (second_read ∷ [])
      (call-Deliverable, tt) reads_call

reads-segments_example :
    reads [] (first_read ∷ second_read ∷ [])
    ≡ read [] (first_read ++ Segments.concat (second_read ∷ []))
reads-segments_example = Segments.reads-segments [] first_read (second_read ∷ [])
