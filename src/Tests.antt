-- ===== src/Tests.antt =====
-- The theorems at concrete inputs, over the instance of the byte buffers by plain lists.
mod Discovery
mod Calls
mod Runtime
mod Sockets
mod Pool
mod Framing
use recentip.Prelude.{
  ℕ, ◌+◌, ◌<◌, ◌≤◌, ◌≡◌, ◌≢◌, refl, Bool, true, false, not, List, [], ◌∷◌, ◌++◌, Option, none, some,
  arith, All, IsByte, ◌⊎◌, ◌==◌, ◌&&◌, ◌||◌, leb, if◌then◌else◌, bit_and,
}
use recentip.Buffer.Slice.{slice}
use recentip.Types.ReturnCode
use recentip.Types.ReturnCode.Codes
use recentip.Wire.Version
use recentip.Wire.Version.{InterfaceVersion}
use recentip.Wire.MessageType
use recentip.Wire.MessageType.Flags
use recentip.Wire.Header
use recentip.Wire.Header.{Header, build_someip_message}
use recentip.Wire.Header.Peek
use recentip.Wire.Cookie.{parse_someip_length, is_magic_cookie}
use recentip.Wire.Message
use recentip.Wire.Message.{Message}
use recentip.Wire.Message.RoundTrip as MessageTrip
use recentip.Wire.SdEntry
use recentip.Wire.SdEntry.{SdEntry}
use recentip.Wire.SdEntry.RoundTrip as EntryTrip
use recentip.Wire.SdOption
use recentip.Wire.SdOption.{SdOption, Ipv4Addr, SocketAddrV4, L4Protocol, ipv4_endpoint, unknown}
use recentip.Wire.SdMessage
use recentip.Wire.SdMessage.{SdMessage, options_size, flag_reboot, flag_unicast}
use recentip.Wire.SdMessage.Layout
use recentip.Wire.SdMessage.Fuel
use recentip.Wire.SdMessage.RoundTrip as SdTrip
use recentip.Wire.SdMessage.Endpoint
use recentip.Session.{
  Sessions, PeerSessionState, PeerChannelSession, default_peer, default_channel, sd_flags, send_sd,
  observe,
}
use recentip.Session
use recentip.Session.Counters
use recentip.Session.Counters.{Draw}
use recentip.Session.Reboot
use recentip.Config
use recentip.Config.{Transport, OfferedEndpoints, TransportSelection, MethodConfig}
use recentip.Config.Policy
use recentip.Sd.{ServiceKey, OfferedService}
use recentip.Sd
use recentip.Sd.Build
use recentip.Client
use recentip.Client.{ConnKeyState, Usage}
use recentip.Client.ConnKeys
use recentip.Client.Endpoints

abbrev request_header : Header
request_header = record {
  service_id = 0x1234;
  method_id = 0x0001;
  length = 10;
  client_id = 0x0001;
  session_id = 0x0203;
  protocol_version = 0x01;
  interface_version = 0x01;
  message_type = MessageType.request;
  return_code = ReturnCode.ok;
}

request_header-IsValid : Header.IsValid request_header
request_header-IsValid = omega arith

abbrev request_message : Message
request_message = record { header = request_header; payload = 0xaa ∷ 0xbb ∷ [] }

request_message-IsValid : MessageTrip.IsValid request_message
request_message-IsValid = record { header_valid = request_header-IsValid; length_payload = refl }

abbrev request_bytes : List ℕ
request_bytes =
    0x12 ∷ 0x34 ∷ 0x00 ∷ 0x01 ∷ 0x00 ∷ 0x00 ∷ 0x00 ∷ 0x0a ∷ 0x00 ∷ 0x01 ∷ 0x02 ∷ 0x03 ∷ 0x01 ∷ 0x01
    ∷ 0x00 ∷ 0x00 ∷ 0xaa ∷ 0xbb ∷ 0x77 ∷ []

request_bytes-IsByte : All IsByte request_bytes
request_bytes-IsByte = omega arith

parse_request : Message.parse request_bytes ≡ some (request_message, 0x77 ∷ [])
unfolding Message.parse Header.parse Header.payload_length MessageType.from_u8 ReturnCode.from_u8
parse_request = refl

parse_exact_example :
    MessageTrip.IsValid request_message
    × (Message.serialize request_message ++ 0x77 ∷ [] ≡ request_bytes)
parse_exact_example =
    MessageTrip.parse_exact request_bytes request_message (0x77 ∷ []) request_bytes-IsByte
      parse_request

abbrev host : Ipv4Addr
host = record { a = 192; b = 168; c = 0; d = 7 }

abbrev offer_entry : SdEntry
offer_entry = record {
  entry_type = SdEntry.offer_service;
  service_id = 0x1234;
  instance_id = 0x0001;
  major_version = 1;
  ttl = 3600;
  minor_version = 2;
  eventgroup_id = 0;
  counter = 0;
  index_1st_option = 0;
  index_2nd_option = 1;
  num_options_1 = 1;
  num_options_2 = 1;
}

abbrev offer : SdMessage
offer = record {
  flags = 0xc0;
  entries = offer_entry ∷ offer_entry ∷ [];
  options = unknown 0x01 (0x00 ∷ []) ∷ ipv4_endpoint host 30509 L4Protocol.udp ∷ [];
}

offer_entry-IsValid : EntryTrip.IsValid offer_entry
offer_entry-IsValid = omega arith

offer-IsValid : Layout.IsValid offer
unfolding options_size SdOption.size
offer-IsValid = record {
  flags_u8 = omega arith;
  entries_valid = (offer_entry-IsValid, (offer_entry-IsValid, tt));
  options_valid = ((omega arith, ground arith, ground arith, omega arith), (omega arith, tt));
  entries_len_u32 = omega arith;
  options_len_u32 = omega arith;
}

parse-serialize_payload_example :
    SdMessage.parse (SdMessage.serialize_payload offer ++ 0x55 ∷ []) ≡ some offer
parse-serialize_payload_example = SdTrip.parse-serialize_payload offer (0x55 ∷ []) offer-IsValid

get_endpoint-first_example :
    Endpoint.get_endpoint_with_protocol offer offer_entry L4Protocol.udp
    ≡ Endpoint.first_endpoint L4Protocol.udp (Endpoint.referenced offer offer_entry)
get_endpoint-first_example = Endpoint.get_endpoint-first offer offer_entry L4Protocol.udp

is_valid_response_to_eq_example :
    MessageType.is_valid_response_to MessageType.response MessageType.request ≡ (
      MessageType.expects_response MessageType.request
      && (MessageType.is_response MessageType.response
          && Flags.same_flag
              (MessageType.is_tp MessageType.response)
              (MessageType.is_tp MessageType.request)))
is_valid_response_to_eq_example =
    Flags.is_valid_response_to_eq MessageType.response MessageType.request

abbrev service_error : ReturnCode.ApplicationError
service_error = ReturnCode.app_service_specific (record { value = 0x25 })

service_error_built : ReturnCode.application_service_specific 0x25 ≡ some service_error
unfolding ReturnCode.application_service_specific
service_error_built = refl

abbrev older : InterfaceVersion
older = record { major = 1; minor = 2 }

abbrev newer : InterfaceVersion
newer = record { major = 1; minor = 5 }
