-- ===== src/Wire/SdMessage/Endpoint.antt =====
-- src/wire.rs: the search for an endpoint option in an entry's two runs of options.
use recentip.Prelude.{
  ℕ, zero, suc, ◌≡◌, refl, Bool, true, false, if◌then◌else◌, List, [], ◌∷◌, ◌++◌, Option, none,
  some, get_elem?, take, drop, arith, ◌∙◌,
}
use recentip.Wire.SdEntry.{SdEntry}
use recentip.Wire.SdOption.{
  SdOption, SocketAddrV4, L4Protocol, tcp, udp, ipv4_endpoint, ipv4_multicast, unknown,
}
use recentip.Wire.SdMessage.{SdMessage}

-- The derived `PartialEq`.
abbrev pub protocol_eq : L4Protocol → L4Protocol → Bool
protocol_eq tcp tcp = true
protocol_eq udp udp = true
protocol_eq _ _ = false

-- The body of the loops: an IPv4 endpoint option of the protocol that is looked for.
unfoldable pub endpoint_of : L4Protocol → Option SdOption → Option SocketAddrV4
endpoint_of target (some (ipv4_endpoint addr port protocol)) =
    if protocol_eq protocol target then some (record { ip = addr; port = port }) else none
endpoint_of target (some (ipv4_multicast addr port)) = none
endpoint_of target (some (unknown option_type content)) = none
endpoint_of target none = none

-- `for i in start..(start + count)`, by the rounds left.
unfoldable pub scan_run : List SdOption → L4Protocol → (start count : ℕ) → Option SocketAddrV4
unfolding endpoint_of
scan_run options target start zero = none
scan_run options target start (suc count) = elim (endpoint_of target (get_elem? options start)) [
  | some found ↦ some found
  | none ↦ scan_run options target (suc start) count
]

unfoldable pub get_endpoint_with_protocol : SdMessage → SdEntry → L4Protocol → Option SocketAddrV4
get_endpoint_with_protocol self entry target =
    elim (scan_run self.options target entry.index_1st_option entry.num_options_1) [
      | some found ↦ some found
      | none ↦ scan_run self.options target entry.index_2nd_option entry.num_options_2
    ]

unfoldable pub get_udp_endpoint : SdMessage → SdEntry → Option SocketAddrV4
get_udp_endpoint self entry = get_endpoint_with_protocol self entry udp

unfoldable pub get_tcp_endpoint : SdMessage → SdEntry → Option SocketAddrV4
get_tcp_endpoint self entry = get_endpoint_with_protocol self entry tcp

-- The specification: the options that an entry refers to, and the first endpoint among them.
abbrev pub run : List SdOption → (start count : ℕ) → List SdOption
run options start count = take count (drop start options)

abbrev pub referenced : SdMessage → SdEntry → List SdOption
referenced m e =
    run m.options e.index_1st_option e.num_options_1
    ++ run m.options e.index_2nd_option e.num_options_2

abbrev pub first_endpoint : L4Protocol → List SdOption → Option SocketAddrV4
first_endpoint target [] = none
first_endpoint target (ipv4_endpoint addr port protocol ∷ os) =
    if protocol_eq protocol target
    then some (record { ip = addr; port = port })
    else first_endpoint target os
first_endpoint target (ipv4_multicast addr port ∷ os) = first_endpoint target os
first_endpoint target (unknown option_type content ∷ os) = first_endpoint target os

first_endpoint-cons :
    (target : L4Protocol) (o : SdOption) (os : List SdOption)
    → first_endpoint target (o ∷ os) ≡ (elim (endpoint_of target (some o)) [
      | some found ↦ some found
      | none ↦ first_endpoint target os
    ])
unfolding endpoint_of
first_endpoint-cons target o os = ground arith

first_endpoint-append :
    (target : L4Protocol) (xs ys : List SdOption)
    → first_endpoint target (xs ++ ys) ≡ (elim (first_endpoint target xs) [
      | some found ↦ some found
      | none ↦ first_endpoint target ys
    ])
first_endpoint-append target [] ys = refl
first_endpoint-append target (o ∷ xs) ys = ground (arith, first_endpoint-append target xs ys)

-- A run past the end of the options refers to none.
scan_run-beyond : (target : L4Protocol) (start count : ℕ) → scan_run [] target start count ≡ none
unfolding scan_run
scan_run-beyond target start zero = refl
scan_run-beyond target start (suc count) = scan_run-beyond target (suc start) count

scan_run-cons :
    (o : SdOption) (os : List SdOption) (target : L4Protocol) (start count : ℕ)
    → scan_run (o ∷ os) target (suc start) count ≡ scan_run os target start count
unfolding scan_run
scan_run-cons o os target start zero = refl
scan_run-cons o os target start (suc count) =
    ground (arith, scan_run-cons o os target (suc start) count)

scan_run-first :
    (os : List SdOption) (target : L4Protocol) (start count : ℕ)
    → scan_run os target start count ≡ first_endpoint target (run os start count)
unfolding scan_run
scan_run-first [] target zero zero = refl
scan_run-first [] target zero (suc count) = scan_run-beyond target 1 count
scan_run-first [] target (suc start) zero = refl
scan_run-first [] target (suc start) (suc count) = scan_run-beyond target (suc (suc start)) count
scan_run-first (o ∷ os) target zero zero = refl
scan_run-first (o ∷ os) target zero (suc count) = ground (
  arith,
  first_endpoint-cons target o (take count os),
  scan_run-cons o os target zero count,
  scan_run-first os target zero count,
)
scan_run-first (o ∷ os) target (suc start) count =
    scan_run-cons o os target start count ∙ scan_run-first os target start count

-- The endpoint that the search finds for an entry is the first IPv4 endpoint of the protocol among
-- the options that the entry's two runs refer to, the first run before the second; indices past
-- the end of the options refer to nothing.
pub get_endpoint-first :
    (m : SdMessage) (e : SdEntry) (target : L4Protocol)
    → get_endpoint_with_protocol m e target ≡ first_endpoint target (referenced m e)
unfolding get_endpoint_with_protocol
get_endpoint-first m e target = ground (
  arith,
  scan_run-first m.options target e.index_1st_option e.num_options_1,
  scan_run-first m.options target e.index_2nd_option e.num_options_2,
  first_endpoint-append target (run m.options e.index_1st_option e.num_options_1)
      (run m.options e.index_2nd_option e.num_options_2),
)
