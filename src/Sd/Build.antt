-- ===== src/Sd/Build.antt =====
-- The endpoints that a receiver finds in the built messages.
use recentip.Prelude.{
  Bool, ℕ, ◌≡◌, refl, List, [], ◌∷◌, ◌++◌, Option, none, some, All, map, append_assoc, append-nil,
  ap, ◌∙◌,
}
use recentip.Config.{MethodConfig, Transport, tcp, udp}
use recentip.Wire.SdEntry.{SdEntry, SdEntryType}
use recentip.Wire.SdOption.{SocketAddrV4, Ipv4Addr, ipv4_endpoint}
use recentip.Wire.SdMessage.{SdMessage}
use recentip.Wire.SdMessage.Endpoint.{
  get_udp_endpoint, get_tcp_endpoint, get_endpoint_with_protocol, scan_run,
}
use recentip.Sd.{
  ServiceKey, OfferedService, build_offer_message, build_subscribe_message_multi, protocol_of,
  add_subscribe_entries, build_unsubscribe_message_multi,
}

abbrev pub advertised : Ipv4Addr → Option SocketAddrV4 → Option SocketAddrV4
advertised ip none = none
advertised ip (some ep) = some (record { ip = ip; port = ep.port })

-- What a receiver finds for the one entry of an offer.
abbrev pub OffersAt : SdMessage → ServiceKey → OfferedService → (ttl : ℕ) → Ipv4Addr → Type 0
OffersAt m key o ttl ip =
    (e : SdEntry) × (m.entries ≡ e ∷ [])
    × (e.service_id ≡ key.service_id)
    × (e.instance_id ≡ key.instance_id)
    × (e.ttl ≡ ttl)
    × (get_udp_endpoint m e ≡ advertised ip o.udp_endpoint)
    × (get_tcp_endpoint m e ≡ advertised ip o.tcp_endpoint)

offer_cases :
    (key : ServiceKey) (major minor last : ℕ) (u t : Option SocketAddrV4)
    (udp_channel tcp_channel : Option ℕ) (methods : MethodConfig) (announcing : Bool)
    (sd_flags ttl : ℕ) (ip : Ipv4Addr)
    → let o : OfferedService = record {
      major_version = major;
      minor_version = minor;
      last_offer = last;
      udp_endpoint = u;
      udp_transport = udp_channel;
      tcp_endpoint = t;
      tcp_transport = tcp_channel;
      method_config = methods;
      is_announcing = announcing;
    } in
      OffersAt (build_offer_message key o sd_flags ttl ip) key o ttl ip
unfolding build_offer_message get_udp_endpoint get_tcp_endpoint get_endpoint_with_protocol scan_run
offer_cases key major minor last none none udp_channel tcp_channel methods announcing sd_flags ttl
      ip =
    (_, refl, refl, refl, refl, refl, refl)
offer_cases key major minor last none (some t) udp_channel tcp_channel methods announcing sd_flags
      ttl ip =
    (_, refl, refl, refl, refl, refl, refl)
offer_cases key major minor last (some u) none udp_channel tcp_channel methods announcing sd_flags
      ttl ip =
    (_, refl, refl, refl, refl, refl, refl)
offer_cases key major minor last (some u) (some t) udp_channel tcp_channel methods announcing
      sd_flags ttl ip =
    (_, refl, refl, refl, refl, refl, refl)

-- An offer has one entry, for which a receiver finds the UDP endpoint and the TCP endpoint of the
-- service, each exactly if it has one, with its port, at the node's unicast address.
pub build_offer_message-endpoints :
    (key : ServiceKey) (o : OfferedService) (sd_flags ttl : ℕ) (ip : Ipv4Addr)
    → OffersAt (build_offer_message key o sd_flags ttl ip) key o ttl ip
build_offer_message-endpoints key o =
    offer_cases key o.major_version o.minor_version o.last_offer o.udp_endpoint o.tcp_endpoint
      o.udp_transport o.tcp_transport o.method_config o.is_announcing

-- The endpoint of a subscription, by its transport.
abbrev pub subscribed_udp : Transport → SocketAddrV4 → Option SocketAddrV4
subscribed_udp udp ep = some ep
subscribed_udp tcp ep = none

abbrev pub subscribed_tcp : Transport → SocketAddrV4 → Option SocketAddrV4
subscribed_tcp udp ep = none
subscribed_tcp tcp ep = some ep

-- An entry for which a receiver finds one endpoint, of the subscription's transport.
abbrev pub Subscribes : SdMessage → Transport → SocketAddrV4 → (ttl : ℕ) → SdEntry → Type 0
Subscribes m t ep ttl e =
    (e.ttl ≡ ttl)
    × (get_udp_endpoint m e ≡ subscribed_udp t ep)
    × (get_tcp_endpoint m e ≡ subscribed_tcp t ep)

abbrev subscribe_entry : (service_id instance_id major_version ttl eventgroup_id : ℕ) → SdEntry
subscribe_entry service_id instance_id major_version ttl eg = record {
  entry_type = SdEntryType.subscribe_eventgroup;
  service_id = service_id;
  instance_id = instance_id;
  major_version = major_version;
  ttl = ttl;
  minor_version = 0;
  eventgroup_id = eg;
  counter = 0;
  index_1st_option = 0;
  index_2nd_option = 0;
  num_options_1 = 1;
  num_options_2 = 0;
}

add_subscribe_entries-map :
    (service_id instance_id major_version ttl : ℕ) (egs : List ℕ) (m : SdMessage)
    → add_subscribe_entries service_id instance_id major_version ttl 0 egs m ≡ record m {
      entries = m.entries ++ map (subscribe_entry service_id instance_id major_version ttl) egs;
    }
unfolding add_subscribe_entries
add_subscribe_entries-map s i v ttl [] m = rw append-nil
add_subscribe_entries-map s i v ttl (eg ∷ egs) m =
    add_subscribe_entries-map s i v ttl egs _
    ∙ rw (append_assoc m.entries (subscribe_entry s i v ttl eg ∷ []))

-- A message whose only option is the endpoint, and whose entries all refer to it.
abbrev one_option :
    (service_id instance_id major_version ttl sd_flags : ℕ)
    → Ipv4Addr
    → (port : ℕ) → Transport
    → List ℕ
    → SdMessage
one_option s i v ttl sd_flags ip port t egs = record {
  flags = sd_flags;
  entries = map (subscribe_entry s i v ttl) egs;
  options = ipv4_endpoint ip port (protocol_of t) ∷ [];
}

one_option-Subscribes :
    (s i v ttl sd_flags : ℕ) (ip : Ipv4Addr) (port : ℕ) (t : Transport) (all egs : List ℕ)
    → All
        (Subscribes
          (one_option s i v ttl sd_flags ip port t all)
          t
          (record { ip = ip; port = port })
          ttl)
        (map (subscribe_entry s i v ttl) egs)
unfolding get_udp_endpoint get_tcp_endpoint get_endpoint_with_protocol scan_run
one_option-Subscribes s i v ttl sd_flags ip port t all [] = tt
one_option-Subscribes s i v ttl sd_flags ip port udp all (eg ∷ egs) =
    ((refl, refl, refl), one_option-Subscribes s i v ttl sd_flags ip port udp all egs)
one_option-Subscribes s i v ttl sd_flags ip port tcp all (eg ∷ egs) =
    ((refl, refl, refl), one_option-Subscribes s i v ttl sd_flags ip port tcp all egs)

abbrev pub eventgroups_of : List SdEntry → List ℕ
eventgroups_of = map (λ e. e.eventgroup_id)

eventgroups_of-map :
    (s i v ttl : ℕ) (egs : List ℕ) → eventgroups_of (map (subscribe_entry s i v ttl) egs) ≡ egs
eventgroups_of-map s i v ttl [] = refl
eventgroups_of-map s i v ttl (eg ∷ egs) = ap (◌∷◌ eg) (eventgroups_of-map s i v ttl egs)

-- A subscribe message carries one entry for each eventgroup, in order, and for each of them a
-- receiver finds the client's endpoint under the subscription's transport and nothing under the
-- other; the matching unsubscribe message is found to name the same endpoint, with TTL 0.
pub build_subscribe_message-endpoints :
    (s i v : ℕ) (egs : List ℕ) (ep : SocketAddrV4) (port sd_flags ttl : ℕ) (t : Transport)
    → let m = build_subscribe_message_multi s i v egs ep port sd_flags ttl t in
      let n = build_unsubscribe_message_multi s i v egs ep port sd_flags t in
      let client : SocketAddrV4 = record { ip = ep.ip; port = port } in
      (eventgroups_of m.entries ≡ egs)
      × (eventgroups_of n.entries ≡ egs)
      × All (Subscribes m t client ttl) m.entries
      × All (Subscribes n t client 0) n.entries
build_subscribe_message-endpoints s i v egs ep port sd_flags ttl t =
    rw (built, ended)
      (
        eventgroups_of-map s i v ttl egs,
        eventgroups_of-map s i v 0 egs,
        one_option-Subscribes s i v ttl sd_flags ep.ip port t egs egs,
        one_option-Subscribes s i v 0 sd_flags ep.ip port t egs egs,
      )
  where
    built :
        build_subscribe_message_multi s i v egs ep port sd_flags ttl t
        ≡ one_option s i v ttl sd_flags ep.ip port t egs
    built = unfold build_subscribe_message_multi in add_subscribe_entries-map s i v ttl egs _

    ended :
        build_unsubscribe_message_multi s i v egs ep port sd_flags t
        ≡ one_option s i v 0 sd_flags ep.ip port t egs
    ended = unfold build_unsubscribe_message_multi in add_subscribe_entries-map s i v 0 egs _
