-- ===== src/Tests/Runtime.antt =====
-- The theorems on sessions, settings, built messages and client ports at concrete inputs.
use recentip.Prelude.{ℕ, ◌≡◌, refl, true, false, if◌then◌else◌, List, [], ◌∷◌, some, arith, All}
use recentip.Wire.SdOption.{Ipv4Addr, SocketAddrV4}
use recentip.Session.{
  Sessions, PeerSessionState, new, default_peer, default_channel, sd_flags, send_sd, observe,
}
use recentip.Session.Counters
use recentip.Session.Reboot
use recentip.Config.{Transport, OfferedEndpoints, new_method_config, select, prefer_tcp}
use recentip.Config.Policy
use recentip.Sd.{
  ServiceKey, OfferedService, build_offer_message, build_subscribe_message_multi,
  build_unsubscribe_message_multi,
}
use recentip.Sd.Build
use recentip.Client.{
  ConnKeyState, Usage, allocate_tcp_conn_key, key_eq, find_reusable_subscription_endpoint,
}
use recentip.Client.ConnKeys
use recentip.Client.Endpoints

no_false_reboot_example : (Reboot.exchanges (true ∷ false ∷ true ∷ []) new default_peer).0 ≡ false
no_false_reboot_example = Reboot.no_false_reboot (true ∷ false ∷ true ∷ [])

reboot_detected_after_restart_example :
    let p = (Reboot.exchanges (true ∷ false ∷ []) new default_peer).2 in
    ((Reboot.exchange false new p).0 ≡ true) × ((Reboot.exchange false new p).2 ≡ default_peer)
reboot_detected_after_restart_example =
    Reboot.reboot_detected_after_restart (true ∷ false ∷ []) false refl

abbrev history : List Counters.Draw
history = Counters.unicast ∷ Counters.payload ∷ Counters.unicast ∷ []

after-Counted_example : Counters.Counted history (Counters.after history)
after-Counted_example = Counters.after-Counted history

abbrev last_of_cycle : Sessions
last_of_cycle = record {
  multicast_session_id = 1;
  unicast_session_id = 65535;
  multicast_has_wrapped_once = false;
  unicast_has_wrapped_once = false;
  payload_session_id = 1;
}

abbrev hearer : PeerSessionState
hearer = record {
  multicast = default_channel;
  unicast = record { last_session_id = some 65534; last_reboot_flag = true };
}

stale_flags_reboot_example :
    let flags = sd_flags last_of_cycle true in
    let s' = (send_sd last_of_cycle flags).1 in
    ((send_sd s' flags).0 ≡ 1) × ((observe hearer flags (send_sd s' flags).0).0 ≡ true)
stale_flags_reboot_example =
    Reboot.stale_flags_reboot last_of_cycle hearer 65534 refl refl refl refl (omega arith)

abbrev server : Ipv4Addr
server = record { a = 10; b = 0; c = 0; d = 1 }

abbrev at_port : ℕ → SocketAddrV4
at_port p = record { ip = server; port = p }

abbrev both_endpoints : OfferedEndpoints
both_endpoints = OfferedEndpoints.both (at_port 30501) (at_port 30502)

select_first_example : Policy.Selected prefer_tcp both_endpoints (select prefer_tcp both_endpoints)
select_first_example = Policy.select_first prefer_tcp both_endpoints

abbrev service : ServiceKey
service = record { service_id = 0x1234; instance_id = 1; major_version = 1 }

abbrev offered_service : OfferedService
offered_service = record {
  major_version = 1;
  minor_version = 0;
  last_offer = 0;
  udp_endpoint = some (at_port 30501);
  udp_transport = some 1;
  tcp_endpoint = some (at_port 30502);
  tcp_transport = some 2;
  method_config = new_method_config;
  is_announcing = true;
}

build_offer_message-endpoints_example :
    Build.OffersAt
      (build_offer_message service offered_service 0xc0 3600 server)
      service
      offered_service
      3600
      server
build_offer_message-endpoints_example =
    Build.build_offer_message-endpoints service offered_service 0xc0 3600 server

build_subscribe_message-endpoints_example :
    let m =
      build_subscribe_message_multi 1 2 3 (7 ∷ 8 ∷ []) (at_port 0) 4000 0xc0 5 Transport.udp in
    let n =
      build_unsubscribe_message_multi 1 2 3 (7 ∷ 8 ∷ []) (at_port 0) 4000 0xc0 Transport.udp in
    (Build.eventgroups_of m.entries ≡ 7 ∷ 8 ∷ [])
    × (Build.eventgroups_of n.entries ≡ 7 ∷ 8 ∷ [])
    × All (Build.Subscribes m Transport.udp (at_port 4000) 5) m.entries
    × All (Build.Subscribes n Transport.udp (at_port 4000) 0) n.entries
build_subscribe_message-endpoints_example =
    Build.build_subscribe_message-endpoints 1 2 3 (7 ∷ 8 ∷ []) (at_port 0) 4000 0xc0 5 Transport.udp

abbrev two_in_use : ConnKeyState
two_in_use = record { committed = λ key. 1 ∷ []; pending = λ key. 2 ∷ [] }

allocate_tcp_conn_key_least_example :
    let (slot, s') = allocate_tcp_conn_key two_in_use service in
    ConnKeys.FirstFree (two_in_use.committed service) (two_in_use.pending service) 1 slot
    × ((other : ServiceKey)
        → s'.pending other ≡ (
            if key_eq service other
            then slot ∷ two_in_use.pending service
            else two_in_use.pending other))
    × (s'.committed ≡ two_in_use.committed)
allocate_tcp_conn_key_least_example = ConnKeys.allocate_tcp_conn_key_least two_in_use service

abbrev usage : Usage
usage = (30490, (1, 1) ∷ []) ∷ (30491, (2, 1) ∷ []) ∷ []

usage_valid : Endpoints.IsMap usage
usage_valid = ((λ e. cc), refl, ((λ e. cc), refl, tt))

find_reusable_subscription_endpoint-Reusable_example :
    Endpoints.Reusable usage 30490 (1, 1) (find_reusable_subscription_endpoint usage 30490 (1, 1))
find_reusable_subscription_endpoint-Reusable_example =
    Endpoints.find_reusable_subscription_endpoint-Reusable usage 30490 (1, 1) usage_valid
