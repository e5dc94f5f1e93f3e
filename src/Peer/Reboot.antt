-- ===== src/Peer/Reboot.antt =====
-- What is left of a peer after its reboot.
use recentip.Prelude.{◌≡◌, refl, sym, subst, ◌∙◌, not, if◌then◌else◌, [], none}
use recentip.Prelude.Maps.{get, or_default, Distinct}
use recentip.Wire.SdOption.{Ipv4Addr, SocketAddrV4}
use recentip.Sd.{ServiceKey}
use recentip.Subscribers.Held.{subscription}
use recentip.State.Keys.{SubscriberKey, ServiceKey-Eq, SubscriberKey-Eq, ip_beq}
use recentip.State.{RuntimeState}
use recentip.Peer.{
  expire_services_from_rebooted_peer, retain_subscribers,
  expire_server_subscriptions_from_rebooted_peer, expire_client_subscriptions_to_rebooted_peer,
  subscriptions_to, handle_peer_reboot, services_from,
}
use recentip.Peer.Expired.{
  FirstPass, expire-FirstPass, FirstPass-expired, subscriptions_to-nil, expired,
}
use recentip.Peer.Dropped.{expire_services-Distinct}
use recentip.Peer.Servers.{held-retain, lookup-away}

-- Of the peer, only the services, with the searches for them and the subscriptions to them, are left whose
-- subscriptions wait for an answer, and none of its own subscriptions; what belongs to others is left as
-- it was, and so is all the rest of the state.
pub record Rebooted (peer : Ipv4Addr) (s r : RuntimeState) : Type 0 where
  pub discovered_left :
      (key : ServiceKey)
      → get r.discovered key ≡ (if expired peer s key then none else get s.discovered key)
  pub subscriptions_left :
      (key : ServiceKey)
      → get r.subscriptions key ≡ (if expired peer s key then none else get s.subscriptions key)
  pub searches_left :
      (key : ServiceKey)
      → get r.find_requests key ≡ (if expired peer s key then none else get s.find_requests key)
  pub subscribers_left :
      (key : SubscriberKey) (q : SocketAddrV4)
      → subscription r key q ≡ (if ip_beq q.ip peer then none else subscription s key q)
  pub frame : r ≡ record s {
    discovered = r.discovered;
    find_requests = r.find_requests;
    subscriptions = r.subscriptions;
    server_subscribers = r.server_subscribers;
  }

expire_client-same :
    (peer : Ipv4Addr) (r : RuntimeState)
    → subscriptions_to peer r r.subscriptions ≡ []
    → expire_client_subscriptions_to_rebooted_peer peer r ≡ r
unfolding expire_client_subscriptions_to_rebooted_peer
expire_client-same peer r h = rw h refl

-- The state after the second pass: only the subscribers differ.
abbrev without_subscribers : Ipv4Addr → RuntimeState → RuntimeState
without_subscribers peer r = record r {
  server_subscribers =
      retain_subscribers (λ x. not (ip_beq x.endpoint.ip peer)) r.server_subscribers;
}

subscribers-FirstPass :
    (peer : Ipv4Addr) (s r : RuntimeState)
    → FirstPass peer s r
    → Distinct s.server_subscribers
    → (key : SubscriberKey) (q : SocketAddrV4)
    → subscription (without_subscribers peer r) key q
      ≡ (if ip_beq q.ip peer then none else subscription s key q)
subscribers-FirstPass peer s r f d key q = rw f.server_same (
    held-retain (λ x. not (ip_beq x.endpoint.ip peer)) s.server_subscribers key q d
    ∙ lookup-away peer q (or_default [] (get s.server_subscribers key)))

nothing_left :
    (peer : Ipv4Addr) (s r : RuntimeState)
    → FirstPass peer s r
    → Distinct r.subscriptions
    → subscriptions_to peer (without_subscribers peer r) r.subscriptions ≡ []
nothing_left peer s r f d =
    subscriptions_to-nil peer (without_subscribers peer r) r.subscriptions
      (λ key. FirstPass-expired peer s r key f) (λ key subs h. h) d

Rebooted-passes :
    (peer : Ipv4Addr) (s r : RuntimeState)
    → FirstPass peer s r
    → Distinct r.subscriptions
    → Distinct s.server_subscribers
    → Rebooted peer s
        (expire_client_subscriptions_to_rebooted_peer peer (without_subscribers peer r))
Rebooted-passes peer s r f d subscribers =
    subst (Rebooted peer s)
      (sym (expire_client-same peer (without_subscribers peer r) (nothing_left peer s r f d)))
      (record {
        discovered_left = f.discovered_left;
        subscriptions_left = f.subscriptions_left;
        searches_left = f.searches_left;
        frame = λ i. record (f.frame i) {
          server_subscribers = (without_subscribers peer r).server_subscribers;
        };
        subscribers_left = subscribers-FirstPass peer s r f subscribers;
      })

abbrev first_pass : Ipv4Addr → RuntimeState → RuntimeState
first_pass peer s = (expire_services_from_rebooted_peer peer s).2

first_pass-Distinct :
    (peer : Ipv4Addr) (s : RuntimeState)
    → Distinct s.subscriptions
    → Distinct (first_pass peer s).subscriptions
unfolding expire_services_from_rebooted_peer
first_pass-Distinct peer s d = expire_services-Distinct (services_from peer s.discovered) s d

-- Where the maps hold each key once: after a reboot of a peer, a service whose offer came from the peer's
-- SD address is forgotten together with the searches for it and the subscriptions to it, unless one of
-- these waits for an answer; the subscriptions of the peer's addresses to the node's own services are all
-- forgotten; and nothing else of the state changes.
pub handle_peer_reboot-Rebooted :
    (peer : Ipv4Addr) (s : RuntimeState)
    → Distinct s.discovered
    → Distinct s.subscriptions
    → Distinct s.server_subscribers
    → Rebooted peer s (handle_peer_reboot peer s).1
unfolding handle_peer_reboot expire_server_subscriptions_from_rebooted_peer
handle_peer_reboot-Rebooted peer s known subscribed subscribers =
    Rebooted-passes peer s (first_pass peer s) (expire-FirstPass peer s known)
      (first_pass-Distinct peer s subscribed) subscribers
