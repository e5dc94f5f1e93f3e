-- ===== src/Peer/Servers.antt =====
-- Retaining a server's subscriptions by a test.
use recentip.Prelude.{
  ◌≡◌, inl, inr, refl, ◌∙◌, Bool, true, false, not, if◌then◌else◌, List, [], ◌∷◌, none, arith,
  Bool-cases,
}
use recentip.Prelude.Maps.{Map, get, filter, or_default, Distinct}
use recentip.Wire.SdOption.{Ipv4Addr, SocketAddrV4}
use recentip.Subscribers.Held.{lookup, held}
use recentip.State.Keys.{
  SubscriberKey, SubscriberKey-Eq, ip_beq, addr_beq, addr_eq_of_beq, subscriber_key_beq,
  subscriber_key_eq_of_beq,
}
use recentip.State.{ServerSubscription}
use recentip.Peer.{retain_subscribers, keep_nonempty}

pub lookup-away :
    (peer : Ipv4Addr) (q : SocketAddrV4) (subs : List ServerSubscription)
    → lookup (filter (λ s. not (ip_beq s.endpoint.ip peer)) subs) q
      ≡ (if ip_beq q.ip peer then none else lookup subs q)
lookup-away peer q [] = ground arith
lookup-away peer q (s ∷ subs) =
    let ih = lookup-away peer q subs in
    elim (Bool-cases (ip_beq s.endpoint.ip peer)) [
      | inl away ↦ elim (Bool-cases (addr_beq s.endpoint q)) [
        | inl hit ↦
            let e : ip_beq q.ip peer ≡ true = rw (addr_eq_of_beq s.endpoint q hit) at away in
            rw (away, e) (rw e at ih)
        | inr miss ↦ rw (away, miss) ih
      ]
      | inr stays ↦ elim (Bool-cases (addr_beq s.endpoint q)) [
        | inl hit ↦
            let e : ip_beq q.ip peer ≡ false = rw (addr_eq_of_beq s.endpoint q hit) at stays in
            rw (stays, hit, e) refl
        | inr miss ↦ rw (stays, miss) ih
      ]
    ]

get-keep_nonempty :
    (k key : SubscriberKey) (subs : List ServerSubscription)
    (rest : Map SubscriberKey (List ServerSubscription)) (q : SocketAddrV4)
    → (subscriber_key_beq k key ≡ true → held rest key q ≡ none)
    → held (keep_nonempty k subs rest) key q
      ≡ (if subscriber_key_beq k key then lookup subs q else held rest key q)
get-keep_nonempty k key [] rest q fresh = elim (Bool-cases (subscriber_key_beq k key)) [
  | inl hit ↦ rw hit (fresh hit)
  | inr miss ↦ rw miss refl
]
get-keep_nonempty k key (s ∷ subs) rest q fresh = elim (Bool-cases (subscriber_key_beq k key)) [
  | inl hit ↦ rw hit refl
  | inr miss ↦ rw miss refl
]

held-unknown :
    (m : Map SubscriberKey (List ServerSubscription)) (key : SubscriberKey) (q : SocketAddrV4)
    → get m key ≡ none
    → held m key q ≡ none
held-unknown m key q h = rw h refl

pub held-retain :
    (keep : ServerSubscription → Bool) (m : Map SubscriberKey (List ServerSubscription))
    (key : SubscriberKey) (q : SocketAddrV4)
    → Distinct m
    → held (retain_subscribers keep m) key q ≡ lookup (filter keep (or_default [] (get m key))) q
unfolding retain_subscribers
held-retain keep [] key q d = refl
held-retain keep ((k, subs) ∷ m) key q d =
    get-keep_nonempty k key (filter keep subs) (retain_subscribers keep m) q (λ hit.
      held-retain keep m key q d.1 ∙ rw (rw (subscriber_key_eq_of_beq k key hit) at (d.0)) refl)
    ∙ elim (Bool-cases (subscriber_key_beq k key)) [
      | inl hit ↦ rw hit refl
      | inr miss ↦ rw miss (held-retain keep m key q d.1)
    ]
