-- ===== src/State/Keys.antt =====
-- src/runtime/state.rs: the keys of the state's maps, and the derived equality of keys and addresses.
use recentip.Prelude.{ℕ, ◌≡◌, ◌==◌, ◌&&◌, Bool, true, false, arith}
use recentip.Prelude.Maps.{Eq}
use recentip.Wire.SdOption.{Ipv4Addr, SocketAddrV4}
use recentip.Config.{Transport, tcp, udp}
use recentip.Sd.{ServiceKey}

pub record SubscriberKey : Type 0 where
  pub service_id : ℕ
  pub instance_id : ℕ
  pub major_version : ℕ
  pub eventgroup_id : ℕ

pub record PendingSubscriptionKey : Type 0 where
  pub service_id : ℕ
  pub instance_id : ℕ
  pub major_version : ℕ
  pub eventgroup_id : ℕ

pub record MultiEventgroupSubscriptionKey : Type 0 where
  pub service_id : ℕ
  pub instance_id : ℕ
  pub major_version : ℕ
  pub subscription_id : ℕ

pub record CallKey : Type 0 where
  pub client_id : ℕ
  pub session_id : ℕ

abbrev pub service_key_beq : ServiceKey → ServiceKey → Bool
service_key_beq a b =
    a.service_id == b.service_id
    && a.instance_id == b.instance_id
    && a.major_version == b.major_version

abbrev pub subscriber_key_beq : SubscriberKey → SubscriberKey → Bool
subscriber_key_beq a b =
    a.service_id == b.service_id
    && a.instance_id == b.instance_id
    && a.major_version == b.major_version
    && a.eventgroup_id == b.eventgroup_id

abbrev pub pending_key_beq : PendingSubscriptionKey → PendingSubscriptionKey → Bool
pending_key_beq a b =
    a.service_id == b.service_id
    && a.instance_id == b.instance_id
    && a.major_version == b.major_version
    && a.eventgroup_id == b.eventgroup_id

abbrev pub multi_key_beq : MultiEventgroupSubscriptionKey → MultiEventgroupSubscriptionKey → Bool
multi_key_beq a b =
    a.service_id == b.service_id
    && a.instance_id == b.instance_id
    && a.major_version == b.major_version
    && a.subscription_id == b.subscription_id

abbrev pub call_key_beq : CallKey → CallKey → Bool
call_key_beq a b = a.client_id == b.client_id && a.session_id == b.session_id

abbrev pub ip_beq : Ipv4Addr → Ipv4Addr → Bool
ip_beq x y = x.a == y.a && x.b == y.b && x.c == y.c && x.d == y.d

abbrev pub addr_beq : SocketAddrV4 → SocketAddrV4 → Bool
addr_beq x y = ip_beq x.ip y.ip && x.port == y.port

abbrev pub transport_beq : Transport → Transport → Bool
transport_beq tcp tcp = true
transport_beq udp udp = true
transport_beq _ _ = false

pub service_key_eq_of_beq : (a b : ServiceKey) → service_key_beq a b ≡ true → a ≡ b
service_key_eq_of_beq a b h = ground arith

pub service_key_beq_refl : (a : ServiceKey) → service_key_beq a a ≡ true
service_key_beq_refl a = ground arith

pub subscriber_key_eq_of_beq : (a b : SubscriberKey) → subscriber_key_beq a b ≡ true → a ≡ b
subscriber_key_eq_of_beq a b h = ground arith

pub subscriber_key_beq_refl : (a : SubscriberKey) → subscriber_key_beq a a ≡ true
subscriber_key_beq_refl a = ground arith

pub pending_key_eq_of_beq : (a b : PendingSubscriptionKey) → pending_key_beq a b ≡ true → a ≡ b
pending_key_eq_of_beq a b h = ground arith

pub pending_key_beq_refl : (a : PendingSubscriptionKey) → pending_key_beq a a ≡ true
pending_key_beq_refl a = ground arith

pub multi_key_eq_of_beq : (a b : MultiEventgroupSubscriptionKey) → multi_key_beq a b ≡ true → a ≡ b
multi_key_eq_of_beq a b h = ground arith

pub multi_key_beq_refl : (a : MultiEventgroupSubscriptionKey) → multi_key_beq a a ≡ true
multi_key_beq_refl a = ground arith

pub call_key_eq_of_beq : (a b : CallKey) → call_key_beq a b ≡ true → a ≡ b
call_key_eq_of_beq a b h = ground arith

pub call_key_beq_refl : (a : CallKey) → call_key_beq a a ≡ true
call_key_beq_refl a = ground arith

pub ip_eq_of_beq : (a b : Ipv4Addr) → ip_beq a b ≡ true → a ≡ b
ip_eq_of_beq a b h = ground arith

pub ip_beq_refl : (a : Ipv4Addr) → ip_beq a a ≡ true
ip_beq_refl a = ground arith

pub addr_eq_of_beq : (a b : SocketAddrV4) → addr_beq a b ≡ true → a ≡ b
addr_eq_of_beq a b h = ground arith

pub addr_beq_refl : (a : SocketAddrV4) → addr_beq a a ≡ true
addr_beq_refl a = ground arith

instance abbrev pub ServiceKey-Eq : Eq ServiceKey
ServiceKey-Eq = record {
  beq = service_key_beq;
  eq_of_beq = service_key_eq_of_beq;
  beq_refl = service_key_beq_refl;
}

instance abbrev pub SubscriberKey-Eq : Eq SubscriberKey
SubscriberKey-Eq = record {
  beq = subscriber_key_beq;
  eq_of_beq = subscriber_key_eq_of_beq;
  beq_refl = subscriber_key_beq_refl;
}

instance abbrev pub PendingSubscriptionKey-Eq : Eq PendingSubscriptionKey
PendingSubscriptionKey-Eq = record {
  beq = pending_key_beq;
  eq_of_beq = pending_key_eq_of_beq;
  beq_refl = pending_key_beq_refl;
}

instance abbrev pub MultiEventgroupSubscriptionKey-Eq : Eq MultiEventgroupSubscriptionKey
MultiEventgroupSubscriptionKey-Eq = record {
  beq = multi_key_beq;
  eq_of_beq = multi_key_eq_of_beq;
  beq_refl = multi_key_beq_refl;
}

instance abbrev pub CallKey-Eq : Eq CallKey
CallKey-Eq = record {
  beq = call_key_beq;
  eq_of_beq = call_key_eq_of_beq;
  beq_refl = call_key_beq_refl;
}

instance abbrev pub Ipv4Addr-Eq : Eq Ipv4Addr
Ipv4Addr-Eq = record { beq = ip_beq; eq_of_beq = ip_eq_of_beq; beq_refl = ip_beq_refl }

instance abbrev pub SocketAddrV4-Eq : Eq SocketAddrV4
SocketAddrV4-Eq = record { beq = addr_beq; eq_of_beq = addr_eq_of_beq; beq_refl = addr_beq_refl }
