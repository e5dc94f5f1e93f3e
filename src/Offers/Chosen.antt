-- ===== src/Offers/Chosen.antt =====
-- src/runtime/server.rs: whose port the socket of an offer has.
use recentip.Prelude.{
  ℕ, zero, suc, ◌∙◌, ◌==◌, ◌≡◌, ◌⊎◌, refl, ap, inl, inr, Bool-cases, Option-cases, false, Option,
  none, some,
}
use recentip.Prelude.Maps.{get, Distinct}
use recentip.Wire.SdOption.{SocketAddrV4}
use recentip.Sd.{ServiceKey, OfferedService}
use recentip.State.Keys.{ServiceKey-Eq}
use recentip.Offers.Ports.{
  addr_in_use, failed, nameless, next_port, scan_fuel, Bind, bound, Selection, selected, io_error,
  exhausted, selected_of, find_shareable_udp_socket, scan, bind_new, select_udp,
}
use recentip.Offers.Routable.{meant, Offered}
use recentip.Offers.Shared.{Found, find_shareable-IsShareable, find_shareable-none}

-- The documented behaviour of `bind`: no offered service has the port of a new socket.
abbrev pub BindsFree : (ℕ → Bind) → Offered → Type 0
BindsFree bind offered =
    (port : ℕ) (endpoint : SocketAddrV4) (channel : ℕ)
    → bind port ≡ bound endpoint channel
    → (service_id : ℕ) → meant service_id endpoint.port offered ≡ 0

-- No service with the id has the UDP port of a service of another id.
abbrev pub SharesFree : (service_id : ℕ) → Offered → Type 0
SharesFree service_id offered =
    (other : ServiceKey) (svc : OfferedService) (endpoint : SocketAddrV4)
    → get offered other ≡ some svc
    → (other.service_id == service_id) ≡ false
    → svc.udp_endpoint ≡ some endpoint
    → meant service_id endpoint.port offered ≡ 0

-- Where a socket comes from: a service of another id that has it, on a port that is wanted, or else, if
-- there is none, binding.
abbrev pub Origin :
    (ℕ → Bind) → Offered → (service_id port : ℕ) → SocketAddrV4 → (channel : ℕ) → Type 0
Origin bind offered s port endpoint channel =
    Found offered s port endpoint channel
    ⊎ (((ep : SocketAddrV4) (ch : ℕ) → ¬ (Found offered s port ep ch))
        × ((p : ℕ) × (bind p ≡ bound endpoint channel)))

abbrev socket_of_bind : Bind → Option (SocketAddrV4 × ℕ)
socket_of_bind (bound endpoint channel) = some (endpoint, channel)
socket_of_bind addr_in_use = none
socket_of_bind failed = none
socket_of_bind nameless = none

abbrev bind_of : Selection → Bind
bind_of (selected endpoint channel) = bound endpoint channel
bind_of io_error = addr_in_use
bind_of exhausted = addr_in_use

-- The scan gives a socket that binding has given.
abbrev IsBound : (ℕ → Bind) → Selection → Type 0
IsBound bind result =
    (endpoint : SocketAddrV4) (channel : ℕ)
    → result ≡ selected endpoint channel
    → (port : ℕ) × (bind port ≡ bound endpoint channel)

scan_step-IsBound :
    (fuel : ℕ) (bind : ℕ → Bind) (start candidate : ℕ) (b : Bind)
    → bind candidate ≡ b
    → IsBound bind (scan fuel bind start (next_port candidate)).0
    → IsBound bind (scan (suc fuel) bind start candidate).0
unfolding scan
scan_step-IsBound fuel bind start candidate (bound ep ch) e later =
    rw (scan, e) (λ endpoint channel same. (candidate, e ∙ ap bind_of same))
scan_step-IsBound fuel bind start candidate addr_in_use e later =
    elim (Bool-cases (next_port candidate == start)) [
      | inl round ↦ rw (scan, e, round) (λ endpoint channel same. cc)
      | inr more ↦ rw (scan, e, more) later
    ]
scan_step-IsBound fuel bind start candidate failed e later =
    rw (scan, e) (λ endpoint channel same. cc)
scan_step-IsBound fuel bind start candidate nameless e later =
    rw (scan, e) (λ endpoint channel same. cc)

scan-IsBound :
    (fuel : ℕ) (bind : ℕ → Bind) (start candidate : ℕ)
    → IsBound bind (scan fuel bind start candidate).0
unfolding scan
scan-IsBound zero bind start candidate = λ endpoint channel same. cc
scan-IsBound (suc fuel) bind start candidate =
    scan_step-IsBound fuel bind start candidate (bind candidate) refl
      (scan-IsBound fuel bind start (next_port candidate))

selected_of-IsBound :
    (bind : ℕ → Bind) (port : ℕ) (b : Bind) → bind port ≡ b → IsBound bind (selected_of b)
selected_of-IsBound bind port (bound ep ch) e = λ endpoint channel same. (port, e ∙ ap bind_of same)
selected_of-IsBound bind port addr_in_use e = λ endpoint channel same. cc
selected_of-IsBound bind port failed e = λ endpoint channel same. cc
selected_of-IsBound bind port nameless e = λ endpoint channel same. cc

bind_new-IsBound :
    (bind : ℕ → Bind) (port counter : ℕ) → IsBound bind (bind_new bind port counter).0
unfolding bind_new
bind_new-IsBound bind port counter = elim (Bool-cases (port == 0)) [
  | inl auto ↦ rw (bind_new, auto) (scan-IsBound scan_fuel bind counter counter)
  | inr explicit ↦ rw (bind_new, explicit) (selected_of-IsBound bind port (bind port) refl)
]

pub select_udp-Origin :
    (bind : ℕ → Bind) (s port counter : ℕ) (offered : Offered) (endpoint : SocketAddrV4)
    (channel : ℕ)
    → Distinct offered
    → (select_udp offered bind s port counter).0 ≡ selected endpoint channel
    → Origin bind offered s port endpoint channel
unfolding select_udp
select_udp-Origin bind s port counter offered endpoint channel d got =
    elim (Option-cases (find_shareable_udp_socket offered s port)) [
      | inr ((ep, ch), found) ↦
          let same : bound ep ch ≡ bound endpoint channel =
            ap bind_of (rw (select_udp, found) at got) in
          inl (
            find_shareable-IsShareable offered s port endpoint channel d
              (found ∙ ap socket_of_bind same))
      | inl absent ↦ inr (
        (λ ep ch shared.
            find_shareable-none offered s port shared.0 shared.1 ep ch absent shared.2),
        bind_new-IsBound bind port counter endpoint channel (rw (select_udp, absent) at got),
      )
    ]

-- The port of the socket is no port of a service with the same id.
pub Origin-free :
    (bind : ℕ → Bind) (s port : ℕ) (offered : Offered) (endpoint : SocketAddrV4) (channel : ℕ)
    → BindsFree bind offered
    → SharesFree s offered
    → Origin bind offered s port endpoint channel
    → meant s endpoint.port offered ≡ 0
Origin-free bind s port offered endpoint channel binds shares (inl (other, svc, fits)) =
    shares other svc endpoint fits.0 fits.1 fits.2
Origin-free bind s port offered endpoint channel binds shares (inr (nothing, (p, e))) =
    binds p endpoint channel e s
