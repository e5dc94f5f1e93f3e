-- ===== src/Subscriptions/UdpRecorded.antt =====
-- src/runtime/client.rs: what the completion of a UDP subscription records.
use recentip.Prelude.{ℕ, ◌≡◌, ◌⊎◌, refl, List, [], ◌∷◌, ◌++◌, inl, inr, map}
use recentip.Prelude.Maps.{insert}
use recentip.Config.{udp}
use recentip.Wire.SdOption.{SocketAddrV4}
use recentip.Sd.{ServiceKey}
use recentip.State.Keys.{ServiceKey-Eq}
use recentip.State.{RuntimeState, queue_unicast_sd}
use recentip.Subscriptions.{
  NewSubscription, client_subscription, record_subscription_state, complete_udp_subscription,
}
use recentip.Subscriptions.Udp.{subscriptions_of}

pub List-cases {ℓ} : {A : Type ℓ} (l : List A) → (l ≡ []) ⊎ ((x : A) × (xs : List A) × (l ≡ x ∷ xs))
List-cases [] = inl refl
List-cases (x ∷ xs) = inr (x, xs, refl)

pub record-subscriptions :
    (state : RuntimeState) (key : ServiceKey) (egs : List ℕ) (new : NewSubscription)
    → (record_subscription_state state key egs new).1.subscriptions
      ≡ insert state.subscriptions key
          (subscriptions_of state key ++ map (client_subscription new) egs)
unfolding record_subscription_state
record-subscriptions state key egs new = refl

pub record-usage :
    (state : RuntimeState) (key : ServiceKey) (egs : List ℕ) (new : NewSubscription)
    → (record_subscription_state state key egs new).1.subscription_endpoint_usage
      ≡ state.subscription_endpoint_usage
unfolding record_subscription_state
record-usage state key egs new = refl

-- The message to the server leaves the subscriptions and the ports as they have been recorded.
pub complete_recorded :
    (now : ℕ) (state : RuntimeState) (key : ServiceKey) (egs : List ℕ) (new : NewSubscription)
    (sd : SocketAddrV4)
    → let after = complete_udp_subscription now state key egs new sd in
      let s =
        record_subscription_state state key egs
          (record new { tcp_conn_key = 0; transport = udp }) in
      (after.subscriptions ≡ s.1.subscriptions)
      × (after.subscription_endpoint_usage ≡ s.1.subscription_endpoint_usage)
unfolding complete_udp_subscription queue_unicast_sd
complete_recorded now state key egs new sd =
    elim (List-cases
      (record_subscription_state state key egs
        (record new { tcp_conn_key = 0; transport = udp })).0) [
          | inl nothing ↦ rw (complete_udp_subscription, nothing) (refl, refl)
          | inr (eg, rest, e) ↦ rw (complete_udp_subscription, e) (refl, refl)
        ]
