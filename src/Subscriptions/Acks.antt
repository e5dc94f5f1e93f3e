-- ===== src/Subscriptions/Acks.antt =====
-- src/runtime/sd.rs: the answers of a server to a client's subscriptions.
use recentip.Prelude.{ℕ, ◌==◌, Bool, not, if◌then◌else◌, List, [], ◌∷◌, none, some}
use recentip.Prelude.Maps.{Map, get, insert, remove, modify, all_of, filter}
use recentip.Config.{contains}
use recentip.Sd.{ServiceKey}
use recentip.State.Keys.{
  PendingSubscriptionKey, ServiceKey-Eq, PendingSubscriptionKey-Eq,
  MultiEventgroupSubscriptionKey-Eq,
}
use recentip.State.{
  RuntimeState, PendingSubscription, MultiEventgroupSubscription, accepted, rejected, answer,
}
use recentip.Subscriptions.{pending_key, multi_key}

abbrev pub ack_eventgroup : ℕ → MultiEventgroupSubscription → MultiEventgroupSubscription
ack_eventgroup eg m =
    if contains m.acked_eventgroups eg
    then m
    else record m { acked_eventgroups = eg ∷ m.acked_eventgroups }

abbrev pub all_acked : MultiEventgroupSubscription → Bool
all_acked m = all_of (contains m.acked_eventgroups) m.eventgroup_ids

-- The body of the loop over the pending list.
unfoldable pub ack_pending :
    ServiceKey → (eventgroup_id : ℕ) → PendingSubscription → RuntimeState → RuntimeState
unfolding answer
ack_pending key eg pending state =
    let mkey = multi_key key pending.subscription_id in
    elim (get state.multi_eventgroup_subscriptions mkey) [
      | some multi_sub ↦
          let multi_sub' = ack_eventgroup eg multi_sub in
          if all_acked multi_sub'
          then answer multi_sub'.response (accepted pending.subscription_id) (record state {
            multi_eventgroup_subscriptions = remove state.multi_eventgroup_subscriptions mkey;
          })
          else record state {
            multi_eventgroup_subscriptions =
                insert state.multi_eventgroup_subscriptions mkey multi_sub';
          }
      | none ↦ answer pending.response (accepted pending.subscription_id) state
    ]

unfoldable pub ack_all :
    ServiceKey → (eventgroup_id : ℕ) → List PendingSubscription → RuntimeState → RuntimeState
unfolding ack_pending
ack_all key eg [] state = state
ack_all key eg (p ∷ ps) state = ack_all key eg ps (ack_pending key eg p state)

abbrev pub take_pending : PendingSubscriptionKey → RuntimeState → RuntimeState
take_pending pkey state = record state {
  pending_subscriptions = remove state.pending_subscriptions pkey;
}

unfoldable pub handle_subscribe_ack : ServiceKey → (eventgroup_id : ℕ) → RuntimeState → RuntimeState
unfolding ack_all
handle_subscribe_ack key eg state = elim (get state.pending_subscriptions (pending_key key eg)) [
  | none ↦ state
  | some pending_list ↦ ack_all key eg pending_list (take_pending (pending_key key eg) state)
]

-- The other eventgroups of a rejected subscription no longer wait for it.
unfoldable pub forget_pending :
    ServiceKey
    → (eventgroup_id subscription_id : ℕ) → List ℕ
    → Map PendingSubscriptionKey (List PendingSubscription)
    → Map PendingSubscriptionKey (List PendingSubscription)
forget_pending key eg id [] pending = pending
forget_pending key eg id (other ∷ egs) pending = forget_pending key eg id egs (
    if other == eg
    then pending
    else modify pending (pending_key key other) (filter (λ p. not (p.subscription_id == id))))

unfoldable pub nack_pending :
    ServiceKey → (eventgroup_id : ℕ) → PendingSubscription → RuntimeState → RuntimeState
unfolding answer forget_pending
nack_pending key eg pending state =
    let mkey = multi_key key pending.subscription_id in
    elim (get state.multi_eventgroup_subscriptions mkey) [
      | some multi_sub ↦
          let told = answer multi_sub.response rejected (record state {
            multi_eventgroup_subscriptions = remove state.multi_eventgroup_subscriptions mkey;
          }) in
          record told {
            subscriptions =
                modify told.subscriptions key
                  (filter (λ s. not (s.subscription_id == pending.subscription_id)));
            pending_subscriptions =
                forget_pending key eg pending.subscription_id multi_sub.eventgroup_ids
                  told.pending_subscriptions;
          }
      | none ↦ answer pending.response rejected state
    ]

unfoldable pub nack_all :
    ServiceKey → (eventgroup_id : ℕ) → List PendingSubscription → RuntimeState → RuntimeState
unfolding nack_pending
nack_all key eg [] state = state
nack_all key eg (p ∷ ps) state = nack_all key eg ps (nack_pending key eg p state)

unfoldable pub handle_subscribe_nack :
    ServiceKey → (eventgroup_id : ℕ) → RuntimeState → RuntimeState
unfolding nack_all
handle_subscribe_nack key eg state =
    let state' : RuntimeState = elim (get state.pending_subscriptions (pending_key key eg)) [
      | none ↦ state
      | some pending_list ↦ nack_all key eg pending_list (take_pending (pending_key key eg) state)
    ] in
    record state' {
      subscriptions = modify state'.subscriptions key (filter (λ s. not (s.eventgroup_id == eg)));
    }
