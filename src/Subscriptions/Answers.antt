-- ===== src/Subscriptions/Answers.antt =====
-- What the answer to one eventgroup changes.
use recentip.Prelude.{
  ℕ, ◌≡◌, refl, sym, ◌∙◌, ◌==◌, true, false, if◌then◌else◌, List, [], ◌∷◌, ◌++◌, Option, none, some,
  arith, Bool-cases, Option-cases, inl, inr,
}
use recentip.Prelude.Maps.{
  Map, get, insert, remove, or_default, get-insert, get-remove, nat_eq_of_beq,
}
use recentip.Config.{contains}
use recentip.Sd.{ServiceKey}
use recentip.State.Keys.{
  PendingSubscriptionKey, PendingSubscriptionKey-Eq, MultiEventgroupSubscriptionKey-Eq,
  ServiceKey-Eq, pending_key_beq, multi_key_beq_refl,
}
use recentip.State.{
  RuntimeState, PendingSubscription, MultiEventgroupSubscription, accepted, answer,
}
use recentip.Subscriptions.{pending_key, multi_key}
use recentip.Subscriptions.Acks.{
  all_acked, ack_pending, ack_all, take_pending, handle_subscribe_ack, nack_all,
  handle_subscribe_nack,
}

abbrev pub Pending : Type 0
Pending = Map PendingSubscriptionKey (List PendingSubscription)

-- The subscriptions of an eventgroup that wait for an answer.
abbrev pub waiting : Pending → ServiceKey → ℕ → List PendingSubscription
waiting pending key eg = or_default [] (get pending (pending_key key eg))

pub pending_key_beq-pending_key :
    (key : ServiceKey) (eg other : ℕ)
    → pending_key_beq (pending_key key eg) (pending_key key other) ≡ (eg == other)
pending_key_beq-pending_key key eg other = ground arith

pub waiting-remove :
    (pending : Pending) (key : ServiceKey) (eg other : ℕ)
    → waiting (remove pending (pending_key key eg)) key other
      ≡ (if eg == other then [] else waiting pending key other)
waiting-remove pending key eg other =
    rw
      (
        get-remove pending (pending_key key eg) (pending_key key other),
        pending_key_beq-pending_key key eg other,
      )
      (elim (Bool-cases (eg == other)) [ inl hit ↦ rw hit refl | inr miss ↦ rw miss refl ])

-- Where nobody waits, an answer tells nobody.
pub record Skipped (s r : RuntimeState) (key : ServiceKey) : Type 0 where
  pub answers_same : r.answers ≡ s.answers
  pub multi_same : r.multi_eventgroup_subscriptions ≡ s.multi_eventgroup_subscriptions
  pub waiting_same :
      (eg : ℕ) → waiting r.pending_subscriptions key eg ≡ waiting s.pending_subscriptions key eg

waiting-unknown :
    (pending : Pending) (key : ServiceKey) (eg other : ℕ)
    → waiting pending key eg ≡ []
    → waiting (remove pending (pending_key key eg)) key other ≡ waiting pending key other
waiting-unknown pending key eg other h =
    waiting-remove pending key eg other ∙ elim (Bool-cases (eg == other)) [
      | inl hit ↦ rw hit (sym (rw (nat_eq_of_beq eg other hit) at h))
      | inr miss ↦ rw miss refl
    ]

pub handle_subscribe_ack-Skipped :
    (key : ServiceKey) (eg : ℕ) (s : RuntimeState)
    → waiting s.pending_subscriptions key eg ≡ []
    → Skipped s (handle_subscribe_ack key eg s) key
unfolding handle_subscribe_ack ack_all
handle_subscribe_ack-Skipped key eg s h =
    elim (Option-cases (get s.pending_subscriptions (pending_key key eg))) [
      | inl unknown ↦
          rw (handle_subscribe_ack, unknown)
            (record { answers_same = refl; multi_same = refl; waiting_same = λ other. refl })
      | inr (l, there) ↦
          let empty : l ≡ [] = rw there at h in
          rw (handle_subscribe_ack, there, empty)
            (record {
              answers_same = refl;
              multi_same = refl;
              waiting_same = λ other. waiting-unknown s.pending_subscriptions key eg other h;
            })
    ]

pub handle_subscribe_nack-Skipped :
    (key : ServiceKey) (eg : ℕ) (s : RuntimeState)
    → waiting s.pending_subscriptions key eg ≡ []
    → Skipped s (handle_subscribe_nack key eg s) key
unfolding handle_subscribe_nack nack_all
handle_subscribe_nack-Skipped key eg s h =
    elim (Option-cases (get s.pending_subscriptions (pending_key key eg))) [
      | inl unknown ↦
          rw (handle_subscribe_nack, unknown)
            (record { answers_same = refl; multi_same = refl; waiting_same = λ other. refl })
      | inr (l, there) ↦
          let empty : l ≡ [] = rw there at h in
          rw (handle_subscribe_nack, there, empty)
            (record {
              answers_same = refl;
              multi_same = refl;
              waiting_same = λ other. waiting-unknown s.pending_subscriptions key eg other h;
            })
    ]

abbrev pub member : (id : ℕ) → PendingSubscription
member id = record { subscription_id = id; response = none }

abbrev pub tracked : RuntimeState → ServiceKey → (id : ℕ) → Option MultiEventgroupSubscription
tracked s key id = get s.multi_eventgroup_subscriptions (multi_key key id)

abbrev pub with_acked : MultiEventgroupSubscription → ℕ → MultiEventgroupSubscription
with_acked m eg = record m { acked_eventgroups = eg ∷ m.acked_eventgroups }

-- One of the eventgroups of a subscription is acknowledged for the first time.
pub record Acked (s r : RuntimeState) (key : ServiceKey) (id eg response : ℕ)
    (m : MultiEventgroupSubscription) : Type 0 where
  pub waiting_left :
      (other : ℕ)
      → waiting r.pending_subscriptions key other
        ≡ (if eg == other then [] else waiting s.pending_subscriptions key other)
  pub told_last :
      all_acked (with_acked m eg) ≡ true → r.answers ≡ s.answers ++ (response, accepted id) ∷ []
  pub told_later :
      all_acked (with_acked m eg) ≡ false
      → (r.answers ≡ s.answers) × (tracked r key id ≡ some (with_acked m eg))

handle_subscribe_ack-one :
    (key : ServiceKey) (eg id : ℕ) (s : RuntimeState)
    → waiting s.pending_subscriptions key eg ≡ member id ∷ []
    → handle_subscribe_ack key eg s
      ≡ ack_pending key eg (member id) (take_pending (pending_key key eg) s)
unfolding handle_subscribe_ack ack_all
handle_subscribe_ack-one key eg id s h =
    elim (Option-cases (get s.pending_subscriptions (pending_key key eg))) [
      | inl unknown ↦ absurd (cc (rw unknown at h))
      | inr (l, there) ↦
          let one : l ≡ member id ∷ [] = rw there at h in rw (handle_subscribe_ack, there, one) refl
    ]

ack_pending-last :
    (key : ServiceKey) (eg id response : ℕ) (s : RuntimeState) (m : MultiEventgroupSubscription)
    → tracked s key id ≡ some m
    → m.response ≡ some response
    → contains m.acked_eventgroups eg ≡ false
    → all_acked (with_acked m eg) ≡ true
    → ack_pending key eg (member id) s ≡ record s {
      multi_eventgroup_subscriptions = remove s.multi_eventgroup_subscriptions (multi_key key id);
      answers = s.answers ++ (response, accepted id) ∷ [];
    }
unfolding ack_pending answer
ack_pending-last key eg id response s m known asked new last =
    rw (ack_pending, known, new, last, asked) refl

ack_pending-later :
    (key : ServiceKey) (eg id : ℕ) (s : RuntimeState) (m : MultiEventgroupSubscription)
    → tracked s key id ≡ some m
    → contains m.acked_eventgroups eg ≡ false
    → all_acked (with_acked m eg) ≡ false
    → ack_pending key eg (member id) s ≡ record s {
      multi_eventgroup_subscriptions =
          insert s.multi_eventgroup_subscriptions (multi_key key id) (with_acked m eg);
    }
unfolding ack_pending answer
ack_pending-later key eg id s m known new later = rw (ack_pending, known, new, later) refl

pub handle_subscribe_ack-Acked :
    (key : ServiceKey) (eg id response : ℕ) (s : RuntimeState) (m : MultiEventgroupSubscription)
    → waiting s.pending_subscriptions key eg ≡ member id ∷ []
    → tracked s key id ≡ some m
    → m.response ≡ some response
    → contains m.acked_eventgroups eg ≡ false
    → Acked s (handle_subscribe_ack key eg s) key id eg response m
handle_subscribe_ack-Acked key eg id response s m waits known asked new =
    rw (handle_subscribe_ack-one key eg id s waits)
      (elim (Bool-cases (all_acked (with_acked m eg))) [
        | inl last ↦
            rw
              (ack_pending-last key eg id response (take_pending (pending_key key eg) s) m known
                asked new last)
              (record {
                waiting_left = waiting-remove s.pending_subscriptions key eg;
                told_last = λ h. refl;
                told_later = λ h. absurd (cc (last, h));
              })
        | inr later ↦
            rw (ack_pending-later key eg id (take_pending (pending_key key eg) s) m known new later)
              (record {
                waiting_left = waiting-remove s.pending_subscriptions key eg;
                told_last = λ h. absurd (cc (later, h));
                told_later = λ h. (
                  refl,
                  get-insert s.multi_eventgroup_subscriptions (multi_key key id) (multi_key key id)
                        (with_acked m eg)
                      ∙ rw (multi_key_beq_refl (multi_key key id)) refl,
                );
              })
      ])
