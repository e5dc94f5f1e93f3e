-- ===== src/Subscriptions/Refused.antt =====
-- What the refusal of one eventgroup changes.
use recentip.Prelude.{
  ℕ, ◌≡◌, refl, ◌∙◌, ◌⊎◌, ◌==◌, ◌||◌, Bool, true, false, not, if◌then◌else◌, List, [], ◌∷◌, ◌++◌,
  some, arith, Bool-cases, Option-cases, inl, inr,
}
use recentip.Prelude.Maps.{get, remove, modify, filter, get-modify, nat_beq_refl}
use recentip.Config.{contains}
use recentip.Sd.{ServiceKey}
use recentip.State.Keys.{
  PendingSubscriptionKey-Eq, MultiEventgroupSubscriptionKey-Eq, ServiceKey-Eq,
}
use recentip.State.{
  RuntimeState, PendingSubscription, MultiEventgroupSubscription, rejected, answer,
}
use recentip.Subscriptions.{pending_key, multi_key}
use recentip.Subscriptions.Acks.{
  take_pending, forget_pending, nack_pending, nack_all, handle_subscribe_nack,
}
use recentip.Subscriptions.Answers.{
  Pending, waiting, waiting-remove, member, tracked, pending_key_beq-pending_key,
}

handle_subscribe_nack-one :
    (key : ServiceKey) (eg id : ℕ) (s : RuntimeState)
    → waiting s.pending_subscriptions key eg ≡ member id ∷ []
    → let r = nack_pending key eg (member id) (take_pending (pending_key key eg) s) in
      handle_subscribe_nack key eg s ≡ record r {
        subscriptions = modify r.subscriptions key (filter (λ x. not (x.eventgroup_id == eg)));
      }
unfolding handle_subscribe_nack nack_all
handle_subscribe_nack-one key eg id s h =
    elim (Option-cases (get s.pending_subscriptions (pending_key key eg))) [
      | inl unknown ↦ absurd (cc (rw unknown at h))
      | inr (l, there) ↦
          let one : l ≡ member id ∷ [] = rw there at h in
          rw (handle_subscribe_nack, there, one) refl
    ]

-- One of the eventgroups of a subscription is refused: its caller is told, and none of its eventgroups
-- waits any more.
pub record Nacked (s r : RuntimeState) (key : ServiceKey) (response : ℕ) : Type 0 where
  pub told : r.answers ≡ s.answers ++ (response, rejected) ∷ []
  pub nobody_waits : (other : ℕ) → waiting r.pending_subscriptions key other ≡ []

filter-alone :
    (id : ℕ) (l : List PendingSubscription)
    → (l ≡ []) ⊎ (l ≡ member id ∷ [])
    → filter (λ p. not (p.subscription_id == id)) l ≡ []
filter-alone id l (inl none_waits) = rw none_waits refl
filter-alone id l (inr one_waits) = rw (one_waits, nat_beq_refl id) refl

abbrev forget_one : ServiceKey → (eg id first : ℕ) → Pending → Pending
forget_one key eg id first pending =
    if first == eg
    then pending
    else modify pending (pending_key key first) (filter (λ p. not (p.subscription_id == id)))

waiting-modify :
    (key : ServiceKey) (id first : ℕ) (pending : Pending) (other : ℕ)
    → (waiting pending key other ≡ []) ⊎ (waiting pending key other ≡ member id ∷ [])
    → waiting
        (modify pending (pending_key key first) (filter (λ p. not (p.subscription_id == id))))
        key
        other
      ≡ (if first == other then [] else waiting pending key other)
waiting-modify key id first pending other w =
    rw
      (
        get-modify pending (pending_key key first) (pending_key key other)
            (filter (λ p. not (p.subscription_id == id))),
        pending_key_beq-pending_key key first other,
      )
      (elim (Bool-cases (first == other)) [
        | inr miss ↦ rw miss refl
        | inl hit ↦ elim (Option-cases (get pending (pending_key key other))) [
          | inl unknown ↦ rw (hit, unknown) refl
          | inr (l, there) ↦ rw (hit, there) (filter-alone id l (rw there at w))
        ]
      ])

waiting-forget_one :
    (key : ServiceKey) (eg id first : ℕ) (pending : Pending) (other : ℕ)
    → (waiting pending key other ≡ []) ⊎ (waiting pending key other ≡ member id ∷ [])
    → (other == eg) ≡ false
    → waiting (forget_one key eg id first pending) key other
      ≡ (if first == other then [] else waiting pending key other)
waiting-forget_one key eg id first pending other w miss = elim (Bool-cases (first == eg)) [
  | inl same ↦ let apart : (first == other) ≡ false = ground arith in rw (same, apart) refl
  | inr differs ↦ rw differs (waiting-modify key id first pending other w)
]

if-same : (b : Bool) → ◌≡◌ {A = List PendingSubscription} (if b then [] else []) []
if-same true = refl
if-same false = refl

either_way :
    (first other id : ℕ) (l : List PendingSubscription)
    → (l ≡ []) ⊎ (l ≡ member id ∷ [])
    → ((if first == other then [] else l) ≡ [])
      ⊎ ((if first == other then [] else l) ≡ member id ∷ [])
either_way first other id l w = elim (Bool-cases (first == other)) [
  | inl hit ↦ rw hit (inl refl)
  | inr miss ↦ rw miss w
]

if_or :
    (a b : Bool) (l : List PendingSubscription)
    → (if b then [] else if a then [] else l) ≡ (if a || b then [] else l)
if_or true true l = refl
if_or true false l = refl
if_or false b l = refl

-- The eventgroups that are not in the list keep who waits, the others forget the subscription.
waiting-forget_pending :
    (key : ServiceKey) (eg id : ℕ) (egs : List ℕ) (pending : Pending) (other : ℕ)
    → (waiting pending key other ≡ []) ⊎ (waiting pending key other ≡ member id ∷ [])
    → (other == eg) ≡ false
    → waiting (forget_pending key eg id egs pending) key other
      ≡ (if contains egs other then [] else waiting pending key other)
unfolding forget_pending
waiting-forget_pending key eg id [] pending other w miss = refl
waiting-forget_pending key eg id (first ∷ egs) pending other w miss =
    let one = waiting-forget_one key eg id first pending other w miss in
    waiting-forget_pending key eg id egs (forget_one key eg id first pending) other
      (rw one (either_way first other id (waiting pending key other) w)) miss
    ∙ rw one (if_or (first == other) (contains egs other) (waiting pending key other))

nack_pending-tracked :
    (key : ServiceKey) (eg id response : ℕ) (s : RuntimeState) (m : MultiEventgroupSubscription)
    → tracked s key id ≡ some m
    → m.response ≡ some response
    → nack_pending key eg (member id) s ≡ record s {
      multi_eventgroup_subscriptions = remove s.multi_eventgroup_subscriptions (multi_key key id);
      answers = s.answers ++ (response, rejected) ∷ [];
      subscriptions = modify s.subscriptions key (filter (λ x. not (x.subscription_id == id)));
      pending_subscriptions = forget_pending key eg id m.eventgroup_ids s.pending_subscriptions;
    }
unfolding nack_pending answer
nack_pending-tracked key eg id response s m known asked = rw (nack_pending, known, asked) refl

forget_pending-nobody :
    (key : ServiceKey) (eg id : ℕ) (egs : List ℕ) (pending : Pending) (other : ℕ)
    → waiting pending key other ≡ []
    → waiting (forget_pending key eg id egs pending) key other ≡ []
unfolding forget_pending
forget_pending-nobody key eg id [] pending other w = w
forget_pending-nobody key eg id (first ∷ egs) pending other w = elim (Bool-cases (first == eg)) [
  | inl same ↦ rw same (forget_pending-nobody key eg id egs pending other w)
  | inr differs ↦ rw differs (
      forget_pending-nobody key eg id egs _ other
        (waiting-modify key id first pending other (inl w) ∙ rw w (if-same (first == other))))
]

pub handle_subscribe_nack-Nacked :
    (key : ServiceKey) (eg id response : ℕ) (s : RuntimeState) (m : MultiEventgroupSubscription)
    → waiting s.pending_subscriptions key eg ≡ member id ∷ []
    → tracked s key id ≡ some m
    → m.response ≡ some response
    → ((other : ℕ)
        → (waiting s.pending_subscriptions key other ≡ [])
          ⊎ ((waiting s.pending_subscriptions key other ≡ member id ∷ [])
              × (contains m.eventgroup_ids other ≡ true)))
    → Nacked s (handle_subscribe_nack key eg s) key response
handle_subscribe_nack-Nacked key eg id response s m waits known asked alone =
    rw
      (
        handle_subscribe_nack-one key eg id s waits,
        nack_pending-tracked key eg id response (take_pending (pending_key key eg) s) m known asked,
      )
      (record {
        told = refl;
        nobody_waits = λ other. elim (Bool-cases (eg == other)) [
          | inl hit ↦
              forget_pending-nobody key eg id m.eventgroup_ids _ other
                (waiting-remove s.pending_subscriptions key eg other ∙ rw hit refl)
          | inr miss ↦
              let left : waiting (remove s.pending_subscriptions (pending_key key eg)) key other
                  ≡ waiting s.pending_subscriptions key other =
                waiting-remove s.pending_subscriptions key eg other ∙ rw miss refl in
              let apart : (other == eg) ≡ false = ground arith in
              elim (alone other) [
                | inl nobody ↦
                    forget_pending-nobody key eg id m.eventgroup_ids _ other (left ∙ nobody)
                | inr (one, in_it) ↦
                    waiting-forget_pending key eg id m.eventgroup_ids _ other (inr (left ∙ one))
                      apart
                    ∙ rw in_it refl
              ]
        ];
      })
