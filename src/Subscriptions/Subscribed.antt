-- ===== src/Subscriptions/Subscribed.antt =====
-- A subscription of several eventgroups, from the command to the answer.
use recentip.Prelude.{
  ℕ, ◌≡◌, refl, ◌∙◌, ◌==◌, ◌&&◌, ltb, Bool, true, false, if◌then◌else◌, List, [], ◌∷◌, ◌++◌, none,
  length, Bool-cases, inl, inr,
}
use recentip.Prelude.Maps.{insert, get-insert, nat_eq_of_beq}
use recentip.Config.{contains}
use recentip.Sd.{ServiceKey}
use recentip.State.Keys.{
  PendingSubscriptionKey-Eq, MultiEventgroupSubscriptionKey-Eq, multi_key_beq_refl,
}
use recentip.State.{RuntimeState, PendingSubscription}
use recentip.Subscriptions.{
  NewSubscription, pending_key, multi_key, track_pending, record_subscription_state,
}
use recentip.Subscriptions.Answers.{Pending, waiting, member, pending_key_beq-pending_key}
use recentip.Subscriptions.Verdict.{
  Reply, after_replies, verdict, tell, tracking, Waiting, after_replies-Waiting,
}

-- No eventgroup stands twice.
abbrev pub Unique : List ℕ → Type 0
Unique [] = Unit
Unique (eg ∷ egs) = (contains egs eg ≡ false) × Unique egs

waiting-insert :
    (pending : Pending) (key : ServiceKey) (eg other : ℕ) (l : List PendingSubscription)
    → waiting (insert pending (pending_key key eg) l) key other
      ≡ (if eg == other then l else waiting pending key other)
waiting-insert pending key eg other l =
    rw
      (
        get-insert pending (pending_key key eg) (pending_key key other) l,
        pending_key_beq-pending_key key eg other,
      )
      (elim (Bool-cases (eg == other)) [ inl hit ↦ rw hit refl | inr miss ↦ rw miss refl ])

-- Each of the eventgroups has one more that waits.
waiting-track_pending :
    (key : ServiceKey) (id : ℕ) (egs : List ℕ) (pending : Pending) (other : ℕ)
    → Unique egs
    → waiting (track_pending key id none egs pending).1 key other ≡ (
        if contains egs other
        then waiting pending key other ++ member id ∷ []
        else waiting pending key other)
unfolding track_pending
waiting-track_pending key id [] pending other u = refl
waiting-track_pending key id (eg ∷ egs) pending other u =
    let l = waiting pending key eg ++ member id ∷ [] in
    waiting-track_pending key id egs (insert pending (pending_key key eg) l) other u.1
    ∙ rw (waiting-insert pending key eg other l) (elim (Bool-cases (eg == other)) [
      | inl hit ↦ let q = nat_eq_of_beq eg other hit in rw (hit, rw q at (u.0)) (rw q refl)
      | inr miss ↦ rw miss refl
    ])

one_or_none :
    (there : Bool) (p : PendingSubscription)
    → ◌≡◌ {A = List PendingSubscription}
        (if there then [] ++ p ∷ [] else [])
        (if there && true then p ∷ [] else [])
one_or_none true p = refl
one_or_none false p = refl

record_subscription_state-Waiting :
    (s : RuntimeState) (key : ServiceKey) (egs : List ℕ) (new : NewSubscription)
    → ltb 1 (length egs) ≡ true
    → Unique egs
    → ((eg : ℕ) → waiting s.pending_subscriptions key eg ≡ [])
    → Waiting
        (record_subscription_state s key egs new).1
        key
        new.subscription_id
        new.response
        egs
        []
unfolding record_subscription_state
record_subscription_state-Waiting s key egs new several u nobody =
    rw (record_subscription_state, several)
      (record {
        waits = λ other.
            waiting-track_pending key new.subscription_id egs s.pending_subscriptions other u
            ∙ rw (nobody other) (one_or_none (contains egs other) (member new.subscription_id));
        known =
            get-insert s.multi_eventgroup_subscriptions (multi_key key new.subscription_id)
              (multi_key key new.subscription_id) (tracking egs [] new.response)
            ∙ rw (multi_key_beq_refl (multi_key key new.subscription_id)) refl;
      })

-- What the caller of a subscription is told. For a subscription of several eventgroups, none of them named
-- twice, of a service for which nobody waits, and answers of the server in whatever order and number: the
-- rejection at the first refusal of an eventgroup that is not acknowledged yet, or the acceptance when the
-- last of them is acknowledged, whichever comes first, or nothing yet; it is never told twice. A refusal of
-- an eventgroup that is acknowledged already does not change what it is told.
pub subscription_verdict :
    (s : RuntimeState) (key : ServiceKey) (egs : List ℕ) (new : NewSubscription) (rs : List Reply)
    → ltb 1 (length egs) ≡ true
    → Unique egs
    → ((eg : ℕ) → waiting s.pending_subscriptions key eg ≡ [])
    → (after_replies key rs (record_subscription_state s key egs new).1).answers
      ≡ s.answers ++ tell new.response (verdict egs [] new.subscription_id rs)
unfolding record_subscription_state
subscription_verdict s key egs new rs several u nobody =
    after_replies-Waiting key new.subscription_id new.response egs [] rs
      (record_subscription_state s key egs new).1
      (record_subscription_state-Waiting s key egs new several u nobody)
