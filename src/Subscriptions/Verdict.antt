-- ===== src/Subscriptions/Verdict.antt =====
-- A subscription of several eventgroups, from the subscribing to the answer.
use recentip.Prelude.{
  ℕ, ◌≡◌, refl, sym, ap, ◌∙◌, ◌⊎◌, ◌==◌, ◌&&◌, Bool, true, false, not, if◌then◌else◌, List, [], ◌∷◌,
  ◌++◌, append-nil, some, arith, Bool-cases, inl, inr,
}
use recentip.Prelude.Maps.{get, all_of, nat_eq_of_beq}
use recentip.Config.{contains}
use recentip.Sd.{ServiceKey}
use recentip.State.Keys.{PendingSubscriptionKey-Eq, MultiEventgroupSubscriptionKey-Eq}
use recentip.State.{
  RuntimeState, MultiEventgroupSubscription, PendingSubscription, Answer, accepted, rejected,
}
use recentip.Subscriptions.{multi_key}
use recentip.Subscriptions.Acks.{handle_subscribe_ack, handle_subscribe_nack}
use recentip.Subscriptions.Answers.{
  waiting, Skipped, Acked, member, tracked, handle_subscribe_ack-Skipped,
  handle_subscribe_nack-Skipped, handle_subscribe_ack-Acked,
}
use recentip.Subscriptions.Refused.{handle_subscribe_nack-Nacked}

-- The answers of the server, one for each eventgroup, as they arrive.
pub data Reply : Type 0 where
  ack nack : (eventgroup_id : ℕ) → Reply

unfoldable pub after_replies : ServiceKey → List Reply → RuntimeState → RuntimeState
unfolding handle_subscribe_ack handle_subscribe_nack
after_replies key [] s = s
after_replies key (ack eg ∷ rs) s = after_replies key rs (handle_subscribe_ack key eg s)
after_replies key (nack eg ∷ rs) s = after_replies key rs (handle_subscribe_nack key eg s)

-- What the caller is to be told, if some eventgroups are acknowledged already: the first refusal of an
-- eventgroup that is not acknowledged, or the acceptance when all of them are.
abbrev pub verdict : (egs acked : List ℕ) → (id : ℕ) → List Reply → List Answer
verdict egs acked id [] = []
verdict egs acked id (ack eg ∷ rs) =
    if contains egs eg && not (contains acked eg)
    then (if all_of (contains (eg ∷ acked)) egs
        then accepted id ∷ []
        else verdict egs (eg ∷ acked) id rs)
    else verdict egs acked id rs
verdict egs acked id (nack eg ∷ rs) =
    if contains egs eg && not (contains acked eg) then rejected ∷ [] else verdict egs acked id rs

abbrev pub tell : (response : ℕ) → List Answer → List (ℕ × Answer)
tell response [] = []
tell response (a ∷ rest) = (response, a) ∷ tell response rest

-- Nobody waits for the eventgroups of the service any more.
abbrev Settled : RuntimeState → ServiceKey → Type 0
Settled s key = (other : ℕ) → waiting s.pending_subscriptions key other ≡ []

after_replies-Settled :
    (key : ServiceKey) (rs : List Reply) (s : RuntimeState)
    → Settled s key
    → (after_replies key rs s).answers ≡ s.answers
unfolding after_replies
after_replies-Settled key [] s settled = refl
after_replies-Settled key (ack eg ∷ rs) s settled =
    let k = handle_subscribe_ack-Skipped key eg s (settled eg) in
    after_replies-Settled key rs (handle_subscribe_ack key eg s)
      (λ other. k.waiting_same other ∙ settled other)
    ∙ k.answers_same
after_replies-Settled key (nack eg ∷ rs) s settled =
    let k = handle_subscribe_nack-Skipped key eg s (settled eg) in
    after_replies-Settled key rs (handle_subscribe_nack key eg s)
      (λ other. k.waiting_same other ∙ settled other)
    ∙ k.answers_same

-- The subscription waits for its eventgroups that are not acknowledged, and no other waits for one of
-- the service.
pub record Waiting (s : RuntimeState) (key : ServiceKey) (id response : ℕ) (egs acked : List ℕ)
    : Type 0 where
  pub waits :
      (other : ℕ)
      → waiting s.pending_subscriptions key other
        ≡ (if contains egs other && not (contains acked other) then member id ∷ [] else [])
  pub known :
      tracked s key id
      ≡ some (record { eventgroup_ids = egs; acked_eventgroups = acked; response = some response })

Waiting-Skipped :
    (s r : RuntimeState) (key : ServiceKey) (id response : ℕ) (egs acked : List ℕ)
    → Waiting s key id response egs acked
    → Skipped s r key
    → Waiting r key id response egs acked
Waiting-Skipped s r key id response egs acked w k = record {
  waits = λ other. k.waiting_same other ∙ w.waits other;
  known = (λ i. get (k.multi_same i) (multi_key key id)) ∙ w.known;
}

and_left : (a b : Bool) → (a && b) ≡ true → a ≡ true
and_left a b h = ground arith

and_right : (a b : Bool) → (a && b) ≡ true → b ≡ true
and_right a b h = ground arith

not_right : (a b : Bool) → (a && not b) ≡ true → b ≡ false
not_right a b h = ground arith

if-and_false :
    (a : Bool) (l : List PendingSubscription)
    → ◌≡◌ {A = List PendingSubscription} (if a && false then l else []) []
if-and_false true l = refl
if-and_false false l = refl

all_of-contains :
    (p : ℕ → Bool) (egs : List ℕ) (eg : ℕ)
    → all_of p egs ≡ true
    → contains egs eg ≡ true
    → p eg ≡ true
all_of-contains p [] eg all there = absurd (cc there)
all_of-contains p (first ∷ egs) eg all there = elim (Bool-cases (first == eg)) [
  | inl hit ↦ rw (nat_eq_of_beq first eg hit) at (and_left (p first) (all_of p egs) all)
  | inr miss ↦ all_of-contains p egs eg (and_right (p first) (all_of p egs) all) (rw miss at there)
]

-- All eventgroups are acknowledged, so nobody waits.
all_acked-nobody :
    (egs acked : List ℕ) (other : ℕ) (p : PendingSubscription)
    → all_of (contains acked) egs ≡ true
    → ◌≡◌ {A = List PendingSubscription}
        (if contains egs other && not (contains acked other) then p ∷ [] else [])
        []
all_acked-nobody egs acked other p all = elim (Bool-cases (contains egs other)) [
  | inl there ↦ rw (there, all_of-contains (contains acked) egs other all there) refl
  | inr missing ↦ rw missing refl
]

-- One of the eventgroups is acknowledged, and who waits for the others.
left_waiting :
    (eg other : ℕ) (egs acked : List ℕ) (p : PendingSubscription)
    → ◌≡◌ {A = List PendingSubscription}
        (if eg == other
          then []
          else (if contains egs other && not (contains acked other) then p ∷ [] else []))
        (if contains egs other && not (contains (eg ∷ acked) other) then p ∷ [] else [])
left_waiting eg other egs acked p = elim (Bool-cases (eg == other)) [
  | inl hit ↦ rw hit (sym (if-and_false (contains egs other) (p ∷ [])))
  | inr miss ↦ rw miss refl
]

abbrev pub tracking : (egs acked : List ℕ) → (response : ℕ) → MultiEventgroupSubscription
tracking egs acked response = record {
  eventgroup_ids = egs;
  acked_eventgroups = acked;
  response = some response;
}

Waiting-Acked :
    (s r : RuntimeState) (key : ServiceKey) (id response eg : ℕ) (egs acked : List ℕ)
    → Waiting s key id response egs acked
    → Acked s r key id eg response (tracking egs acked response)
    → all_of (contains (eg ∷ acked)) egs ≡ false
    → Waiting r key id response egs (eg ∷ acked)
Waiting-Acked s r key id response eg egs acked w a later = record {
  waits = λ other.
      a.waiting_left other ∙ rw (w.waits other) (left_waiting eg other egs acked (member id));
  known = (a.told_later later).1;
}

Settled-Acked :
    (s r : RuntimeState) (key : ServiceKey) (id response eg : ℕ) (egs acked : List ℕ)
    → Waiting s key id response egs acked
    → Acked s r key id eg response (tracking egs acked response)
    → all_of (contains (eg ∷ acked)) egs ≡ true
    → Settled r key
Settled-Acked s r key id response eg egs acked w a last = λ other.
    a.waiting_left other
    ∙ rw (w.waits other) (left_waiting eg other egs acked (member id))
    ∙ all_acked-nobody egs (eg ∷ acked) other (member id) last

alone :
    (s : RuntimeState) (key : ServiceKey) (id response : ℕ) (egs acked : List ℕ)
    → Waiting s key id response egs acked
    → (other : ℕ)
    → (waiting s.pending_subscriptions key other ≡ [])
      ⊎ ((waiting s.pending_subscriptions key other ≡ member id ∷ []) × (contains egs other ≡ true))
alone s key id response egs acked w other =
    elim (Bool-cases (contains egs other && not (contains acked other))) [
      | inr nobody ↦ inl (w.waits other ∙ rw nobody refl)
      | inl due ↦ inr (w.waits other ∙ rw due refl, and_left (contains egs other) _ due)
    ]

pub after_replies-Waiting :
    (key : ServiceKey) (id response : ℕ) (egs acked : List ℕ) (rs : List Reply) (s : RuntimeState)
    → Waiting s key id response egs acked
    → (after_replies key rs s).answers ≡ s.answers ++ tell response (verdict egs acked id rs)
unfolding after_replies
after_replies-Waiting key id response egs acked [] s w = sym (append-nil s.answers)
after_replies-Waiting key id response egs acked (ack eg ∷ rs) s w =
    elim (Bool-cases (contains egs eg && not (contains acked eg))) [
      | inr nobody ↦
          let k = handle_subscribe_ack-Skipped key eg s (w.waits eg ∙ rw nobody refl) in
          rw nobody (
            after_replies-Waiting key id response egs acked rs (handle_subscribe_ack key eg s)
              (Waiting-Skipped s _ key id response egs acked w k)
            ∙ ap (λ l. l ++ tell response (verdict egs acked id rs)) k.answers_same)
      | inl due ↦
          let a =
            handle_subscribe_ack-Acked key eg id response s (tracking egs acked response)
              (w.waits eg ∙ rw due refl) w.known refl
              (not_right (contains egs eg) (contains acked eg) due) in
          elim (Bool-cases (all_of (contains (eg ∷ acked)) egs)) [
            | inl last ↦
                rw (due, last)
                  (after_replies-Settled key rs (handle_subscribe_ack key eg s)
                      (Settled-Acked s _ key id response eg egs acked w a last)
                    ∙ a.told_last last)
            | inr later ↦
                rw (due, later)
                  (after_replies-Waiting key id response egs (eg ∷ acked) rs
                      (handle_subscribe_ack key eg s)
                      (Waiting-Acked s _ key id response eg egs acked w a later)
                    ∙ ap (λ l. l ++ tell response (verdict egs (eg ∷ acked) id rs))
                        (a.told_later later).0)
          ]
    ]
after_replies-Waiting key id response egs acked (nack eg ∷ rs) s w =
    elim (Bool-cases (contains egs eg && not (contains acked eg))) [
      | inr nobody ↦
          let k = handle_subscribe_nack-Skipped key eg s (w.waits eg ∙ rw nobody refl) in
          rw nobody (
            after_replies-Waiting key id response egs acked rs (handle_subscribe_nack key eg s)
              (Waiting-Skipped s _ key id response egs acked w k)
            ∙ ap (λ l. l ++ tell response (verdict egs acked id rs)) k.answers_same)
      | inl due ↦
          let n =
            handle_subscribe_nack-Nacked key eg id response s (tracking egs acked response)
              (w.waits eg ∙ rw due refl) w.known refl (alone s key id response egs acked w) in
          rw due
            (after_replies-Settled key rs (handle_subscribe_nack key eg s) n.nobody_waits ∙ n.told)
    ]
