-- ===== src/Offers/Registered.antt =====
-- Which events of a service are registered.
use recentip.Prelude.{
  ℕ, ◌≡◌, refl, ap, ◌∙◌, ◌==◌, ◌&&◌, ◌||◌, Bool, true, false, not, if◌then◌else◌, List, [], ◌∷◌,
  arith, Bool-cases, Option-cases, inl, inr,
}
use recentip.Prelude.Maps.{
  Map, get, insert, remove, contains_key, or_default, get-insert, get-remove,
}
use recentip.Config.{contains}
use recentip.Sd.{ServiceKey}
use recentip.State.Keys.{ServiceKey-Eq, service_key_beq, service_key_eq_of_beq}
use recentip.State.{RuntimeState}
use recentip.Offers.{
  RegisterResult, registered, not_offered, already_registered, handle_register_event, stop_offer,
}

abbrev pub is_registered : RuntimeState → ServiceKey → (event_id : ℕ) → Bool
is_registered state key event_id =
    contains (or_default [] (get state.registered_events key)) event_id

abbrev pub expected : RuntimeState → ServiceKey → (event_id : ℕ) → RegisterResult
expected state key event_id =
    if contains_key state.offered key
    then if is_registered state key event_id then already_registered else registered
    else not_offered

abbrev pub is_success : RegisterResult → Bool
is_success registered = true
is_success _ = false

contains-insert :
    (m : Map ServiceKey (List ℕ)) (key other : ServiceKey) (events : List ℕ) (id : ℕ)
    → contains (or_default [] (get (insert m key events) other)) id ≡ (
        if service_key_beq key other
        then contains events id
        else contains (or_default [] (get m other)) id)
contains-insert m key other events id =
    rw (get-insert m key other events) (elim (Bool-cases (service_key_beq key other)) [
      | inl hit ↦ rw hit refl
      | inr miss ↦ rw miss refl
    ])

contains-remove :
    (m : Map ServiceKey (List ℕ)) (key other : ServiceKey) (id : ℕ)
    → contains (or_default [] (get (remove m key) other)) id
      ≡ (not (service_key_beq key other) && contains (or_default [] (get m other)) id)
contains-remove m key other id =
    rw (get-remove m key other) (elim (Bool-cases (service_key_beq key other)) [
      | inl hit ↦ rw hit refl
      | inr miss ↦ rw miss refl
    ])

or_false : (a : Bool) → a ≡ (a || false)
or_false a = ground arith

keeps : (hit a b : Bool) → (hit ≡ true → b ≡ a) → (if hit then a else b) ≡ (b || false)
keeps hit a b h = ground arith

adds :
    (hit new a b : Bool)
    → (hit ≡ true → b ≡ a)
    → (if hit then new || a else b) ≡ (b || (hit && new))
adds hit new a b h = ground arith

register-result :
    (key : ServiceKey) (event_id : ℕ) (s : RuntimeState)
    → (handle_register_event key event_id s).0 ≡ expected s key event_id
unfolding handle_register_event
register-result key event_id s = ground arith

registered-register :
    (key other : ServiceKey) (event_id id : ℕ) (s : RuntimeState)
    → is_registered (handle_register_event key event_id s).1 other id ≡ (
        is_registered s other id
        || (is_success (expected s key event_id) && (service_key_beq key other && event_id == id)))
unfolding handle_register_event
registered-register key other event_id id s =
    let events = or_default [] (get s.registered_events key) in
    let same : service_key_beq key other ≡ true
        → or_default [] (get s.registered_events other) ≡ events =
      λ h. rw (service_key_eq_of_beq key other h) refl in
    elim (Bool-cases (contains_key s.offered key)) [
      | inr unknown ↦ rw (handle_register_event, unknown) (or_false (is_registered s other id))
      | inl offered ↦ elim (Bool-cases (contains events event_id)) [
        | inl there ↦
            rw (handle_register_event, offered, there)
              (contains-insert s.registered_events key other events id
                ∙ keeps (service_key_beq key other) _ _ (λ h. ap (λ l. contains l id) (same h)))
        | inr new ↦
            rw (handle_register_event, offered, new)
              (contains-insert s.registered_events key other (event_id ∷ events) id
                ∙ adds (service_key_beq key other) (event_id == id) _ _
                    (λ h. ap (λ l. contains l id) (same h)))
      ]
    ]

registered-stop :
    (key other : ServiceKey) (id : ℕ) (s : RuntimeState)
    → is_registered (stop_offer key s).1 other id
      ≡ (not (service_key_beq key other) && is_registered s other id)
unfolding stop_offer
registered-stop key other id s = elim (Option-cases (get s.offered key)) [
  | inl unknown ↦ rw (stop_offer, unknown) (contains-remove s.registered_events key other id)
  | inr (o, known) ↦ rw (stop_offer, known) (contains-remove s.registered_events key other id)
]

-- An event is registered exactly if its service is offered and has not registered it; no other event
-- is registered with it, and none is lost. The end of an offer takes out the events of its service,
-- and no others, so that the service may register them again when it is offered again.
pub register_event-Outcome :
    (key other : ServiceKey) (event_id id : ℕ) (s : RuntimeState)
    → ((handle_register_event key event_id s).0 ≡ expected s key event_id)
      × (is_registered (handle_register_event key event_id s).1 other id ≡ (
          is_registered s other id
          || (is_success (expected s key event_id)
              && (service_key_beq key other && event_id == id))))
      × (is_registered (stop_offer key s).1 other id
          ≡ (not (service_key_beq key other) && is_registered s other id))
register_event-Outcome key other event_id id s = (
  register-result key event_id s,
  registered-register key other event_id id s,
  registered-stop key other id s,
)
