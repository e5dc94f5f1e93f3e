-- ===== src/Types/Identifiers.antt =====
-- src/lib.rs: the identifiers of services, instances, methods, events and eventgroups, and versions.
use recentip.Prelude.{
  ℕ, ◌==◌, ◌||◌, ◌≡◌, ◌<◌, ◌⊎◌, leb, ltb, Bool, true, false, if◌then◌else◌, Option, none, some,
  arith,
}

pub record ServiceId : Type 0 where
  pub value : ℕ

unfoldable new_service_id : ℕ → Option ServiceId
new_service_id id =
    if id == 0 then none else if id == 0xffff then none else some (record { value = id })

pub data InstanceId : Type 0 where
  any_instance : InstanceId
  instance_id : ℕ → InstanceId

unfoldable new_instance_id : ℕ → Option InstanceId
new_instance_id id =
    if id == 0 then none else if id == 0xffff then some any_instance else some (instance_id id)

unfoldable instance_value : InstanceId → ℕ
instance_value any_instance = 0xffff
instance_value (instance_id id) = id

abbrev is_any_instance : InstanceId → Bool
is_any_instance any_instance = true
is_any_instance (instance_id id) = false

pub record MethodId : Type 0 where
  pub value : ℕ

unfoldable new_method_id : ℕ → Option MethodId
new_method_id id = if leb 0x8000 id then none else some (record { value = id })

pub record EventId : Type 0 where
  pub value : ℕ

unfoldable new_event_id : ℕ → Option EventId
new_event_id id = if ltb id 0x8000 || id == 0xffff then none else some (record { value = id })

pub record EventgroupId : Type 0 where
  pub value : ℕ

unfoldable new_eventgroup_id : ℕ → Option EventgroupId
new_eventgroup_id id =
    if id == 0 then none else if id == 0xffff then none else some (record { value = id })

pub data MajorVersion : Type 0 where
  any_version : MajorVersion
  exact : ℕ → MajorVersion

unfoldable new_major_version : ℕ → MajorVersion
new_major_version version = if version == 0xff then any_version else exact version

unfoldable major_value : MajorVersion → ℕ
major_value any_version = 0xff
major_value (exact v) = v

abbrev is_any_version : MajorVersion → Bool
is_any_version any_version = true
is_any_version (exact v) = false

-- Of the ids below 0xffff each is the id of a method or of an event, and of one of them only.
method_or_event :
    (id : ℕ)
    → id < 0xffff
    → ((new_method_id id ≡ some (record { value = id })) × (new_event_id id ≡ none))
      ⊎ ((new_method_id id ≡ none) × (new_event_id id ≡ some (record { value = id })))
unfolding new_method_id new_event_id
method_or_event id h = ground arith

-- A version is read back from its raw value, and an instance id that is not 0 from its own.
major_value-new : (v : ℕ) → major_value (new_major_version v) ≡ v
unfolding major_value new_major_version
major_value-new v = ground arith

instance_value-new : (id : ℕ) (i : InstanceId) → new_instance_id id ≡ some i → instance_value i ≡ id
unfolding instance_value new_instance_id
instance_value-new id any_instance e = ground arith
instance_value-new id (instance_id j) e = ground arith
