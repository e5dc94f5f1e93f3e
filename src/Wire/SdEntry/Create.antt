-- ===== src/Wire/SdEntry/Create.antt =====
-- src/wire.rs: the constructors of `SdEntry`.
use recentip.Prelude.{ℕ}
use recentip.Wire.SdEntry.{SdEntry, SdEntryType}

unfoldable pub find_service : (service_id instance_id major_version minor_version ttl : ℕ) → SdEntry
find_service service_id instance_id major_version minor_version ttl = record {
  entry_type = SdEntryType.find_service;
  service_id = service_id;
  instance_id = instance_id;
  major_version = major_version;
  ttl = ttl;
  minor_version = minor_version;
  eventgroup_id = 0;
  counter = 0;
  index_1st_option = 0;
  index_2nd_option = 0;
  num_options_1 = 0;
  num_options_2 = 0;
}

unfoldable pub offer_service :
    (service_id instance_id major_version minor_version ttl option_index num_options : ℕ) → SdEntry
offer_service service_id instance_id major_version minor_version ttl option_index num_options =
    record {
      entry_type = SdEntryType.offer_service;
      service_id = service_id;
      instance_id = instance_id;
      major_version = major_version;
      ttl = ttl;
      minor_version = minor_version;
      eventgroup_id = 0;
      counter = 0;
      index_1st_option = option_index;
      index_2nd_option = 0;
      num_options_1 = num_options;
      num_options_2 = 0;
    }

unfoldable pub stop_offer_service :
    (service_id instance_id major_version minor_version : ℕ) → SdEntry
unfolding offer_service
stop_offer_service service_id instance_id major_version minor_version =
    offer_service service_id instance_id major_version minor_version 0 0 0

unfoldable pub subscribe_eventgroup :
    (service_id instance_id major_version eventgroup_id ttl counter : ℕ) → SdEntry
subscribe_eventgroup service_id instance_id major_version eventgroup_id ttl counter = record {
  entry_type = SdEntryType.subscribe_eventgroup;
  service_id = service_id;
  instance_id = instance_id;
  major_version = major_version;
  ttl = ttl;
  minor_version = 0;
  eventgroup_id = eventgroup_id;
  counter = counter;
  index_1st_option = 0;
  index_2nd_option = 0;
  num_options_1 = 0;
  num_options_2 = 0;
}

unfoldable pub subscribe_eventgroup_ack :
    (service_id instance_id major_version eventgroup_id ttl counter : ℕ) → SdEntry
subscribe_eventgroup_ack service_id instance_id major_version eventgroup_id ttl counter = record {
  entry_type = SdEntryType.subscribe_eventgroup_ack;
  service_id = service_id;
  instance_id = instance_id;
  major_version = major_version;
  ttl = ttl;
  minor_version = 0;
  eventgroup_id = eventgroup_id;
  counter = counter;
  index_1st_option = 0;
  index_2nd_option = 0;
  num_options_1 = 0;
  num_options_2 = 0;
}

unfoldable pub subscribe_eventgroup_nack :
    (service_id instance_id major_version eventgroup_id counter : ℕ) → SdEntry
subscribe_eventgroup_nack service_id instance_id major_version eventgroup_id counter = record {
  entry_type = SdEntryType.subscribe_eventgroup_ack;
  service_id = service_id;
  instance_id = instance_id;
  major_version = major_version;
  ttl = 0;
  minor_version = 0;
  eventgroup_id = eventgroup_id;
  counter = counter;
  index_1st_option = 0;
  index_2nd_option = 0;
  num_options_1 = 0;
  num_options_2 = 0;
}
