-- ===== src/Cluster.antt =====
-- src/runtime/event_loop.rs: `cluster_sd_actions`, which merges the service discovery messages that
-- go to one target.
pub mod Merge
pub mod Targets
use recentip.Prelude.{
  ℕ, ◌+◌, ◌%◌, ◌^◌, ltb, leb, if◌then◌else◌, List, [], ◌∷◌, ◌++◌, none, some, length, map,
}
use recentip.Prelude.Maps.{Map, get, insert, or_default}
use recentip.Wire.SdEntry.{SdEntry}
use recentip.Wire.SdOption.{SdOption, SocketAddrV4}
use recentip.Wire.SdMessage.{SdMessage, new, add_entry, add_option}
use recentip.State.Keys.{SocketAddrV4-Eq}
use recentip.State.{Action, send_sd}

-- `saturating_add` on a u8.
abbrev pub saturating_add : ℕ → ℕ → ℕ
saturating_add x y = if ltb 255 (x + y) then 255 else x + y

unfoldable pub rebase : (option_offset : ℕ) → SdEntry → SdEntry
rebase option_offset e = record e {
  index_1st_option =
      if ltb 0 e.num_options_1
      then saturating_add e.index_1st_option option_offset
      else e.index_1st_option;
  index_2nd_option =
      if ltb 0 e.num_options_2
      then saturating_add e.index_2nd_option option_offset
      else e.index_2nd_option;
}

unfoldable pub add_options : SdMessage → List SdOption → SdMessage
unfolding add_option
add_options m [] = m
add_options m (o ∷ os) = add_options (add_option m o).0 os

unfoldable pub add_entries : SdMessage → (option_offset : ℕ) → List SdEntry → SdMessage
unfolding add_entry rebase
add_entries m option_offset [] = m
add_entries m option_offset (e ∷ es) =
    add_entries (add_entry m (rebase option_offset e)).0 option_offset es

-- The options of a message and then its entries go to the end of the clustered one. The offset is
-- `len() as u8`.
unfoldable pub merge : (clustered message : SdMessage) → SdMessage
unfolding add_options add_entries
merge clustered message =
    add_entries (add_options clustered message.options) (length clustered.options % 2 ^ 8)
      message.entries

-- `entry(target).or_insert_with(…)`, and the merge into it.
unfoldable pub merge_at :
    Map SocketAddrV4 SdMessage → SdMessage → SocketAddrV4 → Map SocketAddrV4 SdMessage
unfolding merge
merge_at sd_by_target message target =
    insert sd_by_target target
      (merge (or_default (new message.flags) (get sd_by_target target)) message)

-- The loop over the actions.
unfoldable pub cluster :
    Map SocketAddrV4 SdMessage
    → List Action
    → List Action
    → Map SocketAddrV4 SdMessage × List Action
unfolding merge_at
cluster sd_by_target other_actions [] = (sd_by_target, other_actions)
cluster sd_by_target other_actions (send_sd message target ∷ actions) =
    cluster (merge_at sd_by_target message target) other_actions actions
cluster sd_by_target other_actions (other ∷ actions) =
    cluster sd_by_target (other_actions ++ other ∷ []) actions

abbrev pub send_all : Map SocketAddrV4 SdMessage → List Action
send_all [] = []
send_all ((target, message) ∷ rest) = send_sd message target ∷ send_all rest

-- The hash map's entries are sent in the order of their first message, which stands for its
-- unspecified one.
unfoldable pub cluster_sd_actions : List Action → List Action
unfolding cluster
cluster_sd_actions actions =
    let (sd_by_target, other_actions) = cluster [] [] actions in
    other_actions ++ send_all sd_by_target
