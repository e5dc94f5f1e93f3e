-- ===== src/Cluster/Targets.antt =====
-- What the clustered actions send to one target.
use recentip.Prelude.{
  ℕ, ap, ◌+◌, ◌≤◌, ◌≡◌, refl, ◌∙◌, if◌then◌else◌, List, [], ◌∷◌, ◌++◌, append_assoc, append-nil,
  Option, none, some, length, All, arith, Bool-cases, inl, inr,
}
use recentip.Prelude.Maps.{Map, get, or_default, get-insert, Distinct, insert-Distinct}
use recentip.Wire.SdEntry.{SdEntry}
use recentip.Wire.SdOption.{SdOption, SocketAddrV4}
use recentip.Wire.SdMessage.{SdMessage, new}
use recentip.State.Keys.{SocketAddrV4-Eq, addr_beq, addr_eq_of_beq}
use recentip.State.{Action, send_sd}
use recentip.Cluster.{merge, merge_at, cluster, send_all, cluster_sd_actions}
use recentip.Cluster.Merge.{IsValid, view, view-merge, merge-IsValid, length-merge, merge_lem}

-- The messages that go to a target, in order, and the actions that send none.
abbrev pub sent_to : SocketAddrV4 → List Action → List SdMessage
sent_to t [] = []
sent_to t (send_sd m target ∷ actions) =
    let rest = sent_to t actions in if addr_beq target t then m ∷ rest else rest
sent_to t (_ ∷ actions) = sent_to t actions

abbrev pub others : List Action → List Action
others [] = []
others (send_sd m target ∷ actions) = others actions
others (a ∷ actions) = a ∷ others actions

abbrev pub total_options : List SdMessage → ℕ
total_options [] = 0
total_options (m ∷ ms) = length m.options + total_options ms

abbrev pub all_views : List SdMessage → List (SdEntry × List SdOption)
all_views [] = []
all_views (m ∷ ms) = view m ++ all_views ms

-- Nothing for nothing; otherwise one message, with the flags of the first, that gives a receiver what
-- the messages give, in order.
abbrev pub Clustered : (original result : List SdMessage) → Type 0
Clustered [] result = result ≡ []
Clustered (m ∷ ms) result =
    (clustered : SdMessage) × (result ≡ clustered ∷ [])
    × (clustered.flags ≡ m.flags)
    × (view clustered ≡ all_views (m ∷ ms))

merged : Option SdMessage → List SdMessage → Option SdMessage
merged o [] = o
merged o (m ∷ ms) = merged (some (merge (or_default (new m.flags) o) m)) ms

merged-view :
    (c : SdMessage) (ms : List SdMessage)
    → IsValid c
    → All IsValid ms
    → length c.options + total_options ms ≤ 256
    → (r : SdMessage) × (merged (some c) ms ≡ some r)
      × (r.flags ≡ c.flags)
      × (view r ≡ view c ++ all_views ms)
unfolding merged
merged-view c [] v w fits = (c, refl, refl, rw (append-nil (view c)) refl)
merged-view c (m ∷ ms) v w fits =
    let (r, e, f, q) =
      merged-view (merge c m) ms (merge-IsValid c m v w.0 (omega arith)) w.1
        (omega (arith, length-merge c m)) in
    (
      r,
      e,
      rw (merge_lem c m) at f,
      q ∙ rw (view-merge c m v w.0 (omega arith), append_assoc (view c) (view m) (all_views ms)),
    )

merged_first :
    (m : SdMessage) (ms : List SdMessage)
    → All IsValid (m ∷ ms)
    → total_options (m ∷ ms) ≤ 256
    → (r : SdMessage) × (merged none (m ∷ ms) ≡ some r)
      × (r.flags ≡ m.flags)
      × (view r ≡ all_views (m ∷ ms))
unfolding merged
merged_first m ms w fits = merged-view (new m.flags) (m ∷ ms) tt w (omega arith)

get-cluster :
    (t : SocketAddrV4) (actions : List Action) (by : Map SocketAddrV4 SdMessage)
    (done : List Action)
    → get (cluster by done actions).0 t ≡ merged (get by t) (sent_to t actions)
unfolding cluster merged merge_at
get-cluster t [] by done = refl
get-cluster t (send_sd m target ∷ actions) by done = elim (Bool-cases (addr_beq target t)) [
  | inl hit ↦
      get-cluster t actions (merge_at by m target) done
      ∙ rw (get-insert by target t, hit, addr_eq_of_beq target t hit) refl
  | inr miss ↦
      get-cluster t actions (merge_at by m target) done ∙ rw (get-insert by target t, miss) refl
]
get-cluster t (a ∷ actions) by done = get-cluster t actions by (done ++ a ∷ [])

others-cluster :
    (actions : List Action) (by : Map SocketAddrV4 SdMessage) (done : List Action)
    → (cluster by done actions).1 ≡ done ++ others actions
unfolding cluster
others-cluster [] by done = rw (append-nil done)
others-cluster (send_sd m target ∷ actions) by done =
    others-cluster actions (merge_at by m target) done
others-cluster (a ∷ actions) by done =
    others-cluster actions by (done ++ a ∷ []) ∙ append_assoc done (a ∷ []) (others actions)

cluster-Distinct :
    (actions : List Action) (by : Map SocketAddrV4 SdMessage) (done : List Action)
    → Distinct by
    → Distinct (cluster by done actions).0
unfolding cluster merge_at
cluster-Distinct [] by done d = d
cluster-Distinct (send_sd m target ∷ actions) by done d =
    cluster-Distinct actions (merge_at by m target) done
      (insert-Distinct by target (merge (or_default (new m.flags) (get by target)) m) d)
cluster-Distinct (a ∷ actions) by done d = cluster-Distinct actions by (done ++ a ∷ []) d

abbrev to_list : Option SdMessage → List SdMessage
to_list none = []
to_list (some m) = m ∷ []

sent_to-send_all-none :
    (t : SocketAddrV4) (by : Map SocketAddrV4 SdMessage)
    → get by t ≡ none
    → sent_to t (send_all by) ≡ []
sent_to-send_all-none t [] h = refl
sent_to-send_all-none t ((u, m) ∷ by) h = elim (Bool-cases (addr_beq u t)) [
  | inl hit ↦ absurd (cc (rw hit at h))
  | inr miss ↦ rw miss (sent_to-send_all-none t by (rw miss at h))
]

sent_to-send_all :
    (t : SocketAddrV4) (by : Map SocketAddrV4 SdMessage)
    → Distinct by
    → sent_to t (send_all by) ≡ to_list (get by t)
sent_to-send_all t [] d = refl
sent_to-send_all t ((u, m) ∷ by) d = elim (Bool-cases (addr_beq u t)) [
  | inl hit ↦ rw (hit, sent_to-send_all-none t by (rw (addr_eq_of_beq u t hit) at (d.0))) refl
  | inr miss ↦ rw miss (sent_to-send_all t by d.1)
]

sent_to-others :
    (t : SocketAddrV4) (actions rest : List Action)
    → sent_to t (others actions ++ rest) ≡ sent_to t rest
sent_to-others t [] rest = refl
sent_to-others t (send_sd m target ∷ actions) rest = sent_to-others t actions rest
sent_to-others t (a ∷ actions) rest = sent_to-others t actions rest

others-append_send_all :
    (actions : List Action) (by : Map SocketAddrV4 SdMessage)
    → others (others actions ++ send_all by) ≡ others actions
others-append_send_all [] [] = refl
others-append_send_all [] ((t, m) ∷ by) = others-append_send_all [] by
others-append_send_all (send_sd m target ∷ actions) by = others-append_send_all actions by
others-append_send_all (a ∷ actions) by = ap (◌∷◌ a) (others-append_send_all actions by)

sent_to-cluster :
    (t : SocketAddrV4) (actions : List Action)
    → sent_to t (cluster_sd_actions actions) ≡ to_list (merged none (sent_to t actions))
unfolding cluster_sd_actions
sent_to-cluster t actions = rw (others-cluster actions [] []) (
    sent_to-others t actions (send_all (cluster [] [] actions).0)
    ∙ sent_to-send_all t (cluster [] [] actions).0 (cluster-Distinct actions [] [] tt)
    ∙ ap to_list (get-cluster t actions [] []))

Clustered-merged :
    (ms : List SdMessage)
    → All IsValid ms
    → total_options ms ≤ 256
    → Clustered ms (to_list (merged none ms))
unfolding merged
Clustered-merged [] w fits = refl
Clustered-merged (m ∷ ms) w fits =
    let (r, e, f, q) = merged_first m ms w fits in (r, unfold merged in ap to_list e, f, q)

-- Each target is sent at most one message, and it gives the receiver what the messages to that target
-- give, in order and under the flags of the first, if their entries refer to options that their
-- message has, and there are at most 256 options in all; the actions that send none stay as they are.
pub cluster_sd_actions-Clustered :
    (actions : List Action) (t : SocketAddrV4)
    → All IsValid (sent_to t actions)
    → total_options (sent_to t actions) ≤ 256
    → Clustered (sent_to t actions) (sent_to t (cluster_sd_actions actions))
      × (others (cluster_sd_actions actions) ≡ others actions)
cluster_sd_actions-Clustered actions t w fits = (
  rw (sent_to-cluster t actions) (Clustered-merged (sent_to t actions) w fits),
  unfold cluster_sd_actions in
      rw (others-cluster actions [] []) (others-append_send_all actions (cluster [] [] actions).0),
)
