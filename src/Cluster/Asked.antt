-- ===== src/Cluster/Asked.antt =====
-- cluster/cluster_view.cpp, gossip: which node it asks.
use naruto.Prelude.{
  ℕ, ◌≤◌, ◌≡◌, ◌≢◌, ◌/◌, ◌%◌, Bool, true, false, Option, none, some, List, [], ◌∷◌, All, Any,
}
use naruto.Cluster.{ClusterNode, Heap, ClusterView}
use naruto.Cluster.Gossip.{GossipView, CommandGossip, may_ask, random_node, ping, with_ping_sent}

-- A node with a link and no ping under way, which is neither a slave nor in its handshake.
pub record IsFree (node : ClusterNode) : Type 0 where
  pub linked : node.link ≢ none
  pub unpinged : node.ping_sent ≡ 0
  pub no_slave : node.flags / 2 % 2 ≡ 0
  pub no_handshake : node.flags / 32 % 2 ≡ 0

-- Of the nodes that have been drawn, one with the oldest answer among those that are free, or none of them is.
abbrev pub IsChosen : Heap → List ℕ → Option ℕ → Type 0
IsChosen heap refs none = All (λ r. ¬ IsFree (heap r)) refs
IsChosen heap refs (some m) =
    Any (λ r. r ≡ m) refs
    × IsFree (heap m)
    × All (λ r. IsFree (heap r) → (heap m).pong_received ≤ (heap r).pong_received) refs

-- The same by the code's test.
abbrev IsTested : Heap → List ℕ → Option ℕ → Type 0
IsTested heap refs none = All (λ r. may_ask (heap r) ≡ false) refs
IsTested heap refs (some m) =
    Any (λ r. r ≡ m) refs
    × (may_ask (heap m) ≡ true)
    × All (λ r. may_ask (heap r) ≡ true → (heap m).pong_received ≤ (heap r).pong_received) refs

abbrev pub AllDrawn : (ℕ → ℕ → ℕ) → ℕ → ClusterView → List ℕ → List ℕ → Type 0
AllDrawn draw tries v [] [] = Unit
AllDrawn draw tries v [] (ref ∷ refs) = ⊥
AllDrawn draw tries v (sec ∷ secs) [] = ⊥
AllDrawn draw tries v (sec ∷ secs) (ref ∷ refs) =
    (random_node draw tries sec v ≡ some ref) × AllDrawn draw tries v secs refs

-- No later answer than any of the nodes that may be asked.
abbrev IsOldest : Heap → ℕ → ℕ → Type 0
IsOldest heap m r = may_ask (heap r) ≡ true → (heap m).pong_received ≤ (heap r).pong_received

-- What gossip sends, and the view that it leaves, where ping makes `message` for a node.
abbrev pub IsAsked :
    ℕ → GossipView → List ℕ → (ℕ → CommandGossip) → Option (ℕ × CommandGossip) × GossipView → Type 0
IsAsked now g refs message (none, g') = IsChosen g.view.heap refs none × (g' ≡ g)
IsAsked now g refs message (some (m, msg), g') =
    IsChosen g.view.heap refs (some m)
    × (msg ≡ message m)
    × (g'.view.heap m ≡ record (g.view.heap m) { ping_sent = now })
    × ((r : ℕ) → r ≢ m → g'.view.heap r ≡ g.view.heap r)

module _ (draw : ℕ → ℕ → ℕ) (tries now : ℕ) (sec : ℕ → ℕ) (hasin : ℕ → Bool) (fuel : ℕ)
    (g : GossipView) (message : ℕ → CommandGossip) where
  -- For a node that is free, the loop of ping ends, with this message.
  abbrev pub IsAnswered : ℕ → Type 0
  IsAnswered r =
      IsFree (g.view.heap r)
      → ping draw tries sec hasin fuel r (with_ping_sent now r g) ≡ some (message r)
