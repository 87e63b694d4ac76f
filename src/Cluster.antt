-- ===== src/Cluster.antt =====
-- cluster/cluster_node.h, cluster/cluster_view.cpp and cluster/cluster.cpp: the flags of a node, the check for nodes
-- that do not answer, and the update of the state of the cluster.
pub mod Offline
pub mod Quorum
pub mod Gossip
pub mod SameSecond
pub mod Asked
pub mod Described
pub mod Meet
use naruto.Prelude.{
  ℕ, ◌+◌, ◌-◌, ◌*◌, ◌/◌, ◌%◌, Bool, true, false, ◌||◌, ◌&&◌, not, Option, none, some, List, [], ◌∷◌,
  ltb, leb, ◌==◌, if◌then◌else◌,
}

-- clientLink::flags, each a power of two.
abbrev pub master_flag : ℕ
master_flag = 1

abbrev pub pfail_flag : ℕ
pfail_flag = 4

abbrev pub fail_flag : ℕ
fail_flag = 8

abbrev pub myself_flag : ℕ
myself_flag = 16

abbrev pub handshake_flag : ℕ
handshake_flag = 32

-- flags & flag, for a flag of one bit.
unfoldable pub has_flag : ℕ → ℕ → Bool
has_flag flag flags = flags / flag % 2 == 1

-- clusterNode; of its link, the time at which it was made. Times are in seconds.
pub record ClusterNode : Type 0 where
  pub flags : ℕ
  pub numslots : ℕ
  pub ping_sent : ℕ
  pub pong_received : ℕ
  pub link : Option ℕ

abbrev pub is_master : ClusterNode → Bool
is_master node = has_flag master_flag node.flags

abbrev pub is_pfail : ClusterNode → Bool
is_pfail node = has_flag pfail_flag node.flags

abbrev pub is_fail : ClusterNode → Bool
is_fail node = has_flag fail_flag node.flags

abbrev pub is_myself : ClusterNode → Bool
is_myself node = has_flag myself_flag node.flags

abbrev pub is_handshake : ClusterNode → Bool
is_handshake node = has_flag handshake_flag node.flags

-- flags |= flag
unfoldable pub set_flag : ℕ → ClusterNode → ClusterNode
set_flag flag node =
    if has_flag flag node.flags then node else record node { flags = node.flags + flag }

-- The test for a link to be closed, with the time at which it was made.
unfoldable pub is_silent : ℕ → ℕ → ℕ → ClusterNode → Bool
is_silent timeout now ctime node =
    ltb (ctime + timeout) now
    && (ltb 0 node.ping_sent
        && (ltb node.pong_received node.ping_sent && ltb (node.ping_sent + timeout / 2) now))

abbrev pub has_silent_link : ℕ → ℕ → ClusterNode → Bool
has_silent_link timeout now node = elim node.link [
  | none ↦ false
  | some ctime ↦ is_silent timeout now ctime node
]

-- The code behind the test of the link: whether the state of the node has changed is the second component.
unfoldable pub suspect : ℕ → ℕ → ClusterNode → ClusterNode × Bool
suspect timeout now node =
    if node.ping_sent == 0
    then (node, false)
    else if ltb (node.ping_sent + timeout) now
    then (if is_pfail node || is_fail node then (node, false) else (set_flag pfail_flag node, true))
    else (node, false)

-- The body of the loop of checkOffline.
unfoldable pub check_node : ℕ → ℕ → ClusterNode → ClusterNode × Bool
check_node timeout now node =
    if is_myself node || is_handshake node
    then (node, false)
    else if has_silent_link timeout now node
    then (record node { link = none }, false)
    else suspect timeout now node

-- The nodes that exist, by their addresses in memory.
abbrev pub Heap : Type 0
Heap = ℕ → ClusterNode

unfoldable pub store : ℕ → ClusterNode → Heap → Heap
store ref node heap i = if i == ref then node else heap i

-- checkOffline, over the values of `nodes`, with update_state.
unfoldable pub check_offline : ℕ → ℕ → List ℕ → Heap → Bool → Heap × Bool
check_offline timeout now [] heap changed = (heap, changed)
check_offline timeout now (ref ∷ refs) heap changed =
    let (node, suspected) = check_node timeout now (heap ref) in
    check_offline timeout now refs (store ref node heap) (suspected || changed)

pub data ClusterState : Type 0 where
  ok : ClusterState
  fail : ClusterState

-- clusterView with the static variable of updateView. The number of counted masters is taken to stay below 2^31.
pub record ClusterView : Type 0 where
  pub heap : Heap
  pub nodes : List ℕ
  pub slots : List (Option ℕ)
  pub myself : ℕ
  pub state : ClusterState
  pub size : ℕ
  pub first_call_time_ms : ℕ

-- The loop over the slots.
unfoldable pub slots_state : Heap → List (Option ℕ) → ClusterState
slots_state heap [] = ok
slots_state heap (none ∷ slots) = fail
slots_state heap (some ref ∷ slots) =
    let rest = slots_state heap slots in if is_fail (heap ref) then fail else rest

abbrev pub is_serving : ClusterNode → Bool
is_serving node = is_master node && ltb 0 node.numslots

-- The loop over the nodes: how many masters serve slots, and how many of these have failed.
unfoldable pub serving : Heap → List ℕ → ℕ
serving heap [] = 0
serving heap (ref ∷ refs) =
    let rest = serving heap refs in if is_serving (heap ref) then rest + 1 else rest

unfoldable pub unreachable : Heap → List ℕ → ℕ
unreachable heap [] = 0
unreachable heap (ref ∷ refs) =
    let rest = unreachable heap refs in
    if is_serving (heap ref) && (is_fail (heap ref) || is_fail (heap ref)) then rest + 1 else rest

abbrev pub first_call : ℕ → ClusterView → ℕ
first_call now v = if v.first_call_time_ms == 0 then now else v.first_call_time_ms

-- The test for the protection of writes.
unfoldable pub is_protected : ℕ → ℕ → ClusterView → Bool
is_protected delay now v = is_master (v.heap v.myself) && ltb now (first_call now v + delay)

unfoldable pub update_view : ℕ → ℕ → ClusterView → ClusterView
update_view delay now v =
    if is_protected delay now v
    then (record v { first_call_time_ms = first_call now v })
    else (record v {
      first_call_time_ms = first_call now v;
      size = v.size + serving v.heap v.nodes;
      state =
          if leb ((v.size + serving v.heap v.nodes) / 2 + 1) (unreachable v.heap v.nodes)
          then fail
          else slots_state v.heap v.slots;
    })

abbrev pub is_failed : ClusterState → Bool
is_failed fail = true
is_failed ok = false

-- onClusterCron but for the calls on links: what checkLink and gossip, and the messages since the last tick, have
-- made of the nodes and the slots is in the tick.
pub record Tick : Type 0 where
  pub now_sec : ℕ
  pub now_ms : ℕ
  pub tick_heap : Heap
  pub tick_nodes : List ℕ
  pub tick_slots : List (Option ℕ)

unfoldable pub on_cluster_cron : ℕ → ℕ → Tick → ClusterView → ClusterView
on_cluster_cron timeout delay t v =
    let (heap, update_state) = check_offline timeout t.now_sec t.tick_nodes t.tick_heap false in
    let checked : ClusterView = record v {
      heap = heap;
      nodes = t.tick_nodes;
      slots = t.tick_slots;
    } in
    if update_state && is_failed v.state then update_view delay t.now_ms checked else checked

unfoldable pub run_ticks : ℕ → ℕ → List Tick → ClusterView → ClusterView
run_ticks timeout delay [] v = v
run_ticks timeout delay (t ∷ ts) v = run_ticks timeout delay ts (on_cluster_cron timeout delay t v)
