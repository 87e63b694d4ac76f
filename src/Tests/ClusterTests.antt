-- ===== src/Tests/ClusterTests.antt =====
-- The view of a cluster: runs on concrete inputs.
use naruto.Prelude.{ℕ, zero, suc, ◌≡◌, refl, false, none, some, [], ◌∷◌, All, arith}
use naruto.Cluster.{
  ClusterNode, ClusterView, ok, fail, Heap, Tick, has_flag, set_flag, is_protected, serving,
  slots_state, unreachable, update_view, check_offline, check_node, suspect, is_silent, store,
}
use naruto.Cluster.Offline.{IsJudged, IsFair, check_offline-IsJudged}
use naruto.Cluster.Quorum.{update_view-slots_state}

-- A master with slots, asked at 100 and linked at 99.
abbrev node : ClusterNode
node = record { flags = 1; numslots = 5; ping_sent = 100; pong_received = 100; link = some 99 }

-- Node 0 is this one, node 1 has failed, and node 2 has not answered.
abbrev nodes_heap : Heap
nodes_heap zero = record node { flags = 18 }
nodes_heap (suc zero) = record node { flags = 9 }
nodes_heap _ = node

check_offline-IsJudged_example :
    All
      (λ ref. IsJudged 10 111 ((check_offline 10 111 (0 ∷ 1 ∷ 2 ∷ []) nodes_heap false).0 ref))
      (0 ∷ 1 ∷ 2 ∷ [])
    × ((i : ℕ)
        → IsFair 10 111
            (nodes_heap i)
            ((check_offline 10 111 (0 ∷ 1 ∷ 2 ∷ []) nodes_heap false).0 i))
check_offline-IsJudged_example = check_offline-IsJudged 10 111 (0 ∷ 1 ∷ 2 ∷ []) nodes_heap false

-- Node 2 takes the flag PFAIL.
suspected_flags : ((check_offline 10 111 (0 ∷ 1 ∷ 2 ∷ []) nodes_heap false).0 2).flags ≡ 5
unfolding check_offline check_node suspect is_silent store set_flag has_flag
suspected_flags = refl

abbrev view : ClusterView
view = record {
  heap = nodes_heap;
  nodes = 1 ∷ [];
  slots = some 2 ∷ some 2 ∷ [];
  myself = 0;
  state = fail;
  size = 1;
  first_call_time_ms = 1000;
}

-- The one master that serves slots has failed.
update_view-slots_state_example :
    (update_view 2000 9000 view).state ≡ slots_state nodes_heap (some 2 ∷ some 2 ∷ [])
unfolding is_protected serving has_flag
update_view-slots_state_example = update_view-slots_state 2000 9000 view refl (omega arith)

-- Before the first update the same view is FAIL.
first_update : (update_view 2000 9000 (record view { size = 0 })).state ≡ fail
unfolding update_view is_protected serving unreachable slots_state has_flag
first_update = refl

later_update : (update_view 2000 9000 view).state ≡ ok
unfolding update_view is_protected serving unreachable slots_state has_flag
later_update = refl

abbrev tick : Tick
tick = record {
  now_sec = 111;
  now_ms = 111000;
  tick_heap = nodes_heap;
  tick_nodes = 1 ∷ 2 ∷ [];
  tick_slots = none ∷ [];
}
