-- ===== src/Cluster/Quorum.antt =====
-- What updateView and the timer make of the state of the cluster.
use naruto.Prelude.{ℕ, ◌≡◌, ◌≤◌, refl, inl, inr, false, List, [], ◌∷◌, arith, Bool-cases}
use naruto.Cluster.{
  ok, ClusterView, Heap, serving, unreachable, slots_state, is_protected, update_view, Tick,
  on_cluster_cron, run_ticks, check_offline,
}

unreachable-serving : (heap : Heap) (refs : List ℕ) → unreachable heap refs ≤ serving heap refs
unfolding unreachable serving
unreachable-serving heap [] = omega arith
unreachable-serving heap (ref ∷ refs) = ground (arith, unreachable-serving heap refs)

-- The bug: the number of masters is not reset between two updates. Where writes are not protected
-- and the size is no less than the number of masters that serve slots, as after an update with the
-- same nodes, the failed masters do not reach the quorum, and the slots alone decide on the state.
pub update_view-slots_state :
    (delay now : ℕ) (v : ClusterView)
    → is_protected delay now v ≡ false
    → serving v.heap v.nodes ≤ v.size
    → (update_view delay now v).state ≡ slots_state v.heap v.slots
unfolding update_view
update_view-slots_state delay now v p h =
    let few : unreachable v.heap v.nodes ≤ serving v.heap v.nodes =
      unreachable-serving v.heap v.nodes in
    rw p (ground (arith, few, h))

on_cluster_cron-ok :
    (timeout delay : ℕ) (t : Tick) (v : ClusterView)
    → v.state ≡ ok
    → (on_cluster_cron timeout delay t v).state ≡ ok
unfolding on_cluster_cron
on_cluster_cron-ok timeout delay t v h =
    elim (Bool-cases (check_offline timeout t.now_sec t.tick_nodes t.tick_heap false).1) [
      | inl e ↦ rw (h, e) refl
      | inr e ↦ rw (h, e) refl
    ]

-- The bug: the state is updated where it is FAIL alone, so that no run of ticks takes a cluster out of the state OK,
-- whatever becomes of its nodes and slots.
pub run_ticks-ok :
    (timeout delay : ℕ) (ts : List Tick) (v : ClusterView)
    → v.state ≡ ok
    → (run_ticks timeout delay ts v).state ≡ ok
unfolding run_ticks
run_ticks-ok timeout delay [] v h = h
run_ticks-ok timeout delay (t ∷ ts) v h =
    run_ticks-ok timeout delay ts (on_cluster_cron timeout delay t v)
      (on_cluster_cron-ok timeout delay t v h)
