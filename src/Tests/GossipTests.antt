-- ===== src/Tests/GossipTests.antt =====
-- Gossip between the nodes of a cluster: runs on concrete inputs.
use mathlib.Core.Option
use naruto.Prelude.{ℕ, zero, suc, ◌≡◌, refl, true, false, Option, none, some, [], ◌∷◌, arith}
use naruto.Cluster.{ClusterNode, ok, Heap, store, has_flag}
use naruto.Cluster.Gossip.{
  NodeInfo, GossipView, CommandGossip, gossip, ask_node, gossip_loop, gossip_round, is_in,
  with_ping_sent, header_for, entry_of, is_passed, random_node, draw_slot, ping, choose_node,
  consider, may_ask, desc,
}
use naruto.Cluster.SameSecond.{ping_stuck}
use naruto.Prelude.Int.{ℤ}
use naruto.Prelude.Maps.{lookup, equal}
use naruto.AofName.{to_string, decimal}
use naruto.Cluster.Meet.{CommandMeet, Members, exec_meet}
use naruto.Cluster.Meet.Listed.{IsMet, exec_meet-IsMet}
use naruto.Cluster.Described.{is_none, desc_null}

-- Node 0 is this one; the others are linked masters, of which node 3 answered last at 80.
abbrev node : ClusterNode
node = record { flags = 1; numslots = 5; ping_sent = 0; pong_received = 90; link = some 99 }

abbrev heap : Heap
heap zero = record node { flags = 17 }
heap (suc (suc (suc zero))) = record node { pong_received = 80 }
heap _ = node

abbrev info : NodeInfo
info = record {
  addr = [];
  ctime = 1;
  name = 97 ∷ [];
  config_epoch = 2;
  slots = true ∷ false ∷ [];
  numslaves = 0;
  slaveof = none;
  fail_time = 0;
  voted_time = 0;
  repl_offset_time = 0;
  repl_aof_name = [];
  repl_offset = 0;
  ip = [];
  port = 6000;
}

abbrev cluster : GossipView
cluster = record {
  view = record {
    heap = heap;
    nodes = 0 ∷ 1 ∷ 2 ∷ 3 ∷ [];
    slots = some 0 ∷ none ∷ some 2 ∷ some 3 ∷ [];
    myself = 0;
    state = ok;
    size = 0;
    first_call_time_ms = 0;
  };
  info = λ ref. info;
  current_epoch = 7;
}

-- The slots that are drawn in a second: the first is the number of the second.
abbrev draw : ℕ → ℕ → ℕ
draw sec i = suc i

ping_stuck_example : ping draw 4 (λ j. 100) (λ i. true) 50 3 cluster ≡ none
unfolding random_node draw_slot is_passed has_flag
ping_stuck_example = ping_stuck draw 4 100 (λ i. true) cluster 2 refl refl (omega arith) 50 3

-- Seconds 2 and 3 draw the nodes 2 and 3.
abbrev by_second : ℕ → ℕ → ℕ
by_second sec i = sec

-- This node and the nodes 2 and 3: an entry makes a message.
abbrev three : GossipView
three = record cluster { view = record cluster.view { nodes = 0 ∷ 2 ∷ 3 ∷ [] } }

-- The message that ping makes in second 2, with an entry for node 2.
abbrev message : ℕ → CommandGossip
message r =
    let asked : GossipView = with_ping_sent 100 r three in
    record { header = header_for (asked.view.heap r) asked; gossips = entry_of asked 2 ∷ [] }

-- Node 3 is asked.
chosen :
    Option.map
      (λ (r : Option (ℕ × CommandGossip) × GossipView).
        Option.map (λ (q : ℕ × CommandGossip). q.0) r.0)
      (gossip by_second 1 (2 ∷ 2 ∷ 3 ∷ 3 ∷ 3 ∷ []) 100 (λ j. 2) (λ i. false) 2 three)
    ≡ some (some 3)
unfolding gossip ask_node choose_node consider may_ask random_node draw_slot ping gossip_loop
    gossip_round is_passed is_in with_ping_sent store has_flag
chosen = refl

desc_null_example : is_none (desc 0 cluster) ≡ true
unfolding has_flag
desc_null_example = desc_null 0 cluster

-- CLUSTER_MEET of "h", port 70.
abbrev meet : CommandMeet
meet = record { ip = 104 ∷ []; port = ℤ.pos 70 }

abbrev members : Members
members = record {
  cluster = cluster;
  by_addr = (97 ∷ [], 2) ∷ [];
  migrating_slots_to = [];
  importing_slots_from = [];
}

exec_meet-IsMet_example :
    (s' : Members) × (exec_meet 5 9 meet members ≡ (none, s')) × IsMet 9 16 meet members s'
unfolding lookup equal to_string decimal
exec_meet-IsMet_example =
    exec_meet-IsMet 5 9 16 meet members refl refl ((λ e. omega (arith, e)), tt) refl
