-- ===== src/Cluster/Gossip.antt =====
-- cluster/cluster_view.cpp: randomNode, ping, gossip and checkReplica, and desc of cluster/cluster_node.cpp. What the
-- random engine draws for a seed is the parameter `draw`, and `tries` and the fuel of ping bound the rounds of
-- their loops: `none` is a null pointer that is dereferenced, or a loop that has not ended by then.
use naruto.Prelude.{
  ℕ, zero, suc, ◌+◌, ◌-◌, ◌%◌, ◌^◌, Bool, true, false, ◌||◌, ◌&&◌, not, Option, none, some, List,
  [], ◌∷◌, ◌++◌, length, get_or, ltb, ◌==◌, if◌then◌else◌,
}
use naruto.Prelude.Maps.{String, equal}
use naruto.Psync.{is_empty}
use naruto.Commands.{is_type}
use naruto.Cluster.{
  ClusterNode, ClusterView, ClusterState, ok, fail, Heap, store, has_flag, is_master, is_pfail,
  is_fail, is_myself, is_handshake, master_flag, pfail_flag, fail_flag, myself_flag, handshake_flag,
}

abbrev pub slave_flag : ℕ
slave_flag = 2

abbrev pub meet_flag : ℕ
meet_flag = 64

abbrev pub is_slave : ClusterNode → Bool
is_slave node = has_flag slave_flag node.flags

abbrev pub is_meet : ClusterNode → Bool
is_meet node = has_flag meet_flag node.flags

-- What a clusterNode has besides, with the slots that it serves.
pub record NodeInfo : Type 0 where
  pub addr : String
  pub ctime : ℕ
  pub name : String
  pub config_epoch : ℕ
  pub slots : List Bool
  pub numslaves : ℕ
  pub slaveof : Option ℕ
  pub fail_time : ℕ
  pub voted_time : ℕ
  pub repl_offset_time : ℕ
  pub repl_aof_name : String
  pub repl_offset : ℕ
  pub ip : String
  pub port : ℕ

-- A clusterView with what its nodes have besides.
pub record GossipView : Type 0 where
  pub view : ClusterView
  pub info : ℕ → NodeInfo
  pub current_epoch : ℕ

-- The messages, with int32 fields as their 32 bits.
pub record CommandHeader : Type 0 where
  pub current_epoch : ℕ
  pub config_epoch : ℕ
  pub sender_name : String
  pub slaveof_name : String
  pub myslots : List Bool
  pub port : ℕ
  pub flags : ℕ
  pub state : ℕ

pub record GossipEntry : Type 0 where
  pub node_name : String
  pub ping_sent : ℕ
  pub pong_received : ℕ
  pub ip : String
  pub port : ℕ
  pub flags : ℕ

pub record CommandGossip : Type 0 where
  pub header : CommandHeader
  pub gossips : List GossipEntry

abbrev pub state_number : ClusterState → ℕ
state_number ok = 0
state_number fail = 1

-- The epoch of the master of this node for a slave, and that of this node for others.
unfoldable pub epoch_for : ClusterNode → GossipView → ℕ
epoch_for node g =
    let own : ℕ = (g.info g.view.myself).config_epoch in
    if is_slave node
    then (elim (g.info g.view.myself).slaveof [ none ↦ own | some m ↦ (g.info m).config_epoch ])
    else own

unfoldable pub header_for : ClusterNode → GossipView → CommandHeader
header_for node g =
    let self : NodeInfo = g.info g.view.myself in
    record {
      current_epoch = g.current_epoch;
      config_epoch = epoch_for node g;
      sender_name = self.name;
      slaveof_name = elim self.slaveof [ none ↦ [] | some m ↦ (g.info m).name ];
      myslots = self.slots;
      port = self.port;
      flags = (g.view.heap g.view.myself).flags;
      state = state_number g.view.state;
    }

unfoldable pub entry_of : GossipView → ℕ → GossipEntry
entry_of g ref = record {
  node_name = (g.info ref).name;
  ping_sent = (g.view.heap ref).ping_sent % 2 ^ 32;
  pong_received = (g.view.heap ref).pong_received % 2 ^ 32;
  ip = (g.info ref).ip;
  port = (g.info ref).port;
  flags = (g.view.heap ref).flags;
}

-- Where the loop of ping stands: freshnodes, gossipcount and the entries of the message.
pub record Gossiping : Type 0 where
  pub freshnodes : ℕ
  pub gossipcount : ℕ
  pub gossips : List GossipEntry

-- A freshnodes below 0 is as good as 0 for the loop.
abbrev pub new_gossiping : GossipView → Gossiping
new_gossiping g = record { freshnodes = length g.view.nodes - 2; gossipcount = 0; gossips = [] }

abbrev pub has_link : ClusterNode → Bool
has_link node = elim node.link [ none ↦ false | some ctime ↦ true ]

-- The test for a node that the message passes over.
unfoldable pub is_passed : GossipView → ℕ → Bool
is_passed g ref =
    let other : ClusterNode = g.view.heap ref in
    (ref == g.view.myself)
    || (is_handshake other || (not (has_link other) && (other.numslots == 0)))

-- The loop over the entries that the message has, from what `hasin` is before it.
unfoldable pub is_in : Bool → String → List GossipEntry → Bool
is_in hasin name [] = hasin
is_in hasin name (e ∷ es) = is_in (hasin || equal e.node_name name) name es

-- A round of the loop of ping, for the node that has been drawn.
unfoldable pub gossip_round : Bool → GossipView → ℕ → Gossiping → Gossiping
gossip_round hasin g ref s =
    if is_passed g ref
    then (record s { freshnodes = s.freshnodes - 1 })
    else (if is_in hasin (g.info ref).name s.gossips then s else (record {
      freshnodes = s.freshnodes - 1;
      gossipcount = s.gossipcount + 1;
      gossips = s.gossips ++ entry_of g ref ∷ [];
    }))

abbrev pub is_gossiping : Gossiping → Bool
is_gossiping s = ltb 0 s.freshnodes && ltb s.gossipcount 3

-- The test of gossip for a node that may be asked.
unfoldable pub may_ask : ClusterNode → Bool
may_ask node = has_link node && ((node.ping_sent == 0) && not (is_slave node || is_handshake node))

-- A round of the loop of gossip, with min_pong_node.
unfoldable pub consider : Heap → ℕ → Option ℕ → Option ℕ
consider heap ref min =
    if may_ask (heap ref)
    then (elim min [
      | none ↦ some ref
      | some m ↦ if ltb (heap ref).pong_received (heap m).pong_received then some ref else some m
    ])
    else min

-- node->ping_sent = now
unfoldable pub with_ping_sent : ℕ → ℕ → GossipView → GossipView
with_ping_sent now ref g = record g {
  view = record g.view {
    heap = store ref (record (g.view.heap ref) { ping_sent = now }) g.view.heap;
  };
}

module _ (draw : ℕ → ℕ → ℕ) (tries : ℕ) where
  -- The loop of randomNode over the slots that are drawn from the i-th on.
  unfoldable pub draw_slot : ℕ → ℕ → ℕ → List (Option ℕ) → Option ℕ
  draw_slot zero sec i slots = none
  draw_slot (suc n) sec i slots = elim (get_or slots (draw sec i) none) [
    | none ↦ draw_slot n sec (i + 1) slots
    | some ref ↦ some ref
  ]

  -- randomNode in a second, which seeds the engine. Every caller dereferences the answer, so that a null
  -- pointer is `none`, too.
  unfoldable pub random_node : ℕ → ClusterView → Option ℕ
  random_node sec v = elim v.nodes [ [] ↦ none | _ ∷ _ ↦ draw_slot tries sec 0 v.slots ]

  -- The loop of ping, with the second of each round and the value that `hasin` has there.
  unfoldable pub gossip_loop :
      (ℕ → ℕ) → (ℕ → Bool) → ℕ → ℕ → GossipView → Gossiping → Option Gossiping
  gossip_loop sec hasin zero i g s = none
  gossip_loop sec hasin (suc fuel) i g s = elim (is_gossiping s) [
    | false ↦ some s
    | true ↦ elim (random_node (sec i) g.view) [
      | none ↦ none
      | some ref ↦ gossip_loop sec hasin fuel (i + 1) g (gossip_round (hasin i) g ref s)
    ]
  ]

  -- ping: what is sent over the link of the node.
  unfoldable pub ping : (ℕ → ℕ) → (ℕ → Bool) → ℕ → ℕ → GossipView → Option CommandGossip
  ping sec hasin fuel ref g = elim (gossip_loop sec hasin fuel 0 g (new_gossiping g)) [
    | none ↦ none
    | some s ↦
        if has_link (g.view.heap ref)
        then some (record { header = header_for (g.view.heap ref) g; gossips = s.gossips })
        else none
  ]

  -- The loop of gossip, with the second of each of its rounds.
  unfoldable pub choose_node : List ℕ → ClusterView → Option ℕ → Option (Option ℕ)
  choose_node [] v min = some min
  choose_node (sec ∷ secs) v min = elim (random_node sec v) [
    | none ↦ none
    | some ref ↦ choose_node secs v (consider v.heap ref min)
  ]

  -- The end of gossip, with min_pong_node: the node with what it is sent.
  unfoldable pub ask_node :
      ℕ
      → (ℕ → ℕ)
      → (ℕ → Bool)
      → ℕ
      → GossipView
      → Option ℕ
      → Option (Option (ℕ × CommandGossip) × GossipView)
  ask_node now sec hasin fuel g none = some (none, g)
  ask_node now sec hasin fuel g (some ref) =
      let old_ping_send : ℕ = (g.view.heap ref).ping_sent in
      let asked : GossipView = with_ping_sent now ref g in
      elim (ping sec hasin fuel ref asked) [
        | none ↦ none
        | some msg ↦ some (
          some (ref, msg),
          if old_ping_send == 0 then asked else with_ping_sent old_ping_send ref asked,
        )
      ]

  -- gossip, with the seconds of its five rounds, the second at which the node is asked, and those of ping.
  unfoldable pub gossip :
      List ℕ
      → ℕ
      → (ℕ → ℕ)
      → (ℕ → Bool)
      → ℕ
      → GossipView
      → Option (Option (ℕ × CommandGossip) × GossipView)
  gossip secs now sec hasin fuel g = elim (choose_node secs g.view none) [
    | none ↦ none
    | some min ↦ ask_node now sec hasin fuel g min
  ]

-- checkReplica, on the address of the master that replication has.
unfoldable pub check_replica : GossipView → String × ℕ → String × ℕ
check_replica g (host, port) = elim (g.info g.view.myself).slaveof [
  | none ↦ (host, port)
  | some m ↦
      if is_slave (g.view.heap g.view.myself)
        && (is_empty host && not (is_empty (g.info g.view.myself).addr))
      then ((g.info m).ip, (g.info m).port)
      else (host, port)
]

-- command_node_data, with the numbers whose names are in `flags_name`.
pub record NodeData : Type 0 where
  pub node : ClusterNode
  pub info : NodeInfo
  pub flags_name : List ℕ
  pub slave_of : String

-- A flag that the node has is looked up by its number among the types of commands.
unfoldable pub add_flag_name : ℕ → Bool → Option (List ℕ) → Option (List ℕ)
add_flag_name flag false names = names
add_flag_name flag true none = none
add_flag_name flag true (some names) = if is_type flag then some (names ++ flag ∷ []) else none

unfoldable pub flag_names : ClusterNode → Option (List ℕ)
flag_names node = add_flag_name meet_flag (is_meet node) (
    add_flag_name myself_flag (is_myself node) (
      add_flag_name handshake_flag (is_handshake node) (
        add_flag_name slave_flag (is_slave node) (
          add_flag_name master_flag (is_master node) (
            add_flag_name pfail_flag (is_pfail node)
              (add_flag_name fail_flag (is_fail node) (some [])))))))

-- desc: the other fields are copied.
unfoldable pub desc : ℕ → GossipView → Option NodeData
desc ref g = elim (flag_names (g.view.heap ref)) [
  | none ↦ none
  | some names ↦ some (record {
    node = g.view.heap ref;
    info = g.info ref;
    flags_name = names;
    slave_of =
        if is_slave (g.view.heap ref)
        then (elim (g.info ref).slaveof [ none ↦ [] | some m ↦ (g.info m).addr ])
        else [];
  })
]
