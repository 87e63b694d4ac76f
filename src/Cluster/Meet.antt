-- ===== src/Cluster/Meet.antt =====
-- command/command_meet.cpp and command/command_nodes.cpp: exec of the two commands, on the message that has been parsed.
pub mod Listed
use Prim.Native.Nat.{bit_and}
use naruto.Prelude.{
  ℕ, zero, suc, ◌+◌, Bool, true, false, ◌||◌, ◌&&◌, not, Option, none, some, List, [], ◌∷◌, ◌++◌,
  get_or, replicate, ◌==◌, if◌then◌else◌,
}
use naruto.Prelude.Int.{ℤ, pos_part}
use naruto.Prelude.Maps.{String, lookup, emplace}
use naruto.AofName.{to_string}
use naruto.Psync.{is_empty}
use naruto.Cluster.{ClusterNode, store, is_myself, handshake_flag}
use naruto.Cluster.Gossip.{GossipView, NodeInfo, NodeData, meet_flag, desc}

pub record CommandMeet : Type 0 where
  pub ip : String
  pub port : ℤ

-- What the error messages of both commands say.
pub data ErrorText : Type 0 where
  parameter_not_illegal : ErrorText
  node_has_been_in_meet : ErrorText
  message_type_error : ErrorText

-- The errcode is 1 with a text, and 0 without.
abbrev pub Reply : Type 0
Reply = Option ErrorText

-- A view with its map from addresses to nodes, and the slots that move.
pub record Members : Type 0 where
  pub cluster : GossipView
  pub by_addr : List (String × ℕ)
  pub migrating_slots_to : List Bool
  pub importing_slots_from : List Bool

-- ip + ":" + std::to_string(port)
abbrev pub address : CommandMeet → String
address meet = meet.ip ++ 58 ∷ to_string meet.port

-- clusterNode(ip, port, flags): the port is stored and then set to 0.
unfoldable pub new_node : ℕ → ClusterNode
new_node flags = record {
  flags = flags;
  numslots = 0;
  ping_sent = 0;
  pong_received = 0;
  link = none;
}

unfoldable pub new_info : CommandMeet → ℕ → NodeInfo
new_info meet now = record {
  addr = address meet;
  ctime = now;
  name = [];
  config_epoch = 0;
  slots = replicate 16384 false;
  numslaves = 0;
  slaveof = none;
  fail_time = 0;
  voted_time = 0;
  repl_offset_time = 0;
  repl_aof_name = [];
  repl_offset = 0;
  ip = meet.ip;
  port = 0;
}

abbrev pub is_illegal : CommandMeet → Bool
is_illegal meet = is_empty meet.ip || (pos_part meet.port == 0)

-- The node is made at the address `ref` in memory.
unfoldable pub add_node : ℕ → ℕ → CommandMeet → Members → Members
add_node now ref meet s = record s {
  cluster = record s.cluster {
    view = record s.cluster.view {
      heap = store ref (new_node (handshake_flag + meet_flag)) s.cluster.view.heap;
      nodes = ref ∷ s.cluster.view.nodes;
    };
    info = λ i. if i == ref then new_info meet now else s.cluster.info i;
  };
  by_addr = emplace (address meet) ref s.by_addr;
}

-- exec of CLUSTER_MEET
unfoldable pub exec_meet : ℕ → ℕ → CommandMeet → Members → Reply × Members
exec_meet now ref meet s =
    if is_illegal meet
    then (some parameter_not_illegal, s)
    else (elim (lookup (address meet) s.by_addr) [
      | none ↦ (none, add_node now ref meet s)
      | some known ↦ (some node_has_been_in_meet, s)
    ])

-- What a node's entry says besides: the slots that move, with the addresses of their nodes.
pub record NodeEntry : Type 0 where
  pub data_of : NodeData
  pub migrating : List (ℕ × String)
  pub importing : List (ℕ × String)

-- The loop over the slots, from slot `i` on.
unfoldable pub moving_slots : ℕ → List (Option ℕ) → Members → NodeEntry → NodeEntry
moving_slots i [] s e = e
moving_slots i (none ∷ slots) s e = moving_slots (i + 1) slots s e
moving_slots i (some ref ∷ slots) s e =
    let addr : String = (s.cluster.info ref).addr in
    moving_slots (i + 1) slots s (
      if get_or s.migrating_slots_to i false
      then (record e { migrating = e.migrating ++ (i, addr) ∷ [] })
      else (if get_or s.importing_slots_from i false
          then (record e { importing = e.importing ++ (i, addr) ∷ [] })
          else e))

-- v.second->flags & request.filter_flags()
abbrev pub is_filtered : ℕ → ClusterNode → Bool
is_filtered filter_flags node = not (bit_and node.flags filter_flags == 0)

unfoldable pub describe : ℕ → Members → Option NodeEntry
describe ref s = elim (desc ref s.cluster) [
  | none ↦ none
  | some d ↦
      (let e : NodeEntry = record { data_of = d; migrating = []; importing = [] } in
        some (
          if is_myself (s.cluster.view.heap ref)
          then moving_slots 0 s.cluster.view.slots s e
          else e))
]

-- The loop over the nodes; `none` is the null pointer of desc.
unfoldable pub list_nodes : ℕ → List (String × ℕ) → Members → Option (List NodeEntry)
list_nodes filter_flags [] s = some []
list_nodes filter_flags ((addr, ref) ∷ nodes) s =
    let rest = list_nodes filter_flags nodes s in
    if is_filtered filter_flags (s.cluster.view.heap ref) then rest else (elim (describe ref s) [
      | none ↦ none
      | some e ↦ elim rest [ none ↦ none | some es ↦ some (e ∷ es) ]
    ])

-- exec of CLUSTER_INFO_NODES: the state of the reply and the entries.
unfoldable pub exec_nodes : ℕ → ℕ → Members → Option (Reply × List NodeEntry)
exec_nodes type filter_flags s =
    if type == 1002
    then (elim (list_nodes filter_flags s.by_addr s) [ none ↦ none | some es ↦ some (none, es) ])
    else some (some message_type_error, [])
