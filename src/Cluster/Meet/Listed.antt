-- ===== src/Cluster/Meet/Listed.antt =====
-- CLUSTER_MEET, another one, and CLUSTER_INFO_NODES.
use Prim.Native.Nat.{bit_and}
use naruto.Prelude.{
  ℕ, ◌≡◌, ◌≢◌, refl, sym, subst, ap, ◌∙◌, inl, inr, true, false, Option, none, some, List, [], ◌∷◌,
  Bool-cases, Option-cases, Any, All, All-map, ==_iff, ◌==◌, arith,
}
use naruto.Prelude.Maps.{
  String, lookup, emplace, or_else, lookup-emplace_self, lookup-emplace_other,
}
use naruto.Cluster.{ClusterNode, store, has_flag}
use naruto.Cluster.Gossip.{desc}
use naruto.Cluster.Described.{is_none, desc_null}
use naruto.Cluster.Meet.{
  CommandMeet, Members, node_has_been_in_meet, address, is_illegal, is_filtered, new_node, add_node,
  exec_meet, describe, list_nodes, exec_nodes,
}

exec_meet_new :
    (now ref : ℕ) (meet : CommandMeet) (s : Members)
    → is_illegal meet ≡ false
    → lookup (address meet) s.by_addr ≡ none
    → exec_meet now ref meet s ≡ (none, add_node now ref meet s)
unfolding exec_meet
exec_meet_new now ref meet s l e = rw (exec_meet, l, e) refl

exec_meet_known :
    (now ref known : ℕ) (meet : CommandMeet) (s : Members)
    → is_illegal meet ≡ false
    → lookup (address meet) s.by_addr ≡ some known
    → exec_meet now ref meet s ≡ (some node_has_been_in_meet, s)
unfolding exec_meet
exec_meet_known now ref known meet s l e = rw (exec_meet, l, e) refl

-- The node that is described ends the process.
abbrev pub IsLost : ℕ → Members → String × ℕ → Type 0
IsLost filter_flags s (addr, ref) =
    (is_filtered filter_flags (s.cluster.view.heap ref) ≡ false) × (desc ref s.cluster ≡ none)

list_nodes-lost :
    (filter_flags : ℕ) (nodes : List (String × ℕ)) (s : Members)
    → Any (IsLost filter_flags s) nodes
    → list_nodes filter_flags nodes s ≡ none
unfolding list_nodes describe
list_nodes-lost filter_flags [] s h = elim h [ ]
list_nodes-lost filter_flags ((addr, ref) ∷ nodes) s (inl (f, d)) = rw (list_nodes, f, d) refl
list_nodes-lost filter_flags ((addr, ref) ∷ nodes) s (inr h) =
    let e = list_nodes-lost filter_flags nodes s h in
    elim (Bool-cases (is_filtered filter_flags (s.cluster.view.heap ref))) [
      | inl t ↦ rw (list_nodes, t) e
      | inr f ↦ elim (Option-cases (describe ref s)) [
        | inl q ↦ rw (list_nodes, f, q) refl
        | inr (d, q) ↦ rw (list_nodes, f, q, e) refl
      ]
    ]

stored : (ref : ℕ) (node : ClusterNode) (heap : ℕ → ClusterNode) → store ref node heap ref ≡ node
unfolding store
stored ref node heap = rw ((==_iff ref ref).1 refl) refl

null_desc : {A : Type 0} → (o : Option A) → is_none o ≡ true → o ≡ none
null_desc none h = refl
null_desc (some x) h = cc

new_node-Lost :
    (now ref filter_flags : ℕ) (meet : CommandMeet) (s : Members)
    → bit_and 96 filter_flags ≡ 0
    → IsLost filter_flags (add_node now ref meet s) (address meet, ref)
unfolding add_node new_node has_flag
new_node-Lost now ref filter_flags meet s h = (
  rw (stored ref (new_node 96) s.cluster.view.heap, h) refl,
  null_desc (desc ref (add_node now ref meet s).cluster) (
      desc_null ref (add_node now ref meet s).cluster
      ∙ rw (stored ref (new_node 96) s.cluster.view.heap) refl),
)

add_node-by_addr :
    (now ref : ℕ) (meet : CommandMeet) (s : Members)
    → lookup (address meet) s.by_addr ≡ none
    → (add_node now ref meet s).by_addr ≡ (address meet, ref) ∷ s.by_addr
unfolding add_node emplace
add_node-by_addr now ref meet s e = rw (add_node, emplace, e) refl

-- The memory of the new node is not that of a known one.
abbrev pub IsFresh : ℕ → Members → Type 0
IsFresh ref s = All (λ known. known.1 ≢ ref) s.by_addr

-- The node that stands behind an address is as it was.
abbrev pub IsKept : Members → Members → String × ℕ → Type 0
IsKept s s' known =
    (s'.cluster.view.heap known.1 ≡ s.cluster.view.heap known.1)
    × (s'.cluster.info known.1 ≡ s.cluster.info known.1)

add_node-IsKept :
    (now ref : ℕ) (meet : CommandMeet) (s : Members) (known : String × ℕ)
    → known.1 ≢ ref
    → IsKept s (add_node now ref meet s) known
unfolding add_node store
add_node-IsKept now ref meet s known n =
    let e : (known.1 == ref) ≡ false = ground (arith, n) in
    (rw (add_node, store, e) refl, rw (add_node, e) refl)

-- What comes of a MEET: the address is known, the same one again is refused, other addresses and the nodes
-- behind them are as they were, and the list of the nodes goes through a null pointer.
pub record IsMet (ref filter_flags : ℕ) (meet : CommandMeet) (s s' : Members) : Type 0 where
  pub known : lookup (address meet) s'.by_addr ≡ some ref
  pub again : (later other : ℕ) → exec_meet later other meet s' ≡ (some node_has_been_in_meet, s')
  pub others : (j : String) → j ≢ address meet → lookup j s'.by_addr ≡ lookup j s.by_addr
  pub kept : All (IsKept s s') s.by_addr
  pub lost : exec_nodes 1002 filter_flags s' ≡ none

-- A MEET with a host and a port, of a node that is not known, whose node is made in memory that no known one has, is
-- answered without an error and adds the node under its address alone; the other nodes are as they were. The same MEET
-- right behind it is refused and changes nothing. The bug: a list of the nodes right behind it, whose filter lets this
-- node through, ends the process.
pub exec_meet-IsMet :
    (now ref filter_flags : ℕ) (meet : CommandMeet) (s : Members)
    → is_illegal meet ≡ false
    → lookup (address meet) s.by_addr ≡ none
    → IsFresh ref s
    → bit_and 96 filter_flags ≡ 0
    → (s' : Members) × (exec_meet now ref meet s ≡ (none, s')) × IsMet ref filter_flags meet s s'
unfolding add_node exec_nodes
exec_meet-IsMet now ref filter_flags meet s l e new h = (
  add_node now ref meet s,
  exec_meet_new now ref meet s l e,
  record {
    known = found;
    again = λ later other. exec_meet_known later other ref meet (add_node now ref meet s) l found;
    others = λ j n. lookup-emplace_other (address meet) j ref s.by_addr n;
    kept = All-map _ _ s.by_addr (add_node-IsKept now ref meet s) new;
    lost = rw (exec_nodes, lost_list) refl;
  },
)
  where
    found : lookup (address meet) (add_node now ref meet s).by_addr ≡ some ref
    found = lookup-emplace_self (address meet) ref s.by_addr ∙ ap (λ o. some (or_else o ref)) e

    lost_list :
        list_nodes filter_flags (add_node now ref meet s).by_addr (add_node now ref meet s) ≡ none
    lost_list = list_nodes-lost filter_flags _ (add_node now ref meet s) (
        subst (Any (IsLost filter_flags (add_node now ref meet s)))
          (sym (add_node-by_addr now ref meet s e))
          (inl (new_node-Lost now ref filter_flags meet s h)))
