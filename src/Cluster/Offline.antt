-- ===== src/Cluster/Offline.antt =====
-- What checkOffline makes of the nodes.
use naruto.Prelude.{
  ℕ, ◌+◌, ◌≡◌, ◌≤◌, ◌<◌, ◌⊎◌, refl, ◌∙◌, inl, inr, Bool, true, false, ◌||◌, none, List, [], ◌∷◌,
  All, ltb, ◌==◌, arith, Bool-cases, ==_iff, ltb→lt,
}
use naruto.Cluster.{
  ClusterNode, has_flag, set_flag, pfail_flag, is_pfail, is_fail, is_myself, is_handshake,
  has_silent_link, suspect, check_node, Heap, store, check_offline,
}

-- The node itself, a node in its handshake, one that is under suspicion, one without a link, or one whose last PING is not
-- older than the timeout.
pub data IsJudged (timeout now : ℕ) (node : ClusterNode) : Type 0 where
  excluded : (is_myself node || is_handshake node) ≡ true → IsJudged timeout now node
  suspected : (is_pfail node || is_fail node) ≡ true → IsJudged timeout now node
  unlinked : node.link ≡ none → IsJudged timeout now node
  unasked : node.ping_sent ≡ 0 → IsJudged timeout now node
  in_time : now ≤ node.ping_sent + timeout → IsJudged timeout now node

-- No node is suspected before its time.
pub record IsFair (timeout now : ℕ) (before after : ClusterNode) : Type 0 where
  pub same_ping : after.ping_sent ≡ before.ping_sent
  pub by_time : (after.flags ≡ before.flags) ⊎ (before.ping_sent + timeout < now)

IsFair-refl : (timeout now : ℕ) (node : ClusterNode) → IsFair timeout now node node
IsFair-refl timeout now node = record { same_ping = refl; by_time = inl refl }

IsFair-trans :
    (timeout now : ℕ) (a b c : ClusterNode)
    → IsFair timeout now a b
    → IsFair timeout now b c
    → IsFair timeout now a c
IsFair-trans timeout now a b c h k = record {
  same_ping = k.same_ping ∙ h.same_ping;
  by_time = elim h.by_time [
    | inr late ↦ inr late
    | inl e ↦ elim k.by_time [
      | inl g ↦ inl (g ∙ e)
      | inr late ↦ inr (omega (arith, late, h.same_ping))
    ]
  ];
}

set_flag-is_pfail :
    (node : ClusterNode) → is_pfail node ≡ false → is_pfail (set_flag pfail_flag node) ≡ true
unfolding has_flag set_flag
set_flag-is_pfail node e = rw e (ground arith)

set_flag-IsFair :
    (timeout now : ℕ) (node : ClusterNode)
    → node.ping_sent + timeout < now
    → IsFair timeout now node (set_flag pfail_flag node)
unfolding set_flag
set_flag-IsFair timeout now node late = elim (Bool-cases (has_flag pfail_flag node.flags)) [
  | inl t ↦ rw t (IsFair-refl timeout now node)
  | inr f ↦ rw f (record { same_ping = refl; by_time = inr late })
]

suspected_if :
    (timeout now : ℕ) (node : ClusterNode) → is_pfail node ≡ true → IsJudged timeout now node
suspected_if timeout now node e = suspected (rw e refl)

or-left : (a b : Bool) → (a || b) ≡ false → a ≡ false
or-left a b e = ground arith

abbrev Checked : ℕ → ℕ → ClusterNode → ClusterNode → Type 0
Checked timeout now before after = IsJudged timeout now after × IsFair timeout now before after

suspect-Checked :
    (timeout now : ℕ) (node : ClusterNode) → Checked timeout now node (suspect timeout now node).0
unfolding suspect
suspect-Checked timeout now node = elim (Bool-cases (node.ping_sent == 0)) [
  | inl z ↦ rw z (unasked ((==_iff _ _).0 z), IsFair-refl timeout now node)
  | inr a ↦ rw a (elim (Bool-cases (ltb (node.ping_sent + timeout) now)) [
    | inr f ↦ rw f (in_time (ground arith), IsFair-refl timeout now node)
    | inl t ↦ rw t (elim (Bool-cases (is_pfail node || is_fail node)) [
      | inl p ↦ rw p (suspected p, IsFair-refl timeout now node)
      | inr p ↦ rw p (
        suspected_if timeout now _ (set_flag-is_pfail node (or-left _ _ p)),
        set_flag-IsFair timeout now node (ltb→lt _ _ t),
      )
    ])
  ])
]

check_node-Checked :
    (timeout now : ℕ) (node : ClusterNode)
    → Checked timeout now node (check_node timeout now node).0
unfolding check_node
check_node-Checked timeout now node = elim (Bool-cases (is_myself node || is_handshake node)) [
  | inl e ↦ rw e (excluded e, IsFair-refl timeout now node)
  | inr e ↦ rw e (elim (Bool-cases (has_silent_link timeout now node)) [
    | inl s ↦ rw s (unlinked refl, record { same_ping = refl; by_time = inl refl })
    | inr s ↦ rw s (suspect-Checked timeout now node)
  ])
]

-- Where the heap is left alone, it is as it was.
store-Checked :
    (timeout now ref i : ℕ) (heap : Heap)
    → IsFair timeout now (heap i) (store ref (check_node timeout now (heap ref)).0 heap i)
unfolding store
store-Checked timeout now ref i heap = elim (Bool-cases (i == ref)) [
  | inl t ↦ rw (t, (==_iff _ _).0 t) (check_node-Checked timeout now (heap ref)).1
  | inr f ↦ rw f (IsFair-refl timeout now (heap i))
]

store-IsJudged :
    (timeout now ref i : ℕ) (heap : Heap)
    → IsJudged timeout now (heap i)
    → IsJudged timeout now (store ref (check_node timeout now (heap ref)).0 heap i)
unfolding store
store-IsJudged timeout now ref i heap h = elim (Bool-cases (i == ref)) [
  | inl t ↦ rw t (check_node-Checked timeout now (heap ref)).0
  | inr f ↦ rw f h
]

store_self : (ref : ℕ) (node : ClusterNode) (heap : Heap) → store ref node heap ref ≡ node
unfolding store
store_self ref node heap = rw ((==_iff ref ref).1 refl) refl

check_offline-IsFair :
    (timeout now : ℕ) (refs : List ℕ) (heap : Heap) (changed : Bool) (i : ℕ)
    → IsFair timeout now (heap i) ((check_offline timeout now refs heap changed).0 i)
unfolding check_offline
check_offline-IsFair timeout now [] heap changed i = IsFair-refl timeout now (heap i)
check_offline-IsFair timeout now (ref ∷ refs) heap changed i =
    IsFair-trans timeout now _ _ _ (store-Checked timeout now ref i heap)
      (check_offline-IsFair timeout now refs _ _ i)

check_offline-stays :
    (timeout now : ℕ) (refs : List ℕ) (heap : Heap) (changed : Bool) (i : ℕ)
    → IsJudged timeout now (heap i)
    → IsJudged timeout now ((check_offline timeout now refs heap changed).0 i)
unfolding check_offline
check_offline-stays timeout now [] heap changed i h = h
check_offline-stays timeout now (ref ∷ refs) heap changed i h =
    check_offline-stays timeout now refs _ _ i (store-IsJudged timeout now ref i heap h)

check_offline-All :
    (timeout now : ℕ) (refs : List ℕ) (heap : Heap) (changed : Bool)
    → All (λ ref. IsJudged timeout now ((check_offline timeout now refs heap changed).0 ref)) refs
unfolding check_offline
check_offline-All timeout now [] heap changed = tt
check_offline-All timeout now (ref ∷ refs) heap changed = (
  check_offline-stays timeout now refs _ _ ref (
      rw (store_self ref (check_node timeout now (heap ref)).0 heap)
        (check_node-Checked timeout now (heap ref)).0),
  check_offline-All timeout now refs _ _,
)

-- After checkOffline every node of the view is the node itself, in its handshake, under suspicion, without a link, or has no
-- PING older than the timeout; and a node, of the view or not, has other flags only if its PING is older than that.
pub check_offline-IsJudged :
    (timeout now : ℕ) (refs : List ℕ) (heap : Heap) (changed : Bool)
    → All (λ ref. IsJudged timeout now ((check_offline timeout now refs heap changed).0 ref)) refs
      × ((i : ℕ) → IsFair timeout now (heap i) ((check_offline timeout now refs heap changed).0 i))
check_offline-IsJudged timeout now refs heap changed = (
  check_offline-All timeout now refs heap changed,
  check_offline-IsFair timeout now refs heap changed,
)
