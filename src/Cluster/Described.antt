-- ===== src/Cluster/Described.antt =====
-- Which nodes can be described.
use naruto.Prelude.{
  ℕ, ◌≡◌, refl, sym, ap, ◌∙◌, inl, inr, Bool, true, false, ◌||◌, Option, none, some, List,
  Option-cases,
}
use naruto.Commands.{is_type}
use naruto.Cluster.{
  ClusterNode, is_master, is_pfail, is_fail, is_myself, is_handshake, master_flag, pfail_flag,
  fail_flag, myself_flag, handshake_flag,
}
use naruto.Cluster.Gossip.{
  GossipView, is_slave, is_meet, slave_flag, meet_flag, add_flag_name, flag_names, desc,
}

abbrev pub is_none {ℓ} : {A : Type ℓ} → Option A → Bool
is_none none = true
is_none (some x) = false

-- A flag whose number is a type is given some name.
add_known :
    (flag : ℕ) (b : Bool) (names : Option (List ℕ))
    → is_type flag ≡ true
    → is_none (add_flag_name flag b names) ≡ is_none names
unfolding add_flag_name
add_known flag false names h = refl
add_known flag true none h = refl
add_known flag true (some names) h = rw h refl

-- One whose number is none ends the process.
add_unknown :
    (flag : ℕ) (b : Bool) (names : Option (List ℕ))
    → is_type flag ≡ false
    → is_none (add_flag_name flag b names) ≡ (b || is_none names)
unfolding add_flag_name
add_unknown flag false names h = refl
add_unknown flag true none h = refl
add_unknown flag true (some names) h = rw h refl

flag_names_lem :
    (node : ClusterNode)
    → is_none (flag_names node)
      ≡ (is_meet node || (is_myself node || (is_handshake node || (is_fail node || false))))
unfolding flag_names
flag_names_lem node =
    add_unknown meet_flag (is_meet node) _ refl
    ∙ ap (◌||◌ (is_meet node)) (
        add_unknown myself_flag (is_myself node) _ refl
        ∙ ap (◌||◌ (is_myself node)) (
            add_unknown handshake_flag (is_handshake node) _ refl
            ∙ ap (◌||◌ (is_handshake node)) (
                add_known slave_flag (is_slave node) _ refl
                ∙ add_known master_flag (is_master node) _ refl
                ∙ add_known pfail_flag (is_pfail node) _ refl
                ∙ add_unknown fail_flag (is_fail node) _ refl)))

-- The bug: desc looks the flags of a node up among the types of commands. It goes through a null pointer exactly
-- for a node that is to be met, is this node, is in its handshake, or has failed.
pub desc_null :
    (ref : ℕ) (g : GossipView)
    → (let node = g.view.heap ref in
        is_none (desc ref g)
        ≡ (is_meet node || (is_myself node || (is_handshake node || (is_fail node || false)))))
unfolding desc
desc_null ref g = elim (Option-cases (flag_names (g.view.heap ref))) [
  | inl q ↦ rw (desc, q) (ap is_none (sym q) ∙ flag_names_lem (g.view.heap ref))
  | inr (names, q) ↦ rw (desc, q) (ap is_none (sym q) ∙ flag_names_lem (g.view.heap ref))
]
