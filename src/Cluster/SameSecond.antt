-- ===== src/Cluster/SameSecond.antt =====
-- What comes of the seed of randomNode, which is the second.
use naruto.Prelude.{
  ℕ, zero, suc, ◌+◌, ◌-◌, ◌<◌, ◌≡◌, refl, ap, ◌∙◌, inl, inr, ◌⊎◌, Bool, true, false, ◌||◌, none,
  some, [], ◌∷◌, length, Bool-cases, arith,
}
use naruto.Prelude.Maps.{equal_refl}
use naruto.Cluster.Gossip.{
  GossipView, Gossiping, entry_of, new_gossiping, is_passed, is_in, gossip_round, is_gossiping,
  random_node, gossip_loop, ping,
}

or_true : (b : Bool) → (b || true) ≡ true
or_true true = refl
or_true false = refl

module _ (draw : ℕ → ℕ → ℕ) (tries now : ℕ) (hasin : ℕ → Bool) (g : GossipView) (ref : ℕ)
    (drawn : random_node draw tries now g.view ≡ some ref) (p : is_passed g ref ≡ false)
    (n : 3 < length g.view.nodes) where
  -- The message once the node is in it.
  abbrev first_entry : Gossiping
  first_entry = record {
    freshnodes = length g.view.nodes - 2 - 1;
    gossipcount = 1;
    gossips = entry_of g ref ∷ [];
  }

  round_first :
      (i : ℕ)
      → (gossip_round (hasin i) g ref (new_gossiping g) ≡ new_gossiping g)
        ⊎ (gossip_round (hasin i) g ref (new_gossiping g) ≡ first_entry)
  unfolding gossip_round is_in
  round_first i = elim (Bool-cases (hasin i)) [
    | inl t ↦ inl (rw (p, t) refl)
    | inr f ↦ inr (rw (p, f) refl)
  ]

  round_later : (i : ℕ) → gossip_round (hasin i) g ref first_entry ≡ first_entry
  unfolding gossip_round is_in entry_of
  round_later i = rw (p, equal_refl (g.info ref).name, or_true (hasin i)) refl

  loop_step :
      (fuel i : ℕ) (s : Gossiping)
      → is_gossiping s ≡ true
      → gossip_loop draw tries (λ j. now) hasin (suc fuel) i g s
        ≡ gossip_loop draw tries (λ j. now) hasin fuel (i + 1) g (gossip_round (hasin i) g ref s)
  unfolding gossip_loop
  loop_step fuel i s h = rw (gossip_loop, h, drawn) refl

  later_stuck : (fuel i : ℕ) → gossip_loop draw tries (λ j. now) hasin fuel i g first_entry ≡ none
  unfolding gossip_loop
  later_stuck zero i = refl
  later_stuck (suc fuel) i =
      loop_step fuel i first_entry (ground arith)
      ∙ ap (gossip_loop draw tries (λ j. now) hasin fuel (i + 1) g) (round_later i)
      ∙ later_stuck fuel (i + 1)

  first_stuck :
      (fuel i : ℕ) → gossip_loop draw tries (λ j. now) hasin fuel i g (new_gossiping g) ≡ none
  unfolding gossip_loop
  first_stuck zero i = refl
  first_stuck (suc fuel) i =
      loop_step fuel i (new_gossiping g) (ground arith) ∙ elim (round_first i) [
        | inl e ↦
            ap (gossip_loop draw tries (λ j. now) hasin fuel (i + 1) g) e ∙ first_stuck fuel (i + 1)
        | inr e ↦
            ap (gossip_loop draw tries (λ j. now) hasin fuel (i + 1) g) e ∙ later_stuck fuel (i + 1)
      ]

  -- The bug: with at least four nodes in the view, and a node drawn that the message does not pass over, the loop of
  -- ping does not end within a second, however many rounds it makes and whatever `hasin` holds: every
  -- randomNode of the second gives the same node, which is in the message already.
  pub ping_stuck : (fuel to : ℕ) → ping draw tries (λ j. now) hasin fuel to g ≡ none
  unfolding ping
  ping_stuck fuel to = rw (ping, first_stuck fuel 0) refl
