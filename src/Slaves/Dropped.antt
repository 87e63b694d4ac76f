-- ===== src/Slaves/Dropped.antt =====
-- Which slaves a master keeps.
use naruto.Prelude.{
  ℕ, ◌+◌, ◌-◌, ◌%◌, ◌≡◌, ◌≢◌, ◌≤◌, refl, inl, inr, Bool, true, false, some, List, [], ◌∷◌, All,
  ◌==◌, arith, Bool-cases, if◌then◌else◌,
}
use naruto.ReplState.{connected}
use naruto.Connection.{broken}
use naruto.Slaves.{
  Slave, Slaves, accepted, is_connected, is_dropped, drop_slaves, ping_slaves, on_master_cron,
}

-- Its connection is whole, and if it is connected it has been heard of within the timeout.
pub record IsAlive (timeout unixtime : ℕ) (slave : Slave) : Type 0 where
  pub whole : broken slave.connect ≡ false
  pub heard : slave.repl_state ≡ connected → unixtime - slave.lastinteraction ≤ timeout

is_dropped-IsAlive :
    (timeout unixtime : ℕ) (slave : Slave)
    → is_dropped timeout unixtime slave ≡ false
    → IsAlive timeout unixtime slave
unfolding is_dropped
is_dropped-IsAlive timeout unixtime slave e = ground arith

ping_slaves-IsAlive :
    (timeout unixtime : ℕ) (slaves : List Slave)
    → All (IsAlive timeout unixtime) slaves
    → All (IsAlive timeout unixtime) (ping_slaves slaves)
unfolding ping_slaves
ping_slaves-IsAlive timeout unixtime [] h = tt
ping_slaves-IsAlive timeout unixtime (s ∷ ss) (h, hs) = (
  elim (Bool-cases (is_connected s.repl_state)) [
    | inl t ↦ rw t (record { whole = h.whole; heard = h.heard })
    | inr f ↦ rw f h
  ],
  ping_slaves-IsAlive timeout unixtime ss hs,
)

drop_slaves-IsAlive :
    (timeout unixtime : ℕ) (slaves : List Slave)
    → All (IsAlive timeout unixtime) (drop_slaves timeout unixtime slaves)
unfolding drop_slaves
drop_slaves-IsAlive timeout unixtime [] = tt
drop_slaves-IsAlive timeout unixtime (s ∷ ss) = elim (Bool-cases (is_dropped timeout unixtime s)) [
  | inl t ↦ rw t (drop_slaves-IsAlive timeout unixtime ss)
  | inr f ↦ rw f (is_dropped-IsAlive timeout unixtime s f, drop_slaves-IsAlive timeout unixtime ss)
]

drop_slaves-accepted :
    (timeout unixtime : ℕ) (slaves : List Slave)
    → All (λ (s : Slave). s.connect ≡ accepted) slaves
    → drop_slaves timeout unixtime slaves ≡ []
unfolding drop_slaves is_dropped broken
drop_slaves-accepted timeout unixtime [] h = refl
drop_slaves-accepted timeout unixtime (s ∷ ss) (h, hs) =
    rw (h) (drop_slaves-accepted timeout unixtime ss hs)

nonzero : (n : ℕ) → n ≢ 0 → (n == 0) ≡ false
nonzero n h = ground arith

-- A tick of a master with a period other than 0 ends, and every slave that it keeps has a whole connection
-- and, if it is connected, has been heard of within the timeout.
pub on_master_cron-IsAlive :
    (timeout unixtime period : ℕ) (s : Slaves)
    → period ≢ 0
    → (t : Slaves) × (on_master_cron timeout unixtime period s ≡ some t)
      × All (IsAlive timeout unixtime) t.slaves
unfolding on_master_cron
on_master_cron-IsAlive timeout unixtime period s n =
    (ticked, rw (nonzero period n) refl, by_ping ((s.cronloops + 1) % period == 0))
  where
    kept : List Slave
    kept = drop_slaves timeout unixtime s.slaves

    ticked : Slaves
    ticked = record {
      slaves = if (s.cronloops + 1) % period == 0 then ping_slaves kept else kept;
      cronloops = s.cronloops + 1;
    }

    by_ping : (b : Bool) → All (IsAlive timeout unixtime) (if b then ping_slaves kept else kept)
    by_ping true =
        ping_slaves-IsAlive timeout unixtime kept (drop_slaves-IsAlive timeout unixtime s.slaves)
    by_ping false = drop_slaves-IsAlive timeout unixtime s.slaves

-- The bug: the links of slaves stand on accepted sockets, whose connections never take the status CONNECTED
-- and count as broken. With any list of them, one tick leaves a master without slaves.
pub on_master_cron-accepted :
    (timeout unixtime period : ℕ) (s : Slaves)
    → All (λ (s : Slave). s.connect ≡ accepted) s.slaves
    → period ≢ 0
    → on_master_cron timeout unixtime period s
      ≡ some (record { slaves = []; cronloops = s.cronloops + 1 })
unfolding on_master_cron ping_slaves
on_master_cron-accepted timeout unixtime period s h n =
    rw (nonzero period n, drop_slaves-accepted timeout unixtime s.slaves h)
      (elim (Bool-cases ((s.cronloops + 1) % period == 0)) [
        | inl t ↦ rw t refl
        | inr f ↦ rw f refl
      ])
