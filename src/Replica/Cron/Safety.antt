-- ===== src/Replica/Cron/Safety.antt =====
-- The timer of a slave does not end the process.
use naruto.Prelude.{◌≡◌, true, inl, inr, Bool, Option, none, some, Bool-cases, arith}
use naruto.Psync.{is_empty}
use naruto.Replica.{Replica, undo_connect_master, abort_sync_transfer, cache_master, connect_master}
use naruto.Replica.Safety.{IsSound, Continues}
use naruto.Replica.Cron.{
  CronInput, is_late, check_connecting, check_transfer, check_master, try_connect, heartbeat,
  and_then, on_repl_cron,
}

check_connecting-Continues :
    (late : Bool) (s : Replica) → IsSound s → Continues (check_connecting late s)
unfolding check_connecting undo_connect_master
check_connecting-Continues late s h = ground arith

check_transfer-Continues :
    (late : Bool) (s : Replica) → IsSound s → Continues (check_transfer late s)
unfolding check_transfer abort_sync_transfer
check_transfer-Continues late s h = ground arith

check_master-Continues : (i : CronInput) (s : Replica) → IsSound s → Continues (check_master i s)
unfolding check_master cache_master
check_master-Continues i s h = ground arith

try_connect-Continues :
    (i : CronInput) (s : Replica) → i.made ≡ true → IsSound s → Continues (try_connect i s)
unfolding try_connect connect_master
try_connect-Continues i s m h = ground arith

heartbeat-IsSound : (s : Replica) → IsSound s → IsSound (heartbeat s)
unfolding heartbeat
heartbeat-IsSound s h = ground arith

and_then-Continues :
    (o : Option Replica) (f : Replica → Option Replica)
    → Continues o
    → ((s : Replica) → IsSound s → Continues (f s))
    → Continues (and_then o f)
and_then-Continues none f h g = elim h [ ]
and_then-Continues (some s) f h g = g s h

pub on_repl_cron-Continues :
    (i : CronInput) (s : Replica) → i.made ≡ true → IsSound s → Continues (on_repl_cron i s)
unfolding on_repl_cron
on_repl_cron-Continues i s m h = elim (Bool-cases (is_empty s.master_host)) [
  | inl t ↦ rw t h
  | inr f ↦
      let late : Bool = is_late i.timeout s.transfer_lastio i.now in
      rw f (
        and_then-Continues (check_connecting late s) _ (check_connecting-Continues late s h)
          (λ s1 h1.
            and_then-Continues (check_transfer late s1) _ (check_transfer-Continues late s1 h1)
              (λ s2 h2.
                and_then-Continues (check_master i s2) _ (check_master-Continues i s2 h2) (λ s3 h3.
                  and_then-Continues (try_connect i s3) _ (try_connect-Continues i s3 m h3)
                    (λ s4 h4. heartbeat-IsSound s4 h4)))))
]
