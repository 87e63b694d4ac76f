-- ===== src/Pool.antt =====
-- connection/connection_pool.cpp: the pool of connections. The clock is in milliseconds.
pub mod Bounds
use naruto.Prelude.{
  ℕ, zero, suc, ◌+◌, ◌-◌, Bool, true, false, ◌||◌, ◌&&◌, Option, none, some, List, [], ◌∷◌, ◌++◌,
  ltb, leb, if◌then◌else◌,
}
use naruto.Prelude.Int.{ℤ}
use naruto.Connection.{Connect, connected, broken}

-- A connection of the pool, with the time of its last use.
pub record Pooled : Type 0 where
  pub connect : Connect
  pub last_active : ℕ

-- ConnectionPool with its options.
pub record ConnectionPool : Type 0 where
  pub max_conns : ℕ
  pub wait_timeout : ℕ
  pub connection_lifetime : ℕ
  pub pool : List Pooled
  pub used_connections : ℕ

-- What a call of fetch meets: the clock before and after, and whether a connection that is tried is made.
pub record FetchInput : Type 0 where
  pub now : ℕ
  pub later : ℕ
  pub made : Bool

-- How fetch ends: with a connection, with an exception, or not yet: it waits on the condition.
pub data Fetched : Type 0 where
  returned : Pooled → Fetched
  thrown : Fetched
  blocked : Fetched

abbrev pub new_connect : Connect
new_connect = record { status = connected; err = ℤ.pos 0 }

unfoldable pub need_reconnect : ℕ → ConnectionPool → Pooled → Bool
need_reconnect now p conn =
    broken conn.connect
    || (ltb 0 p.connection_lifetime && ltb p.connection_lifetime (now - conn.last_active))

-- What follows once the lock is released: the connection is made again if need be.
unfoldable pub refresh : FetchInput → ConnectionPool → Pooled → Fetched
refresh i p conn =
    if need_reconnect i.now p conn
    then (if i.made
        then returned (record { connect = new_connect; last_active = i.later })
        else thrown)
    else returned (record conn { last_active = i.later })

-- fetch with a connection in the pool, or with an empty pool. In an empty pool that is used up the wait
-- ends when a connection is released: with a timeout set that is taken for the timeout, and without one
-- fetch goes on with the connection, which is a call on the pool as it then is. A timeout that passes goes
-- on to the assertion that the pool is not empty.
unfoldable pub fetch_from : FetchInput → List Pooled → ConnectionPool → Fetched × ConnectionPool
fetch_from i (conn ∷ rest) p = (refresh i p conn, record p { pool = rest })
fetch_from i [] p =
    if leb p.max_conns p.used_connections
    then (blocked, p)
    else (if i.made
        then (
          returned (record { connect = new_connect; last_active = i.later }),
          record p { used_connections = p.used_connections + 1 },
        )
        else (thrown, p))

unfoldable pub fetch : FetchInput → ConnectionPool → Fetched × ConnectionPool
fetch i p = fetch_from i p.pool p

-- What becomes of a fetch that is blocked once a connection is released, or the timeout has passed with an
-- empty pool: `none` is the failed assertion.
unfoldable pub woken : FetchInput → ConnectionPool → Option (Fetched × ConnectionPool)
woken i p = elim p.pool [
  | [] ↦ if ltb 0 p.wait_timeout then none else some (blocked, p)
  | conn ∷ rest ↦ if ltb 0 p.wait_timeout then some (thrown, p) else some (fetch i p)
]

unfoldable pub release : Pooled → ConnectionPool → ConnectionPool
release conn p = record p { pool = p.pool ++ conn ∷ [] }
