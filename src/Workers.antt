-- ===== src/Workers.antt =====
-- naruto.cpp and connect_worker.cpp: how new connections come to the worker threads. The queue of a worker is read and written
-- by two threads without a lock; here each handler is one step.
pub mod Owned
pub mod Shared
use naruto.Prelude.{
  ℕ, ◌+◌, ◌%◌, Bool, true, false, Option, none, some, List, [], ◌∷◌, ◌++◌, length, get_or, set,
  take, drop,
}
use naruto.Link.{ClientLink, new_link}

-- ConnectWorker: the links that wait for it, those that it watches, and its counter.
pub record ConnectWorker : Type 0 where
  pub conns : List ClientLink
  pub watched : List ClientLink
  pub conn_nums : ℕ

abbrev pub idle_worker : ConnectWorker
idle_worker = record { conns = []; watched = []; conn_nums = 0 }

-- Of Naruto: the workers, of which worker_num is the number, the count of connections, which is taken to stay below 2^31, and the
-- links of other servers, which the main thread watches.
pub record Naruto : Type 0 where
  pub workers : List ConnectWorker
  pub connect_nums : ℕ
  pub peers : List ClientLink

-- onAccept, once accept has given a descriptor.
unfoldable pub on_accept : ℕ → Naruto → Naruto
on_accept now s =
    let index : ℕ = s.connect_nums % length s.workers in
    let worker : ConnectWorker = get_or s.workers index idle_worker in
    record s {
      workers =
          set s.workers index (record worker { conns = worker.conns ++ new_link index now ∷ [] });
      connect_nums = s.connect_nums + 1;
    }

-- onAcceptRc: the link belongs to no worker.
unfoldable pub on_accept_rc : ℕ → Naruto → Naruto
on_accept_rc now s = record s {
  peers = s.peers ++ (record (new_link (length s.workers) now) { reading = true }) ∷ [];
  connect_nums = s.connect_nums + 1;
}

-- The loop of onAsync.
unfoldable pub take_over : List ClientLink → ConnectWorker → ConnectWorker
take_over [] worker = record worker { conns = [] }
take_over (nc ∷ conns) worker = take_over conns (record worker {
  conns = conns;
  watched = worker.watched ++ (record nc { reading = true }) ∷ [];
  conn_nums = worker.conn_nums + 1;
})

unfoldable pub on_async : ConnectWorker → ConnectWorker
on_async worker = take_over worker.conns worker

-- A connection on the port of the clients or on that of the servers, a call of accept that fails, the signal to a worker, or the
-- end of the k-th link that a worker watches.
pub data Event : Type 0 where
  accept : ℕ → Event
  accept_rc : ℕ → Event
  accept_failed : Event
  async : ℕ → Event
  left : ℕ → ℕ → Event

-- A client's link is closed: its watcher is stopped, and the worker, which has no list of its links, does not look at it again. Its
-- counter stays as it is.
unfoldable pub leave : ℕ → ConnectWorker → ConnectWorker
leave k worker = record worker { watched = take k worker.watched ++ drop (k + 1) worker.watched }

unfoldable pub handle : Event → Naruto → Naruto
handle (accept now) s = on_accept now s
handle (accept_rc now) s = on_accept_rc now s
handle accept_failed s = s
handle (async index) s = record s {
  workers = set s.workers index (on_async (get_or s.workers index idle_worker));
}
handle (left index k) s = record s {
  workers = set s.workers index (leave k (get_or s.workers index idle_worker));
}

unfoldable pub run : List Event → Naruto → Naruto
run [] s = s
run (e ∷ es) s = run es (handle e s)
