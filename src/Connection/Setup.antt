-- ===== src/Connection/Setup.antt =====
-- connection/connection.cpp: connect, reconnect and what they call. The results of the calls of the socket library are given; a
-- descriptor that it has handed out stays in `opened` until it is closed.
pub mod Result
pub mod Leak
use naruto.Prelude.{
  ℕ, zero, suc, ◌+◌, Bool, true, false, ◌&&◌, ◌||◌, not, Option, none, some, List, [], ◌∷◌, leb,
  ◌==◌, if◌then◌else◌,
}
use naruto.Prelude.Int.{ℤ}
use naruto.Connection.{
  Connect, Status, init, connected, closed, error_io, rt_err, set_error, broken,
}

-- Connect with its descriptor, where `none` is FD_INVALID, and whether addr_ has been allocated.
pub record Socket : Type 0 where
  pub connect : Connect
  pub fd : Option ℕ
  pub has_addr : Bool
  pub opened : List ℕ

abbrev pub error_other : ℤ
error_other = ℤ.pos 2

abbrev pub connect_retries : ℕ
connect_retries = 10

unfoldable pub remove : ℕ → List ℕ → List ℕ
remove fd [] = []
remove fd (x ∷ xs) = if x == fd then remove fd xs else x ∷ remove fd xs

-- close()
unfoldable pub close_socket : Socket → Socket
close_socket s = record s {
  connect = record s.connect { status = closed };
  fd = none;
  opened = elim s.fd [ none ↦ s.opened | some n ↦ remove n s.opened ];
}

abbrev pub fail : ℤ → Socket → Socket
fail type s = record s { connect = set_error type s.connect }

-- A call of ::connect.
pub data ConnectCall : Type 0 where
  accepted : ConnectCall
  host_unreachable : ConnectCall
  in_progress : ConnectCall
  address_not_avail : ConnectCall
  other_error : ConnectCall

-- poll of _wait_ready.
pub data Poll : Type 0 where
  poll_failed : Poll
  poll_timeout : Poll
  ready : Poll

-- The second ::connect of _check_connect_done: it is complete, or not yet, or it has failed.
pub data Done : Type 0 where
  complete : Done
  pending : Done
  refused : Done

pub record SocketCalls : Type 0 where
  pub socket : Option ℕ
  pub connects : List ConnectCall
  pub poll : Poll
  pub done : Done
  pub has_so_error : Bool
  pub get_flags : Bool
  pub set_flags : Bool
  pub set_read_timeout : Bool
  pub set_write_timeout : Bool

-- _check_socket_error; `has_so_error` is false where getsockopt gives no error and errno is none either.
unfoldable pub check_socket_error : SocketCalls → Socket → Socket
check_socket_error calls s = if calls.has_so_error then fail error_io s else s

-- _wait_ready, where errno is EINPROGRESS.
unfoldable pub wait_ready : SocketCalls → Socket → Socket
wait_ready calls s = elim calls.poll [
  | poll_failed ↦ close_socket (fail error_io s)
  | poll_timeout ↦ close_socket (fail error_io s)
  | ready ↦ elim calls.done [
    | complete ↦ s
    | pending ↦ check_socket_error calls s
    | refused ↦ check_socket_error calls s
  ]
]

-- _set_blocking(true), and whether it gives CONNECT_RT_OK.
unfoldable pub set_blocking : SocketCalls → Socket → Socket × Bool
set_blocking calls s =
    if calls.get_flags && calls.set_flags
    then (s, true)
    else (close_socket (fail error_io s), false)

-- _set_connect_timeout
unfoldable pub set_connect_timeout : SocketCalls → Socket → Socket × ℤ
set_connect_timeout calls s =
    if calls.set_read_timeout && calls.set_write_timeout
    then (s, ℤ.pos 0)
    else (fail error_io s, rt_err)

-- What follows a ::connect that has succeeded.
unfoldable pub connected_to : SocketCalls → ℕ → Socket → Socket × ℤ
connected_to calls client_fd s =
    let (s', ok) = set_blocking calls (record s { fd = some client_fd }) in
    if ok
    then set_connect_timeout calls
        (record s' { connect = record s'.connect { status = connected }; has_addr = true })
    else (fail error_other s', rt_err)

-- The loop at the label retry; `none` where ::connect blocks.
unfoldable pub retry : SocketCalls → ℕ → ℕ → List ConnectCall → Socket → Option (Socket × ℤ)
retry calls client_fd retry_times [] s = none
retry calls client_fd retry_times (c ∷ cs) s = elim c [
  | accepted ↦ some (connected_to calls client_fd s)
  | host_unreachable ↦ some (close_socket s, rt_err)
  | in_progress ↦ some (fail error_other (wait_ready calls s), rt_err)
  | address_not_avail ↦
      if leb connect_retries (retry_times + 1)
      then some (fail error_io s, rt_err)
      else retry calls client_fd (retry_times + 1) cs (close_socket s)
  | other_error ↦ some (fail error_other s, rt_err)
]

unfoldable pub open_socket : SocketCalls → Socket → Option (Socket × ℤ)
open_socket calls s = elim calls.socket [
  | none ↦ some (fail error_other s, rt_err)
  | some client_fd ↦
      retry calls client_fd 0 calls.connects (record s { opened = client_fd ∷ s.opened })
]

-- connect(), of a connection with the flag BLOCK.
unfoldable pub connect : SocketCalls → Socket → Option (Socket × ℤ)
connect calls s = elim s.connect.status [ connected ↦ some (s, ℤ.pos 0) | _ ↦ open_socket calls s ]

-- Connect(opts)
unfoldable pub new_socket : List ℕ → Socket
new_socket opened = record {
  connect = record { status = init; err = ℤ.pos 0 };
  fd = none;
  has_addr = false;
  opened = opened;
}

pub data Reconnected : Type 0 where
  reconnected : Socket → Reconnected
  threw : ℤ → Socket → Reconnected
  assert_failed : Reconnected
  null_address : Reconnected
  connecting : Reconnected

-- What reconnect makes of the new connection: throw_err takes the error of the old one, and swap copies into the address
-- of the old one. The destructor of the old one frees its address alone.
unfoldable pub after_connect : Socket → Socket × ℤ → Reconnected
after_connect s (conn, ℤ.pos zero) =
    if broken conn.connect
    then assert_failed
    else (if not s.has_addr
        then null_address
        else reconnected (record conn { connect = record conn.connect { err = ℤ.pos 0 } }))
after_connect s (conn, ℤ.pos (suc k)) = threw s.connect.err (record s { opened = conn.opened })
after_connect s (conn, ℤ.negsuc k) = threw s.connect.err (record s { opened = conn.opened })

-- reconnect()
unfoldable pub reconnect : SocketCalls → Socket → Reconnected
reconnect calls s = elim (connect calls (new_socket s.opened)) [
  | none ↦ connecting
  | some r ↦ after_connect s r
]
