-- ===== src/Connection.antt =====
-- connection/connection.cpp: what is sent and received over a connected socket. The results of ::send and
-- ::recv are a list, one for each call; at its end the call blocks.
pub mod Framing
pub mod Whole
pub mod Setup
use naruto.Prelude.{
  ℕ, zero, suc, ◌+◌, ◌-◌, ◌^◌, ◌%◌, Bool, true, false, ◌&&◌, ◌||◌, not, Option, none, some, List,
  [], ◌∷◌, ◌++◌, length, take, drop, ltb, leb, ◌==◌, min, if◌then◌else◌,
}
use naruto.Prelude.Int.{ℤ}
use naruto.Bytes.{Bytes, size, clear, read_at, put_bytes, pack_head_len}
use naruto.Loader.{u64}

pub data Status : Type 0 where
  init : Status
  connected : Status
  closed : Status

pub record Connect : Type 0 where
  pub status : Status
  pub err : ℤ

-- CONNECT_RT_ERR, CONNECT_RT_CLOSE, CONNECT_ERROR_IO and CONNECT_ERROR_TIMEOUT
abbrev pub rt_err : ℤ
rt_err = ℤ.negsuc 0

abbrev pub rt_close : ℤ
rt_close = ℤ.negsuc 1

abbrev pub error_io : ℤ
error_io = ℤ.pos 1

abbrev pub error_timeout : ℤ
error_timeout = ℤ.pos 6

abbrev pub has_err : ℤ → Bool
has_err (ℤ.pos zero) = false
has_err (ℤ.pos (suc n)) = true
has_err (ℤ.negsuc n) = true

-- _set_error without the text
unfoldable pub set_error : ℤ → Connect → Connect
set_error type c = record c { err = type }

unfoldable pub broken : Connect → Bool
broken c = has_err c.err || elim c.status [ connected ↦ false | _ ↦ true ]

unfoldable pub close : Connect → Connect
close c = record c { status = closed }

-- A call of ::recv: the end of the connection, an interruption, a timeout, another error, or some bytes.
pub data Recv : Type 0 where
  ended : Recv
  again : Recv
  timed_out : Recv
  failed : Recv
  got : List ℕ → Recv

-- read_ has returned, or it waits for more.
pub data Reading : Type 0 where
  finished : ℤ → Bytes → Connect → Reading
  waiting : ℕ → Bytes → Connect → Reading

abbrev pub read_buf_size : ℕ
read_buf_size = 16384

abbrev pub is_whole : Bytes → Bool
is_whole pack = leb pack_head_len (size pack) && (size pack == read_at 4 0 pack)

-- next_len once readn more bytes have come. length - pack.size() is a uint32_t, PACK_HEAD_LEN - readn a
-- size_t.
unfoldable pub next_len : ℕ → Bytes → ℕ
next_len readn pack =
    if leb pack_head_len (size pack)
    then min ((read_at 4 0 pack + 2 ^ 32 - size pack) % 2 ^ 32) read_buf_size
    else u64 (pack_head_len + 2 ^ 64 - readn)

-- The loop of read_.
unfoldable pub read_loop : List Recv → ℕ → Bytes → Connect → Reading
read_loop [] next pack c = waiting next pack c
read_loop (r ∷ rs) next pack c = if has_err c.err then finished rt_err pack c else (elim r [
  | ended ↦ finished rt_close pack (set_error rt_close c)
  | again ↦ read_loop rs next pack c
  | timed_out ↦ finished rt_err pack (set_error error_timeout c)
  | failed ↦ finished rt_err pack (set_error error_io c)
  | got bytes ↦
      let pack' : Bytes = put_bytes bytes pack in
      if is_whole pack'
      then finished (ℤ.pos 0) pack' c
      else read_loop rs (next_len (length bytes) pack') pack' c
])

-- read_(pack)
unfoldable pub read_pack : List Recv → Bytes → Connect → Reading
read_pack rs pack c = read_loop rs pack_head_len (clear pack) c

-- A call of ::send: nothing written, an interruption, an error, or a number of bytes.
pub data Send : Type 0 where
  none_sent : Send
  interrupted : Send
  error : Send
  sent : ℕ → Send

-- What has been sent, and the result once there is one.
pub record Sending : Type 0 where
  pub out : List ℕ
  pub result : Option ℤ
  pub connect : Connect

-- The loop of send(buf, n), with what is left of the buffer.
unfoldable pub send_loop : List Send → List ℕ → Connect → Sending
send_loop [] left c = record { out = []; result = none; connect = c }
send_loop (s ∷ ss) left c =
    if has_err c.err then (record { out = []; result = some rt_err; connect = c }) else (elim s [
      | none_sent ↦ record { out = []; result = some rt_close; connect = set_error rt_close c }
      | interrupted ↦ send_loop ss left c
      | error ↦ record { out = []; result = some rt_err; connect = set_error error_io c }
      | sent n ↦
          if n == length left
          then (record { out = left; result = some (ℤ.pos 0); connect = c })
          else (let rest : Sending = send_loop ss (drop n left) c in
              record rest { out = take n left ++ rest.out })
    ])
