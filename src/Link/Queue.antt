-- ===== src/Link/Queue.antt =====
-- Two links: what one has been given to send is what the other one receives.
use naruto.Prelude.{
  ℕ, zero, suc, ◌+◌, ◌^◌, ◌<◌, ◌≡◌, refl, sym, subst, ap, ap₂, ◌∙◌, false, Option, some, List, [],
  ◌∷◌, ◌++◌, length, length-append, append_assoc, append-nil, take_all, map, All, All-append,
  IsBytes, arith, ◌==◌,
}
use naruto.Prelude.Int.{ℤ}
use naruto.Codec.{le_bytes, le_bytes-IsBytes, le_value-le_bytes}
use naruto.Bytes.{Bytes, new, size}
use naruto.Bytes.Ends.{at_end}
use naruto.Bytes.PackLayout.{pack_bytes, length-pack_bytes, put_message-at_end}
use naruto.Pack.{deserialize, serialize_message}
use naruto.Pack.RoundTrip.{deserialize-serialize}
use naruto.Connection.{Connect, Send, send_loop, Reading, finished, waiting, read_pack, has_err}
use naruto.Connection.Framing.{IsTaken, send_loop-IsSent}
use naruto.Link.{ClientLink, send_msg, on_write}
use naruto.Link.Stream.{read_stream, read_stream-pack, IsPack}

-- A message that is sent, with its type.
abbrev pub Message : Type 0
Message = ℕ × List ℕ

abbrev pub packs_of : List Message → List ℕ
packs_of [] = []
packs_of ((type, msg) ∷ ms) = pack_bytes type msg ++ packs_of ms

-- sendMsg for each message, in their order.
unfoldable pub send_all : List Message → ClientLink → ClientLink
send_all [] l = l
send_all ((type, msg) ∷ ms) l = send_all ms (send_msg msg type l)

-- So many calls of read(msg), each with its type and what its message is parsed from; fewer if one waits for more.
unfoldable pub receive_all : ℕ → List ℕ → Connect → List (ℕ × Option (List ℕ))
receive_all zero stream c = []
receive_all (suc n) stream c =
    let (r, rest) = read_stream (suc (length stream)) stream (read_pack [] new c) in
    elim r [
      | waiting next pack c' ↦ []
      | finished k pack c' ↦ deserialize pack ∷ receive_all n rest c'
    ]

abbrev pub IsMessage : Message → Type 0
IsMessage (type, msg) = IsBytes msg × (type < 2 ^ 16)

pack_bytes-IsBytes : (type : ℕ) (msg : List ℕ) → IsBytes msg → IsBytes (pack_bytes type msg)
pack_bytes-IsBytes type msg v =
    All-append _ (le_bytes 4 (8 + length msg) ++ (le_bytes 2 0 ++ le_bytes 2 type)) msg
      (All-append _ (le_bytes 4 (8 + length msg)) (le_bytes 2 0 ++ le_bytes 2 type)
        (le_bytes-IsBytes 4 (8 + length msg))
        (All-append _ (le_bytes 2 0) (le_bytes 2 type) (le_bytes-IsBytes 2 0)
          (le_bytes-IsBytes 2 type)))
      v

pub pack_bytes-IsPack :
    (type : ℕ) (msg : List ℕ) → IsBytes msg → 8 + length msg < 2 ^ 32 → IsPack (pack_bytes type msg)
unfolding le_bytes
pack_bytes-IsPack type msg v h = record {
  bytes = pack_bytes-IsBytes type msg v;
  has_head = omega (arith, length-pack_bytes type msg);
  length_in_head = le_value-le_bytes 4 (8 + length msg) h ∙ sym (length-pack_bytes type msg);
  fits = omega (arith, length-pack_bytes type msg);
}

-- What has been sent lies in the buffer, one pack behind the other.
pub send_all-wbuf :
    (ms : List Message) (l : ClientLink) (xs : List ℕ)
    → l.wbuf ≡ at_end xs 0
    → length xs + length (packs_of ms) < 2 ^ 32
    → (send_all ms l).wbuf ≡ at_end (xs ++ packs_of ms) 0
unfolding send_all send_msg serialize_message
send_all-wbuf [] l xs e h = e ∙ ap (λ ys. at_end ys 0) (sym (append-nil xs))
send_all-wbuf ((type, msg) ∷ ms) l xs e h =
    send_all-wbuf ms (send_msg msg type l) (xs ++ pack_bytes type msg)
      (ap (serialize_message msg type) e
        ∙ put_message-at_end msg xs type 0 (
            omega (
              arith,
              length-append (pack_bytes type msg) (packs_of ms),
              length-pack_bytes type msg,
            )))
      (omega (
        arith,
        length-append (pack_bytes type msg) (packs_of ms),
        length-append xs (pack_bytes type msg),
      ))
    ∙ ap (λ ys. at_end ys 0) (append_assoc xs (pack_bytes type msg) (packs_of ms))

deserialize-pack_bytes :
    (type : ℕ) (msg : List ℕ)
    → type < 2 ^ 16
    → 8 + length msg < 2 ^ 32
    → deserialize (at_end (pack_bytes type msg) 0) ≡ (type, some msg)
unfolding serialize_message
deserialize-pack_bytes type msg t h =
    ap deserialize (sym (put_message-at_end msg [] type 0 h)) ∙ deserialize-serialize msg type t h

receive_all-step :
    (n : ℕ) (stream rest : List ℕ) (k : ℤ) (pack : Bytes) (c c' : Connect)
    → read_stream (suc (length stream)) stream (read_pack [] new c) ≡ (finished k pack c', rest)
    → receive_all (suc n) stream c ≡ deserialize pack ∷ receive_all n rest c'
unfolding receive_all
receive_all-step n stream rest k pack c c' e =
    rw (e, receive_all) (ap (λ (p : Reading × List ℕ). deserialize pack ∷ receive_all n p.1 c') e)

receive_all-packs_of :
    (ms : List Message) (rest : List ℕ) (c : Connect)
    → All IsMessage ms
    → length (packs_of ms) < 2 ^ 32
    → has_err c.err ≡ false
    → receive_all (length ms) (packs_of ms ++ rest) c ≡ map (λ (m : Message). (m.0, some m.1)) ms
unfolding receive_all
receive_all-packs_of [] rest c v h n = refl
receive_all-packs_of ((type, msg) ∷ ms) rest c v h n =
    rw (append_assoc (pack_bytes type msg) (packs_of ms) rest) (
      receive_all-step (length ms) (pack_bytes type msg ++ (packs_of ms ++ rest))
        (packs_of ms ++ rest) _ _ c c
        (read_stream-pack _ (pack_bytes type msg) (packs_of ms ++ rest) new c
          (pack_bytes-IsPack type msg v.0.0 (omega (arith, sizes, length-pack_bytes type msg)))
          (omega (arith, length-append (pack_bytes type msg) (packs_of ms ++ rest))) n)
      ∙ ap₂ (λ (x : ℕ × Option (List ℕ)) (xs : List (ℕ × Option (List ℕ))). x ∷ xs)
          (deserialize-pack_bytes type msg v.0.1 (omega (arith, sizes, length-pack_bytes type msg)))
          (receive_all-packs_of ms rest c v.1 (omega (arith, sizes)) n))
  where
    sizes :
        length (pack_bytes type msg ++ packs_of ms)
        ≡ length (pack_bytes type msg) + length (packs_of ms)
    sizes = length-append (pack_bytes type msg) (packs_of ms)

pub size-at_end : (xs : List ℕ) (r : ℕ) → length xs < 2 ^ 32 → size (at_end xs r) ≡ length xs
unfolding size
size-at_end xs r h = omega arith

sent_whole :
    (ss : List Send) (xs : List ℕ) (c : Connect)
    → IsTaken ss xs c
    → (send_loop ss xs c).result ≡ some (ℤ.pos 0)
    → (send_loop ss xs c).out ≡ xs
sent_whole ss xs c k ok =
    let (rest, e, w) = send_loop-IsSent ss xs c k in
    sym (append-nil _) ∙ ap (λ ys. (send_loop ss xs c).out ++ ys) (sym (w ok)) ∙ e

-- What onWrite hands over where it comes to its end without an error.
pub on_write-whole :
    (ss : List Send) (l : ClientLink) (xs : List ℕ)
    → l.wbuf ≡ at_end xs 0
    → length xs < 2 ^ 32
    → IsTaken ss xs l.connect
    → (send_loop ss xs l.connect).result ≡ some (ℤ.pos 0)
    → (on_write ss l).0 ≡ xs
unfolding on_write
on_write-whole ss l [] e h k ok = rw (e, size-at_end [] 0 h) refl
on_write-whole ss l (x ∷ xs) e h k ok =
    rw (e, size-at_end (x ∷ xs) 0 h, take_all (length (x ∷ xs)) (x ∷ xs) (omega arith))
      (rw (filled (length xs)) (sent_whole ss (x ∷ xs) l.connect k ok))
  where
    filled : (n : ℕ) → (suc n == 0) ≡ false
    filled n = ground arith

pub send_all-connect : (ms : List Message) (l : ClientLink) → (send_all ms l).connect ≡ l.connect
unfolding send_all send_msg
send_all-connect [] l = refl
send_all-connect ((type, msg) ∷ ms) l = send_all-connect ms (send_msg msg type l)

-- A link as a queue: what sendMsg has been given while the buffer was empty, onWrite hands to the socket, in however many
-- pieces, and a peer that reads as often gets the same messages, with their types and in their order.
pub receive_all-send_all :
    (ms : List Message) (ss : List Send) (l : ClientLink) (c : Connect)
    → l.wbuf ≡ new
    → All IsMessage ms
    → length (packs_of ms) < 2 ^ 32
    → IsTaken ss (packs_of ms) l.connect
    → (send_loop ss (packs_of ms) l.connect).result ≡ some (ℤ.pos 0)
    → has_err c.err ≡ false
    → receive_all (length ms) (on_write ss (send_all ms l)).0 c
      ≡ map (λ (m : Message). (m.0, some m.1)) ms
receive_all-send_all ms ss l c e v h k ok n =
    rw
      (on_write-whole ss (send_all ms l) (packs_of ms) (send_all-wbuf ms l [] e (omega arith)) h
        (subst (IsTaken ss (packs_of ms)) (sym (send_all-connect ms l)) k)
        (ap (λ (c : Connect). (send_loop ss (packs_of ms) c).result) (send_all-connect ms l) ∙ ok))
      (ap (λ xs. receive_all (length ms) xs c) (sym (append-nil (packs_of ms)))
        ∙ receive_all-packs_of ms [] c v h n)
