-- ===== src/Link/Serve.antt =====
-- A command over a link, from the bytes that come to the answer.
use naruto.Prelude.{
  ℕ, ◌+◌, ◌-◌, ◌^◌, ◌≤◌, ◌<◌, ◌≡◌, refl, sym, subst, ap, ap₂, ◌∙◌, false, Option, none, some, List,
  [], ◌∷◌, length, take, concat, map, drop, take-append-drop, length-take, All-take, All, IsBytes,
  arith,
}
use naruto.Prelude.Int.{ℤ}
use naruto.Codec.{le_bytes, le_value-lt}
use naruto.Bytes.{new, clear, read, read_at, u32}
use naruto.Bytes.Ends.{at_end, read_at-front}
use naruto.Bytes.PackLayout.{pack_bytes, length-pack_bytes}
use naruto.Pack.{deserialize, body_of}
use naruto.Pack.RoundTrip.{type-pack_bytes, size-pack_bytes, body_of-pack_bytes}
use naruto.Connection.{Connect, got, Send, send_loop, has_err}
use naruto.Connection.Framing.{IsTaken}
use naruto.Connection.Whole.{head_length, read_pack-whole, IsPiece}
use naruto.Commands.{Command, fetch, find_command}
use naruto.Objects.{Feature}
use naruto.Hset.{hget_fields}
use naruto.Link.{
  ClientLink, Messages, CommandHget, hget_reply, Server, served, fault, idle, unknown, command,
  read_head, on_read, on_write, serve, exec, execute, after_recv, exec_hget, exec_hset, send_msg,
}
use naruto.Link.Stream.{IsPack, head_length-append}
use naruto.Link.Queue.{packs_of, send_all, receive_all, receive_all-send_all, pack_bytes-IsPack}

-- The link once a pack has been read into it and its head has been read.
abbrev pub with_pack : ℕ → List ℕ → ℕ → ClientLink → ClientLink
with_pack type msg now l = record l {
  rbuf = record { buf = pack_bytes type msg; rpos = 8; wpos = length (pack_bytes type msg) };
  lastinteraction = now;
}

read_head-pack :
    (type : ℕ) (msg : List ℕ) (now : ℕ) (l : ClientLink)
    → type < 2 ^ 16
    → read_head (record l { rbuf = at_end (pack_bytes type msg) 0; lastinteraction = now })
      ≡ elim (fetch type) [ none ↦ unknown | some c ↦ command c (with_pack type msg now l) ]
unfolding read_head read
read_head-pack type msg now l h =
    rw (type-pack_bytes type msg 6 (length (pack_bytes type msg)) h, read_head) refl

-- What comes as one whole pack, of which the first piece has the head.
pub record Arrives (type : ℕ) (msg c : List ℕ) (cs : List (List ℕ)) : Type 0 where
  pub whole : concat (c ∷ cs) ≡ pack_bytes type msg
  pub pieces : All IsPiece (c ∷ cs)
  pub has_head : 8 ≤ length c
  pub is_type : type < 2 ^ 16
  pub bytes : IsBytes msg
  pub fits : 8 + length msg < 2 ^ 32

execute-command :
    (m : Messages) (created now : ℕ) (s : Server) (l : ClientLink) (o : Option Command)
    → execute m created now s (elim o [ none ↦ unknown | some k ↦ command k l ])
      ≡ elim o [ none ↦ idle unknown | some k ↦ exec m k created now l s ]
unfolding execute
execute-command m created now s l none = refl
execute-command m created now s l (some k) = refl

-- A whole pack is executed by the command of its type, if that is one of the enumeration.
pub serve-pack :
    (m : Messages) (type : ℕ) (msg c : List ℕ) (cs : List (List ℕ)) (created now : ℕ)
    (l : ClientLink) (s : Server)
    → Arrives type msg c cs
    → has_err l.connect.err ≡ false
    → serve m (map got (c ∷ cs)) created now l s ≡ elim (fetch type) [
      | none ↦ idle unknown
      | some k ↦ exec m k created now (with_pack type msg now l) s
    ]
unfolding serve on_read after_recv
serve-pack m type msg c cs created now l s a n =
    ap (λ r. execute m created now s (after_recv now l r))
      (read_pack-whole c cs (clear l.rbuf) l.connect a.pieces a.has_head headed short n)
    ∙ ap
        (λ p.
          execute m created now s
            (read_head (record l { rbuf = at_end p 0; lastinteraction = now })))
        a.whole
    ∙ ap (execute m created now s) (read_head-pack type msg now l a.is_type)
    ∙ execute-command m created now s (with_pack type msg now l) (fetch type)
  where
    p : IsPack (pack_bytes type msg)
    p = pack_bytes-IsPack type msg a.bytes a.fits

    headed : head_length c ≡ length (concat (c ∷ cs))
    headed =
        sym (head_length-append c (concat cs) a.has_head)
        ∙ ap head_length a.whole
        ∙ p.length_in_head
        ∙ sym (ap length a.whole)

    short : length (concat (c ∷ cs)) < 2 ^ 32
    short = subst (λ (xs : List ℕ). length xs < 2 ^ 32) (sym a.whole) p.fits

deserialize-with_pack :
    (type : ℕ) (msg : List ℕ) (now : ℕ) (l : ClientLink)
    → type < 2 ^ 16
    → 8 + length msg < 2 ^ 32
    → deserialize (with_pack type msg now l).rbuf ≡ (type, some msg)
unfolding deserialize
deserialize-with_pack type msg now l t h =
    ap₂ (λ (a : ℕ) (b : Option (List ℕ)). (a, b)) (type-pack_bytes type msg 8 _ t)
      (rw (size-pack_bytes type msg 8 (length (pack_bytes type msg)) h)
        (ap (body_of (pack_bytes type msg)) (omega arith) ∙ body_of-pack_bytes type msg))

exec_hget_lem :
    (m : Messages) (type : ℕ) (msg : List ℕ) (fs : List Feature) (l : ClientLink) (s : Server)
    → deserialize l.rbuf ≡ (type, some msg)
    → hget_fields (m.decode_hget msg).key (m.decode_hget msg).fields s.database ≡ some fs
    → exec_hget m l s ≡ served (send_msg (m.encode_answer (hget_reply fs)) type l) s
unfolding exec_hget
exec_hget_lem m type msg fs l s e f =
    rw (e, exec_hget)
      (rw f (
        ap
          (λ (p : ℕ × Option (List ℕ)). served (send_msg (m.encode_answer (hget_reply fs)) p.0 l) s)
          e))

-- HGET over links: where a request arrives as a whole pack, whose fields can be read, the server stays as it is, and once its
-- answer has been sent without an error the client reads the features of these fields, with the type of its request.
pub serve-hget :
    (m : Messages) (q : CommandHget) (fs : List Feature) (c : List ℕ) (cs : List (List ℕ))
    (created now : ℕ) (ss : List Send) (l : ClientLink) (s : Server) (peer : Connect)
    → m.decode_hget (m.encode_hget q) ≡ q
    → Arrives 2001 (m.encode_hget q) c cs
    → hget_fields q.key q.fields s.database ≡ some fs
    → l.wbuf ≡ new
    → has_err l.connect.err ≡ false
    → IsBytes (m.encode_answer (hget_reply fs))
    → length (packs_of ((2001, m.encode_answer (hget_reply fs)) ∷ [])) < 2 ^ 32
    → IsTaken ss (packs_of ((2001, m.encode_answer (hget_reply fs)) ∷ [])) l.connect
    → (send_loop ss (packs_of ((2001, m.encode_answer (hget_reply fs)) ∷ [])) l.connect).result
      ≡ some (ℤ.pos 0)
    → has_err peer.err ≡ false
    → (l' : ClientLink) × (serve m (map got (c ∷ cs)) created now l s ≡ served l' s)
      × (receive_all 1 (on_write ss l').0 peer
          ≡ (2001, some (m.encode_answer (hget_reply fs))) ∷ [])
unfolding exec fetch find_command send_all
serve-hget m q fs c cs created now ss l s peer law a f e n v h k ok np = (
  send_msg (m.encode_answer (hget_reply fs)) 2001 (with_pack 2001 (m.encode_hget q) now l),
  serve-pack m 2001 (m.encode_hget q) c cs created now l s a n
      ∙ exec_hget_lem m 2001 (m.encode_hget q) fs (with_pack 2001 (m.encode_hget q) now l) s
          (deserialize-with_pack 2001 (m.encode_hget q) now l a.is_type a.fits)
          (ap (λ (r : CommandHget). hget_fields r.key r.fields s.database) law ∙ f),
  receive_all-send_all ((2001, m.encode_answer (hget_reply fs)) ∷ []) ss
      (with_pack 2001 (m.encode_hget q) now l) peer e ((v, omega arith), tt) h k ok np,
)

body_of-behind : (bytes : List ℕ) (len : ℕ) → length bytes < 8 + len → body_of bytes len ≡ none
unfolding body_of
body_of-behind bytes len h = ground arith

exec_hset_lem :
    (m : Messages) (created now n : ℕ) (l : ClientLink) (s : Server)
    → read_at 4 l.rbuf.rpos l.rbuf ≡ n
    → length l.rbuf.buf < n
    → n < 2 ^ 32
    → exec_hset m created now l s ≡ fault
unfolding exec_hset read
exec_hset_lem m created now n l s e h b =
    rw
      (
        body_of-behind l.rbuf.buf (u32 (read_at 4 l.rbuf.rpos l.rbuf + 2 ^ 32 - 8))
            (omega (arith, e)),
        exec_hset,
      )
      refl

second_head :
    (type : ℕ) (msg : List ℕ) (now : ℕ) (l : ClientLink)
    → 4 ≤ length msg
    → read_at 4 8 (with_pack type msg now l).rbuf ≡ head_length msg
unfolding le_bytes
second_head type msg now l h =
    read_at-front 4 8 (with_pack type msg now l).rbuf (take 4 msg) (drop 4 msg)
      (sym (take-append-drop 4 msg)) (omega (arith, length-take 4 msg)) (omega arith)

head_length-lt : (msg : List ℕ) → IsBytes msg → 4 ≤ length msg → head_length msg < 2 ^ 32
head_length-lt msg v h =
    subst (λ k. head_length msg < 256 ^ k) {y = 4} (omega (arith, length-take 4 msg))
      (le_value-lt (take 4 msg) (All-take _ 4 msg v))

-- The bug: onRead has read the head when it executes the command, and CommandHset::exec reads another one where the reader
-- stands. The first four bytes of the message are taken for the length, and with a number in them that is greater than the length of
-- the pack the parser is given bytes behind the buffer.
pub serve-hset :
    (m : Messages) (msg c : List ℕ) (cs : List (List ℕ)) (created now : ℕ) (l : ClientLink)
    (s : Server)
    → Arrives 2000 msg c cs
    → 4 ≤ length msg
    → 8 + length msg < head_length msg
    → has_err l.connect.err ≡ false
    → serve m (map got (c ∷ cs)) created now l s ≡ fault
unfolding exec fetch find_command
serve-hset m msg c cs created now l s a h b n =
    serve-pack m 2000 msg c cs created now l s a n
    ∙ exec_hset_lem m created now (head_length msg) (with_pack 2000 msg now l) s
        (second_head 2000 msg now l h) (omega (arith, length-pack_bytes 2000 msg, b))
        (head_length-lt msg a.bytes h)
