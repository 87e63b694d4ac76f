-- ===== src/SlaveFeed/Sent.antt =====
-- A call of onSendIncrToSlave: the message and the position after it.
use naruto.Prelude.{
  ℕ, ◌+◌, ◌-◌, ◌^◌, ◌<◌, ◌≡◌, refl, sym, ap, ◌∙◌, true, false, Option, none, some, List, [], ◌∷◌,
  map, length, IsBytes, ◌==◌, subst, arith,
}
use mathlib.Core.Option
use naruto.Prelude.Maps.{String}
use naruto.Bytes.{Bytes, size}
use naruto.Loader.{Entry, load_file}
use naruto.AofName.{has_next_aof}
use naruto.AofName.Names.{aof_name, next_aof-aof_name}
use naruto.Psync.{SlaveLink, is_empty}
use naruto.SlaveFeed.{
  CommandAof, Sending, transfer_len, c_string, size_in, move_on, multi_of, after_loop,
  on_send_incr_to_slave,
}
use naruto.SlaveFeed.Increment.{read_packs-load_file}

-- Where a slave stands that has been sent a file to its end: there, or at the start of the next file.
abbrev pub position_after : Option (List ℕ) → ℕ → ℕ → String × ℕ
position_after none n end = (aof_name n, end)
position_after (some next) n end = (aof_name (n + 1), 0)

-- The message that carries some packs, with a position.
abbrev pub message_of : List Entry → String × ℕ → CommandAof
message_of es (name, off) = record {
  types = map (λ (e : Entry). e.type) es;
  commands = map (λ (e : Entry). c_string e.body) es;
  aof_name = name;
  aof_off = off;
}

has_next_aof-aof_name :
    (files : String → Option (List ℕ)) (n : ℕ)
    → n + 1 < 2 ^ 31
    → has_next_aof (size_in files) (aof_name n)
      ≡ some (elim (files (aof_name (n + 1))) [ none ↦ none | some next ↦ some (aof_name (n + 1)) ])
unfolding has_next_aof
has_next_aof-aof_name files n h =
    rw (has_next_aof, next_aof-aof_name n h) (same (files (aof_name (n + 1))))
  where
    same :
        (o : Option (List ℕ))
        → some (elim (Option.map length o) [ none ↦ none | some m ↦ some (aof_name (n + 1)) ])
          ≡ some (elim o [ none ↦ none | some next ↦ some (aof_name (n + 1)) ])
    same none = refl
    same (some next) = refl

abbrev pub Sends : List Entry → String × ℕ → Option (Option CommandAof × SlaveLink) → Type 0
Sends es after none = ⊥
Sends es after (some (m, link)) =
    (m ≡ some (message_of es after))
    × (link.repl_aof_file_name ≡ after.0)
    × (link.repl_aof_off ≡ after.1)

multi_of-message_of :
    (r : Sending) (link : SlaveLink)
    → (size r.buffer == 0) ≡ false
    → multi_of r link ≡ some (message_of r.entries (link.repl_aof_file_name, link.repl_aof_off))
unfolding multi_of
multi_of-message_of r link z = rw z refl

after_loop-Sends :
    (files : String → Option (List ℕ)) (n : ℕ) (r : Sending) (link : SlaveLink)
    → n + 1 < 2 ^ 31
    → link.repl_aof_file_name ≡ aof_name n
    → r.eof ≡ true
    → (size r.buffer == 0) ≡ false
    → Sends r.entries
        (position_after (files (aof_name (n + 1))) n (link.repl_aof_off + r.readed))
        (after_loop files r link)
unfolding after_loop multi_of
after_loop-Sends files n r link h a e z =
    rw (after_loop, e)
      (rw (asked (has_next_aof-aof_name files n h)) (next (files (aof_name (n + 1)))))
  where
    end : ℕ
    end = link.repl_aof_off + r.readed

    asked :
        {o : Option (Option String)}
        → has_next_aof (size_in files) (aof_name n) ≡ o
        → has_next_aof (size_in files) link.repl_aof_file_name ≡ o
    asked q = ap (has_next_aof (size_in files)) a ∙ q

    next :
        (o : Option (List ℕ))
        → Sends r.entries (position_after o n end) (
            Option.map
              (λ (nx : Option String).
                let link' : SlaveLink = move_on nx end link in (multi_of r link', link'))
              (some (elim o [ none ↦ none | some x ↦ some (aof_name (n + 1)) ])))
    next none = (
      multi_of-message_of r (move_on none end link) z
          ∙ ap (λ (name : String). some (message_of r.entries (name, end))) a,
      a,
      refl,
    )
    next (some x) =
        (multi_of-message_of r (move_on (some (aof_name (n + 1))) end link) z, refl, refl)

-- A link that stands in the file n, with 1 to 16383 bytes behind it in which the loader finds entries: one message carries
-- these entries, and the link and the message have the same position, which is the end of the file, or the start of the
-- file n + 1 if there is one. The file is shorter than 2 ^ 32.
pub on_send_incr_to_slave-Sends :
    (files : String → Option (List ℕ)) (n : ℕ) (contents : List ℕ) (link : SlaveLink)
    (es : List Entry)
    → n + 1 < 2 ^ 31
    → link.repl_aof_file_name ≡ aof_name n
    → files (aof_name n) ≡ some contents
    → IsBytes contents
    → length contents < 2 ^ 32
    → link.repl_aof_off < length contents
    → length contents < link.repl_aof_off + transfer_len
    → load_file contents link.repl_aof_off ≡ some es
    → Sends es
        (position_after (files (aof_name (n + 1))) n (length contents))
        (on_send_incr_to_slave files link)
unfolding on_send_incr_to_slave size
on_send_incr_to_slave-Sends files n [] link es h a f v l i s d = absurd (omega arith)
on_send_incr_to_slave-Sends files n (c ∷ cs) link es h a f v l i s d =
    let (r, sent, loaded, m, z, e) = read_packs-load_file (c ∷ cs) link.repl_aof_off es v l i s d in
    rw (on_send_incr_to_slave, named, found, sent)
      (subst2
        (λ (end : ℕ) (all : List Entry).
          Sends all (position_after (files (aof_name (n + 1))) n end) (after_loop files r link))
        (omega (arith, m)) (sym loaded) (after_loop-Sends files n r link h a e (filled r.buffer z)))
  where
    subst2 :
        (P : ℕ → List Entry → Type 0) {x y : ℕ} {u w : List Entry} → x ≡ y → u ≡ w → P x u → P y w
    subst2 P {x = x} {w = w} p q t = subst (λ k. P k w) p (subst (P x) q t)

    named : is_empty link.repl_aof_file_name ≡ false
    named = rw a refl

    found : files link.repl_aof_file_name ≡ some (c ∷ cs)
    found = ap files a ∙ f

    filled :
        (b : Bytes) → length b.buf ≡ length (c ∷ cs) - link.repl_aof_off → (size b == 0) ≡ false
    filled b z = ground arith
