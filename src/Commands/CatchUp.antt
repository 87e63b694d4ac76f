-- ===== src/Commands/CatchUp.antt =====
-- From the append-only file of a master to the database of a slave: onSendIncrToSlave and CommandAof::exec.
use naruto.Prelude.{
  ℕ, ◌+◌, ◌^◌, ◌<◌, ◌≡◌, refl, ◌∙◌, Option, none, some, List, IsBytes, All, length, some-inj,
}
use naruto.Prelude.Maps.{String}
use naruto.Loader.{Entry, load_file}
use naruto.Hset.{CommandHset}
use naruto.Backlog.Feed.{issue_all}
use naruto.Psync.{SlaveLink}
use naruto.AofName.Names.{aof_name}
use naruto.SlaveFeed.{CommandAof, transfer_len, on_send_incr_to_slave}
use naruto.SlaveFeed.Sent.{Sends, on_send_incr_to_slave-Sends}
use naruto.Commands.{Applied, exec_aof, replay}
use naruto.Commands.Replay.{IsText, calls, exec_aof-message_of}

-- What a slave becomes that replays some entries and stands where the link of its master stands.
abbrev pub caught_up :
    (List ℕ → CommandHset) → ℕ → ℕ → ℕ → List Entry → SlaveLink → Applied → Option Applied
caught_up decode worker created now es link s = elim (replay decode created now es s.database) [
  | none ↦ none
  | some d ↦ some (record {
    database = d;
    backlog = issue_all (calls worker es) s.backlog;
    link = record s.link {
      repl_aof_file_name = link.repl_aof_file_name;
      repl_aof_off = link.repl_aof_off;
    };
  })
]

module _ (decode : List ℕ → CommandHset) (worker created now : ℕ) where
  -- A call of the master and what its message does to the slave.
  abbrev pub CatchesUp : List Entry → Applied → Option (Option CommandAof × SlaveLink) → Type 0
  CatchesUp es s none = ⊥
  CatchesUp es s (some (none, link)) = ⊥
  CatchesUp es s (some (some m, link)) =
      exec_aof decode worker created now m s ≡ caught_up decode worker created now es link s

  Sends-CatchesUp :
      (es : List Entry) (after : String × ℕ) (s : Applied)
      (o : Option (Option CommandAof × SlaveLink))
      → All (λ (e : Entry). IsText e.body) es
      → Sends es after o
      → CatchesUp es s o
  Sends-CatchesUp es after s none h w = w
  Sends-CatchesUp es after s (some (none, link)) h (e, a, b) = cc
  Sends-CatchesUp es after s (some (some m, link)) h (e, a, b) =
      rw (some-inj e) (exec_aof-message_of decode worker created now es after s h ∙ rw (a, b) refl)

  -- A master's link that stands in the file n, with 1 to 16383 bytes behind it in which the loader finds
  -- entries without a zero byte: the message of one call brings a slave to what the replay of these entries
  -- makes of it, and the slave then stands where the master's link does. The file is shorter than 2 ^ 32.
  pub on_send_incr_to_slave-CatchesUp :
      (files : String → Option (List ℕ)) (n : ℕ) (contents : List ℕ) (link : SlaveLink)
      (es : List Entry) (s : Applied)
      → n + 1 < 2 ^ 31
      → link.repl_aof_file_name ≡ aof_name n
      → files (aof_name n) ≡ some contents
      → IsBytes contents
      → length contents < 2 ^ 32
      → link.repl_aof_off < length contents
      → length contents < link.repl_aof_off + transfer_len
      → load_file contents link.repl_aof_off ≡ some es
      → All (λ (e : Entry). IsText e.body) es
      → CatchesUp es s (on_send_incr_to_slave files link)
  on_send_incr_to_slave-CatchesUp files n contents link es s h a f v l i t e w =
      Sends-CatchesUp es _ s _ w
        (on_send_incr_to_slave-Sends files n contents link es h a f v l i t e)
