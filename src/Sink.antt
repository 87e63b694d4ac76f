-- ===== src/Sink.antt =====
-- sink/rotate_file_stream: the append-only file, cut into numbered files.
-- A name "naruto.aof.<idx>" stands as its index, the directory as a function from the index to the
-- contents of the file. `tellp` is the number of bytes written through the stream: each is opened on a
-- file of its own.
pub mod Checkpoint
use naruto.Prelude.{
  ℕ, zero, suc, ◌+◌, Option, some, none, List, [], ◌++◌, length, leb, ◌==◌, if◌then◌else◌,
}

pub record RotateFileStream : Type 0 where
  pub files : ℕ → List ℕ
  pub idx : ℕ
  pub offset : ℕ
  pub rotate_size : ℕ

-- fileState: the index stands for the name.
pub record FileState : Type 0 where
  pub name : ℕ
  pub offset : ℕ

-- _rotate_init: `last` is the index of the last of the files that listAof finds.
unfoldable pub rotate_init : (ℕ → List ℕ) → Option ℕ → ℕ → RotateFileStream
rotate_init files none rotate_size = record {
  files = files;
  idx = 0;
  offset = 0;
  rotate_size = rotate_size;
}
rotate_init files (some last) rotate_size = record {
  files = files;
  idx = last + 1;
  offset = 0;
  rotate_size = rotate_size;
}

unfoldable pub cur_roll_file : RotateFileStream → FileState
cur_roll_file s = record { name = s.idx; offset = s.offset }

-- _rotate
unfoldable pub rotate : RotateFileStream → RotateFileStream
rotate s = record s { idx = s.idx + 1; offset = 0 }

abbrev pub add_to_file : (ℕ → List ℕ) → ℕ → List ℕ → ℕ → List ℕ
add_to_file files idx bytes i = if i == idx then files i ++ bytes else files i

-- stream_->write in append mode
unfoldable pub put_stream : List ℕ → RotateFileStream → RotateFileStream
put_stream bytes s = record s {
  files = add_to_file s.files s.idx bytes;
  offset = s.offset + length bytes;
}

-- write(s, n): the size before the write is returned.
unfoldable pub write : List ℕ → RotateFileStream → ℕ × RotateFileStream
write bytes s = (s.offset, put_stream bytes (if leb s.rotate_size s.offset then rotate s else s))
