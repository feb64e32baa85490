-- ===== src/Archive/Data/Cursor.antt =====
-- io.ReadSeeker over a file in memory: the position, and the bytes from there on.
use madder.Common.{ℕ, ◌+◌, ◌^◌, [], ◌∷◌, length}
use madder.Common.{take, drop, leb, if◌then◌else◌}
use madder.Common.Bytes.{Bytes}
use madder.Common.BigEndian.{bytes_word}
use madder.Archive.Types.{Result, ok, err, Error, end_of_file, short_read}
use madder.Archive.Exec.{Exec, ◌>>=◌, bind_ok}
pub use madder.Archive.Exec.{◌>>=◌, ◌>>◌, pure, raise, lift, bind_ok}

pub record Cursor : Type 0 where
  pub file : Bytes
  pub pos : ℕ
  pub rest : Bytes

abbrev pub Read {ℓ} : Type ℓ → Type ℓ
Read A = Exec Cursor A

-- Seek(off, io.SeekStart), for an offset that is an int64 by its bit pattern.
unfoldable pub seek : ℕ → Read (Unit {0})
seek off c =
    if leb (2 ^ 63) off
    then err short_read
    else ok (tt, record c { pos = off; rest = drop off c.file })

-- Seek(0, io.SeekCurrent)
abbrev pub position : Read ℕ
position c = ok (c.pos, c)

-- Seek(0, io.SeekEnd)
unfoldable pub seek_end : Read ℕ
seek_end c = ok (length c.file, record c { pos = length c.file; rest = [] })

-- What a read that gets too few bytes answers: io.EOF if it got none.
abbrev pub shortage : Bytes → Error
shortage [] = end_of_file
shortage (b ∷ bs) = short_read

-- io.ReadFull into a buffer of `n` bytes.
unfoldable pub read_full : ℕ → Read Bytes
read_full n c =
    if leb n (length c.rest)
    then ok (take n c.rest, record c { pos = c.pos + n; rest = drop n c.rest })
    else err (shortage c.rest)

abbrev wrap_error {ℓ} : {A : Type ℓ} → Result A → Result A
wrap_error (ok a) = ok a
wrap_error (err e) = err short_read

-- A wrapped error is not io.EOF.
unfoldable pub reading {ℓ} : {A : Type ℓ} → Read A → Read A
reading m c = wrap_error (m c)

-- binary.Read of an unsigned word of `k` bytes.
unfoldable pub read_word : ℕ → Read ℕ
read_word k = do bs ← reading (read_full k); pure (bytes_word bs)
