-- ===== src/Archive/Headed.antt =====
-- What an io.ReaderAt gives of a file: a segment of it, and the fields of the header that the index
-- and the cache share.
use madder.Common.{ℕ, ◌+◌, ◌%◌, ◌^◌, ◌≤◌, ◌<◌, ◌≡◌, refl, arith}
use madder.Common.{[], ◌∷◌, ◌++◌, append_assoc, length, length-append}
use madder.Common.{take-append, drop-append, le→leb, lt→leb, if◌then◌else◌}
use madder.Common.Bytes.{Bytes}
use madder.Common.BigEndian.{word_bytes, length-word_bytes}
use madder.Archive.Types.{ok}
use madder.Archive.Index.Reader.{read_at}

pub read_at_mid :
    (before mid after : Bytes) (n off : ℕ)
    → length before ≡ off
    → length mid ≡ n
    → off < 2 ^ 63
    → read_at (before ++ (mid ++ after)) n off ≡ ok mid
unfolding read_at
read_at_mid before mid after n off hb hm small = rw (
  lt→leb (2 ^ 63) off small,
  le→leb (off + n) (length (before ++ (mid ++ after)))
      (omega (arith, length-append before (mid ++ after), length-append mid after)),
  if◌then◌else◌,
  drop-append off before (mid ++ after) hb,
  take-append n mid after hm,
)

pub read_at_segment :
    (file before mid after : Bytes) (n off : ℕ)
    → file ≡ before ++ (mid ++ after)
    → length before ≡ off
    → length mid ≡ n
    → off < 2 ^ 63
    → read_at file n off ≡ ok mid
read_at_segment file before mid after n off e hb hm small =
    rw e (read_at_mid before mid after n off hb hm small)

-- A file of a header and a rest.
abbrev pub headed : Bytes → ℕ → Bytes → ℕ → Bytes → Bytes
headed magic version format count rest =
    magic
    ++ (word_bytes 2 version
        ++ ((length format % 256 ∷ []) ++ (format ++ (word_bytes 8 count ++ rest))))

module _ (magic : Bytes) (version : ℕ) (format : Bytes) (count : ℕ) (rest : Bytes)
    (four : length magic ≡ 4) (short : length format ≤ 255) where
  pub magic_read : read_at (headed magic version format count rest) 4 0 ≡ ok magic
  magic_read = read_at_mid [] magic _ 4 0 refl four (omega arith)

  pub version_read :
      read_at (headed magic version format count rest) 2 4 ≡ ok (word_bytes 2 version)
  version_read = read_at_mid magic _ _ 2 4 four (length-word_bytes 2 version) (omega arith)

  pub length_read :
      read_at (headed magic version format count rest) 1 6 ≡ ok (length format % 256 ∷ [])
  length_read =
      read_at_segment _ (magic ++ word_bytes 2 version) (length format % 256 ∷ [])
        (format ++ (word_bytes 8 count ++ rest)) 1 6 (simp append_assoc)
        (omega
          (arith, four, length-append magic (word_bytes 2 version), length-word_bytes 2 version))
        refl (omega arith)

  pub format_read :
      read_at (headed magic version format count rest) (length format % 256) 7 ≡ ok format
  format_read =
      read_at_segment _ (magic ++ (word_bytes 2 version ++ (length format % 256 ∷ []))) format
        (word_bytes 8 count ++ rest) (length format % 256) 7 (simp append_assoc)
        (omega (
          arith,
          four,
          length-append magic (word_bytes 2 version ++ (length format % 256 ∷ [])),
          length-append (word_bytes 2 version) (length format % 256 ∷ []),
          length-word_bytes 2 version,
        ))
        (omega arith) (omega arith)

  pub count_read :
      read_at (headed magic version format count rest) 8 (7 + length format % 256)
      ≡ ok (word_bytes 8 count)
  count_read =
      read_at_segment _ (magic ++ (word_bytes 2 version ++ ((length format % 256 ∷ []) ++ format)))
        (word_bytes 8 count) rest 8 (7 + length format % 256) (simp append_assoc)
        (omega (
          arith,
          four,
          length-append magic (word_bytes 2 version ++ (length format % 256 ∷ format)),
          length-append (word_bytes 2 version) (length format % 256 ∷ format),
          length-word_bytes 2 version,
        ))
        (length-word_bytes 8 count) (omega arith)
