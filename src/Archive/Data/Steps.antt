-- ===== src/Archive/Data/Steps.antt =====
-- How a cursor moves through a file whose next bytes are known.
use madder.Common.{ℕ, ◌+◌, ◌^◌, ◌<◌, ◌≡◌, ap, ◌∙◌, arith, ◌++◌, length, length-append}
use madder.Common.{if◌then◌else◌, le→leb, take-append, drop-append}
use madder.Common.Bytes.{Bytes}
use madder.Common.BigEndian.{word_bytes, bytes_word, length-word_bytes, bytes_word-word_bytes}
use madder.Archive.Types.{Result, ok}
use madder.Archive.Data.Cursor.{
  Cursor, Read, ◌>>=◌, lift, pure, bind_ok, read_full, reading, read_word,
}

-- A cursor past `n` more bytes, with this rest.
abbrev pub moved : Cursor → ℕ → Bytes → Cursor
moved c n rest = record { file = c.file; pos = c.pos + n; rest = rest }

module _ (c : Cursor) (n : ℕ) (xs ys : Bytes) (e : c.rest ≡ xs ++ ys) (h : length xs ≡ n) where
  pub read_full-append : read_full n c ≡ ok (xs, moved c n ys)
  unfolding read_full
  read_full-append = rw (
    e,
    le→leb n (length (xs ++ ys)) (omega (arith, length-append xs ys)),
    if◌then◌else◌,
    take-append n xs ys h,
    drop-append n xs ys h,
  )

  reading-append : reading (read_full n) c ≡ ok (xs, moved c n ys)
  unfolding reading
  reading-append = rw read_full-append

  module _ {B : Type 0} (f : Bytes → Read B) where
    pub read_full-then : (read_full n >>= f) c ≡ f xs (moved c n ys)
    read_full-then = bind_ok (read_full n) f c read_full-append

    pub reading-then : (reading (read_full n) >>= f) c ≡ f xs (moved c n ys)
    reading-then = bind_ok (reading (read_full n)) f c reading-append

module _ (c : Cursor) (k v : ℕ) (ys : Bytes) (e : c.rest ≡ word_bytes k v ++ ys)
    (h : v < 256 ^ k) where
  read_word-append : read_word k c ≡ ok (v, moved c k ys)
  unfolding read_word
  read_word-append =
      reading-then c k (word_bytes k v) ys e (length-word_bytes k v) (λ bs. pure (bytes_word bs))
      ∙ ap (λ w. ok (w, moved c k ys)) (bytes_word-word_bytes k v h)

  pub read_word-then : {B : Type 0} (f : ℕ → Read B) → (read_word k >>= f) c ≡ f v (moved c k ys)
  read_word-then f = bind_ok (read_word k) f c read_word-append

pub lift-then :
    {A B : Type 0} (r : Result A) {a : A} (f : A → Read B) (c : Cursor)
    → r ≡ ok a
    → (lift r >>= f) c ≡ f a c
lift-then r f c e = ap (λ q. (lift q >>= f) c) e
