-- ===== src/Archive/Cache/Decode.antt =====
-- Entries read back from their bytes, and where they stand in the file.
use madder.Common.{ℕ, zero, suc, ◌+◌, ◌*◌, ◌≡◌, refl, sym, ap, ◌∙◌, arith}
use madder.Common.{List, [], ◌∷◌, ◌++◌, append_assoc, append-nil, length, length-append, take, drop}
use madder.Common.{take-append, drop-append, take-drop, get_or, get_elem?, some, All, some_inj}
use madder.Common.Bytes.{Bytes}
use madder.Common.BigEndian.{word_bytes, bytes_word, length-word_bytes, bytes_word-word_bytes}
use madder.Archive.Types.{CacheEntryV1, IsU64}
use madder.Archive.Cache.Reader.{decode_cache_entry}
use madder.Archive.Cache.Order.{HasSize}
use madder.Archive.Cache.Written.{Fits, entry_bytes, entries_bytes}

-- A word behind a prefix of known length.
word_behind :
    (before after whole : Bytes) (n w : ℕ)
    → whole ≡ before ++ (word_bytes 8 w ++ after)
    → length before ≡ n
    → IsU64 w
    → bytes_word (take 8 (drop n whole)) ≡ w
word_behind before after whole n w e hb h =
    ap bytes_word (take-drop before (word_bytes 8 w) after whole n 8 e hb (length-word_bytes 8 w))
    ∙ bytes_word-word_bytes 8 w h

module _ (e : CacheEntryV1) (n : ℕ) (size : HasSize n e) where
  pub length-entry_bytes : length (entry_bytes e) ≡ n + n + 25
  length-entry_bytes = simp (length-append, length-word_bytes) (omega arith)

  hashes : Bytes
  hashes = e.hash ++ e.archive_checksum

  length-hashes : length hashes ≡ n + n
  unfolding hashes
  length-hashes = length-append e.hash e.archive_checksum ∙ omega arith

  checksum_part : take n (drop n (entry_bytes e)) ≡ e.archive_checksum
  checksum_part = take-drop e.hash e.archive_checksum _ (entry_bytes e) n n refl size.0 size.1

  first_word : IsU64 e.offset → bytes_word (take 8 (drop (n + n) (entry_bytes e))) ≡ e.offset
  unfolding hashes
  first_word =
      word_behind hashes
        (word_bytes 8 e.stored_size ++ ((e.entry_type ∷ []) ++ word_bytes 8 e.base_offset))
        (entry_bytes e) (n + n) e.offset (simp append_assoc) length-hashes

  second_word :
      IsU64 e.stored_size → bytes_word (take 8 (drop (n + n + 8) (entry_bytes e))) ≡ e.stored_size
  unfolding hashes
  second_word =
      word_behind (hashes ++ word_bytes 8 e.offset)
        ((e.entry_type ∷ []) ++ word_bytes 8 e.base_offset) (entry_bytes e) (n + n + 8)
        e.stored_size (simp append_assoc)
        (length-append hashes (word_bytes 8 e.offset)
          ∙ omega (arith, length-hashes, length-word_bytes 8 e.offset))

  upto_type : Bytes
  upto_type = hashes ++ (word_bytes 8 e.offset ++ word_bytes 8 e.stored_size)

  length-upto_type : length upto_type ≡ n + n + 8 + 8
  unfolding upto_type
  length-upto_type =
      length-append hashes (word_bytes 8 e.offset ++ word_bytes 8 e.stored_size)
      ∙ omega (
        arith,
        length-hashes,
        length-append (word_bytes 8 e.offset) (word_bytes 8 e.stored_size),
        length-word_bytes 8 e.offset,
        length-word_bytes 8 e.stored_size,
      )

  type_byte : get_or (drop (n + n + 8 + 8) (entry_bytes e)) 0 0 ≡ e.entry_type
  type_byte =
      ap (λ l. get_or l 0 0)
        (ap (drop (n + n + 8 + 8)) regrouped
          ∙ drop-append (n + n + 8 + 8) upto_type _ length-upto_type)
    where
      regrouped : entry_bytes e ≡ upto_type ++ ((e.entry_type ∷ []) ++ word_bytes 8 e.base_offset)
      regrouped = unfold upto_type hashes in simp append_assoc

  third_word :
      IsU64 e.base_offset
      → bytes_word (take 8 (drop (n + n + 8 + 8 + 1) (entry_bytes e))) ≡ e.base_offset
  unfolding upto_type hashes
  third_word =
      word_behind (upto_type ++ (e.entry_type ∷ [])) [] (entry_bytes e) (n + n + 8 + 8 + 1)
        e.base_offset (simp (append_assoc, append-nil))
        (length-append upto_type (e.entry_type ∷ []) ∙ omega (arith, length-upto_type))

  pub decode_cache_entry-entry_bytes : Fits e → decode_cache_entry n (entry_bytes e) ≡ e
  unfolding decode_cache_entry
  decode_cache_entry-entry_bytes fits = cc (
    take-append n e.hash
        (e.archive_checksum
          ++ (word_bytes 8 e.offset
              ++ (word_bytes 8 e.stored_size
                  ++ ((e.entry_type ∷ []) ++ word_bytes 8 e.base_offset))))
        size.0,
    checksum_part,
    first_word fits.offset,
    second_word fits.stored_size,
    type_byte,
    third_word fits.base_offset,
  )

-- Where the entry with index `i` stands among the bytes of the entries.
pub record Stands (n i : ℕ) (e : CacheEntryV1) (es : List CacheEntryV1) : Type 0 where
  pub front : Bytes
  pub back : Bytes
  pub split : entries_bytes es ≡ front ++ (entry_bytes e ++ back)
  pub front_length : length front ≡ i * (n + n + 25)

pub stands :
    (n i : ℕ) (e : CacheEntryV1) (es : List CacheEntryV1)
    → All (HasSize n) es
    → get_elem? es i ≡ some e
    → Stands n i e es
stands n i e [] h p = absurd (cc)
stands n zero e (x ∷ xs) h p = record {
  front = [];
  back = entries_bytes xs;
  split = ap (λ y. entry_bytes y ++ entries_bytes xs) (some_inj p);
  front_length = omega arith;
}
stands n (suc i) e (x ∷ xs) (h, hs) p =
    let later = stands n i e xs hs p in
    record {
      front = entry_bytes x ++ later.front;
      back = later.back;
      split =
          ap (λ l. entry_bytes x ++ l) later.split
          ∙ sym (append_assoc (entry_bytes x) later.front (entry_bytes e ++ later.back));
      front_length =
          length-append (entry_bytes x) later.front
          ∙ omega (arith, length-entry_bytes x n h, later.front_length);
    }
