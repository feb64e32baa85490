-- ===== src/Archive/Index/Decode.antt =====
-- Words and entries read back from the bytes of the file.
use madder.Common.{ℕ, zero, suc, ◌+◌, ◌*◌, ◌≡◌, refl, sym, ap, ◌∙◌, arith}
use madder.Common.{List, [], ◌∷◌, ◌++◌, append_assoc, append-nil, length, length-append, take, drop}
use madder.Common.{take-append, drop-append, get_or, get_elem?, some, All}
use madder.Common.{take-drop}
use madder.Common.Bytes.{Bytes}
use madder.Common.BigEndian.{word_bytes, bytes_word, length-word_bytes, bytes_word-word_bytes}
use madder.Archive.Types.{IndexEntryV1, IsU64}
use madder.Archive.Index.Reader.{words_of, decode_entry}
use madder.Archive.Index.Order.{HasSize}
use madder.Archive.Index.Image.{words_bytes, entry_bytes, entries_bytes}
use madder.Archive.Index.Written.{Fits}

pub length-words_bytes : (ws : List ℕ) → length (words_bytes ws) ≡ 8 * length ws
length-words_bytes [] = omega arith
length-words_bytes (w ∷ ws) =
    length-append (word_bytes 8 w) (words_bytes ws)
    ∙ omega (arith, length-word_bytes 8 w, length-words_bytes ws)

pub words_of-words_bytes : (ws : List ℕ) → All IsU64 ws → words_of (length ws) (words_bytes ws) ≡ ws
unfolding words_of
words_of-words_bytes [] h = refl
words_of-words_bytes (w ∷ ws) (h, hs) = rw (
  take-append 8 (word_bytes 8 w) (words_bytes ws) (length-word_bytes 8 w),
  drop-append 8 (word_bytes 8 w) (words_bytes ws) (length-word_bytes 8 w),
  bytes_word-word_bytes 8 w h,
  words_of-words_bytes ws hs,
)

module _ (e : IndexEntryV1) where
  pub length-entry_bytes : length (entry_bytes e) ≡ length e.hash + 25
  length-entry_bytes = simp (length-append, length-word_bytes) (omega arith)

  module _ (n : ℕ) (size : HasSize n e) where
    first_word : IsU64 e.pack_offset → bytes_word (take 8 (drop n (entry_bytes e))) ≡ e.pack_offset
    first_word h =
        ap bytes_word (
          take-drop e.hash (word_bytes 8 e.pack_offset) _ (entry_bytes e) n 8 refl size
            (length-word_bytes 8 e.pack_offset))
        ∙ bytes_word-word_bytes 8 e.pack_offset h

    second_word :
        IsU64 e.stored_size → bytes_word (take 8 (drop (n + 8) (entry_bytes e))) ≡ e.stored_size
    second_word h =
        ap bytes_word (
          take-drop (e.hash ++ word_bytes 8 e.pack_offset) (word_bytes 8 e.stored_size)
            ((e.entry_type ∷ []) ++ word_bytes 8 e.base_offset) (entry_bytes e) (n + 8) 8
            (simp append_assoc) (simp (length-append, length-word_bytes) (omega arith))
            (length-word_bytes 8 e.stored_size))
        ∙ bytes_word-word_bytes 8 e.stored_size h

    type_byte : get_or (drop (n + 8 + 8) (entry_bytes e)) 0 0 ≡ e.entry_type
    type_byte =
        ap (λ l. get_or l 0 0)
          (ap (drop (n + 8 + 8)) regrouped
            ∙ drop-append (n + 8 + 8)
                (e.hash ++ (word_bytes 8 e.pack_offset ++ word_bytes 8 e.stored_size)) _
                (simp (length-append, length-word_bytes) (omega arith)))
      where
        regrouped :
            entry_bytes e
            ≡ (e.hash ++ (word_bytes 8 e.pack_offset ++ word_bytes 8 e.stored_size))
              ++ ((e.entry_type ∷ []) ++ word_bytes 8 e.base_offset)
        regrouped = simp append_assoc

    third_word :
        IsU64 e.base_offset
        → bytes_word (take 8 (drop (n + 8 + 8 + 1) (entry_bytes e))) ≡ e.base_offset
    third_word h =
        ap bytes_word (
          take-drop
            (e.hash
              ++ (word_bytes 8 e.pack_offset
                  ++ (word_bytes 8 e.stored_size ++ (e.entry_type ∷ []))))
            (word_bytes 8 e.base_offset) [] (entry_bytes e) (n + 8 + 8 + 1) 8
            (simp (append_assoc, append-nil))
            (simp (length-append, length-word_bytes) (omega arith))
            (length-word_bytes 8 e.base_offset))
        ∙ bytes_word-word_bytes 8 e.base_offset h

    pub decode_entry-entry_bytes : Fits e → decode_entry n (entry_bytes e) ≡ e
    unfolding decode_entry
    decode_entry-entry_bytes fits = cc (
      take-append n e.hash
          (word_bytes 8 e.pack_offset
            ++ (word_bytes 8 e.stored_size ++ ((e.entry_type ∷ []) ++ word_bytes 8 e.base_offset)))
          size,
      first_word fits.pack_offset,
      second_word fits.stored_size,
      type_byte,
      third_word fits.base_offset,
    )

-- Where the entry with index `i` stands among the bytes of the entries.
pub record Stands (n i : ℕ) (e : IndexEntryV1) (es : List IndexEntryV1) : Type 0 where
  pub front : Bytes
  pub back : Bytes
  pub split : entries_bytes es ≡ front ++ (entry_bytes e ++ back)
  pub front_length : length front ≡ i * (n + 25)

pub head_eq : {x e : IndexEntryV1} → some x ≡ some e → x ≡ e
head_eq p = cc

pub stands :
    (n i : ℕ) (e : IndexEntryV1) (es : List IndexEntryV1)
    → All (HasSize n) es
    → get_elem? es i ≡ some e
    → Stands n i e es
stands n i e [] h p = absurd (cc)
stands n zero e (x ∷ xs) h p = record {
  front = [];
  back = entries_bytes xs;
  split = ap (λ y. entry_bytes y ++ entries_bytes xs) (head_eq p);
  front_length = omega arith;
}
stands n (suc i) e (x ∷ xs) (h, hs) p =
    let later = stands n i e xs hs p in
    record {
      front = entry_bytes x ++ later.front;
      back = later.back;
      split =
          ap (λ l. entry_bytes x ++ l) later.split
          ∙ sym (append_assoc (entry_bytes x) later.front (entry_bytes e ++ later.back));
      front_length =
          length-append (entry_bytes x) later.front
          ∙ omega (arith, length-entry_bytes x, later.front_length);
    }
