-- ===== src/Archive/Data/Chain.antt =====
-- The entries of an archive one behind the other, and the loop that reads them.
use madder.Common.{ℕ, zero, suc, ◌+◌, ◌^◌, ◌≤◌, ◌<◌, ◌≡◌, refl, sym, ap, ◌∙◌, arith}
use madder.Common.{
  List, [], ◌∷◌, ◌++◌, append_assoc, append-nil, length, length-append, drop-append, drop,
}
use madder.Common.{le→leb, lt→leb, get_elem?, some, if◌then◌else◌}
use madder.Common.Bytes.{Bytes}
use mathlib.Core.Path.{subst}
use madder.Archive.Types.{ok, DataEntryV1}
use madder.Archive.Data.Codec.{Plugins}
use madder.Archive.Data.Cursor.{Cursor, seek, bind_ok}
use madder.Archive.Data.Reader.{
  DataReaderV1, read_entry, read_loop, read_all_entries, read_entry_at,
}
use madder.Archive.Data.Reader.{after_entry}

module _ (plugins : Plugins) (dr : DataReaderV1) where
  -- At `pos` these bytes are read as this entry, whatever follows.
  abbrev pub ReadsAs : ℕ → DataEntryV1 → Bytes → Type 0
  ReadsAs pos e image =
      (file more : Bytes)
      → read_entry plugins dr (record { file = file; pos = pos; rest = image ++ more })
        ≡ ok (e, record { file = file; pos = pos + length image; rest = more })

  -- From `pos` on these bytes are read as these entries.
  pub data Chain : ℕ → List DataEntryV1 → Bytes → Type 0 where
    done : {pos : ℕ} → Chain pos [] []
    next :
        {pos : ℕ} {e : DataEntryV1} {es : List DataEntryV1} {bytes : Bytes} (image rest : Bytes)
        → ReadsAs pos e image
        → e.offset ≡ pos
        → 0 < length image
        → bytes ≡ image ++ rest
        → Chain (pos + length image) es rest
        → Chain pos (e ∷ es) bytes

-- One round of the loop.
module _ (plugins : Plugins) (dr : DataReaderV1) (fuel entries_end : ℕ) (c : Cursor) where
  read_loop_end : entries_end ≤ c.pos → read_loop plugins dr (suc fuel) entries_end c ≡ ok []
  unfolding read_loop
  read_loop_end h = rw (read_loop, le→leb entries_end c.pos h)

  read_loop_entry :
      {e : DataEntryV1} {es : List DataEntryV1} {c' : Cursor}
      → c.pos < entries_end
      → read_entry plugins dr c ≡ ok (e, c')
      → read_loop plugins dr fuel entries_end c' ≡ ok es
      → read_loop plugins dr (suc fuel) entries_end c ≡ ok (e ∷ es)
  unfolding read_loop
  read_loop_entry h r later = rw (read_loop, lt→leb entries_end c.pos h, r, after_entry, later)

module _ {plugins : Plugins} {dr : DataReaderV1} where
  pub snoc :
      {pos : ℕ} {es : List DataEntryV1} {bytes : Bytes} (e : DataEntryV1) (image : Bytes)
      → Chain plugins dr pos es bytes
      → ReadsAs plugins dr (pos + length bytes) e image
      → e.offset ≡ pos + length bytes
      → 0 < length image
      → Chain plugins dr pos (es ++ (e ∷ [])) (bytes ++ image)
  snoc {pos} e image done reads at pos_image =
      next image [] (subst (λ p. ReadsAs plugins dr p e image) (omega arith) reads) (omega arith)
        pos_image (sym (append-nil image)) done
  snoc {pos} e image (next {bytes = bytes} first rest r o n split later) reads at pos_image =
      next first (rest ++ image) r o n (ap (λ b. b ++ image) split ∙ append_assoc first rest image)
        (snoc e image later
          (subst (λ p. ReadsAs plugins dr p e image)
            (omega (arith, ap (length {A = ℕ}) split, length-append first rest)) reads)
          (omega (arith, ap (length {A = ℕ}) split, length-append first rest)) pos_image)

  pub length-le :
      {pos : ℕ} {es : List DataEntryV1} {bytes : Bytes}
      → Chain plugins dr pos es bytes
      → length es ≤ length bytes
  length-le done = omega arith
  length-le (next image rest r o n split later) =
      omega (arith, ap (length {A = ℕ}) split, length-append image rest, length-le later)

  -- The loop reads the chain, and stops at its end.
  pub read_loop-Chain :
      (fuel entries_end : ℕ) (file footer : Bytes) {pos : ℕ} {es : List DataEntryV1} {bytes : Bytes}
      → Chain plugins dr pos es bytes
      → length es < fuel
      → entries_end ≡ pos + length bytes
      → read_loop plugins dr fuel entries_end
          (record { file = file; pos = pos; rest = bytes ++ footer })
        ≡ ok es
  read_loop-Chain zero entries_end file footer chain few at_end = absurd (omega arith)
  read_loop-Chain (suc fuel) entries_end file footer {pos} done few at_end =
      read_loop_end plugins dr fuel entries_end (record { file = file; pos = pos; rest = footer })
        (omega arith)
  read_loop-Chain (suc fuel) entries_end file footer {pos}
        (next {e = e} {bytes = bytes} image rest r o n split later) few at_end =
      read_loop_entry plugins dr fuel entries_end
        (record { file = file; pos = pos; rest = bytes ++ footer }) (omega (arith, lengths))
        (ap (λ b. read_entry plugins dr (record { file = file; pos = pos; rest = b })) regroup
          ∙ r file (rest ++ footer))
        (read_loop-Chain fuel entries_end file footer later (omega arith) (omega (arith, lengths)))
    where
      regroup : bytes ++ footer ≡ image ++ (rest ++ footer)
      regroup = ap (λ b. b ++ footer) split ∙ append_assoc image rest footer

      lengths : length bytes ≡ length image + length rest
      lengths = ap (length {A = ℕ}) split ∙ length-append image rest

-- Where an entry of a chain stands.
pub record Placed (plugins : Plugins) (dr : DataReaderV1) (start : ℕ) (e : DataEntryV1)
    (bytes : Bytes) : Type 0 where
  pub front : Bytes
  pub image : Bytes
  pub back : Bytes
  pub split : bytes ≡ front ++ (image ++ back)
  pub at : e.offset ≡ start + length front
  pub reads : ReadsAs plugins dr (start + length front) e image

module _ {plugins : Plugins} {dr : DataReaderV1} where
  pub placed :
      (i : ℕ) {start : ℕ} {es : List DataEntryV1} {bytes : Bytes} {e : DataEntryV1}
      → Chain plugins dr start es bytes
      → get_elem? es i ≡ some e
      → Placed plugins dr start e bytes
  placed i done p = absurd (cc)
  placed zero {start} {e = e} (next {e = x} image rest r o n split later) p = record {
    front = [];
    image = image;
    back = rest;
    split = split;
    at = sym (ap (λ (y : DataEntryV1). y.offset) (same p)) ∙ o ∙ omega arith;
    reads =
        subst (λ y. ReadsAs plugins dr (start + 0) y image) (same p)
          (subst (λ q. ReadsAs plugins dr q x image) (omega arith) r);
  }
    where
      same : some x ≡ some e → x ≡ e
      same q = cc
  placed (suc i) {start} {e = e} (next image rest r o n split later) p =
      let there = placed i later p in
      let further : start + length image + length there.front
          ≡ start + length (image ++ there.front) =
        omega (arith, length-append image there.front) in
      record {
        front = image ++ there.front;
        image = there.image;
        back = there.back;
        split =
            split
            ∙ ap (λ l. image ++ l) there.split
            ∙ sym (append_assoc image there.front (there.image ++ there.back));
        at = there.at ∙ further;
        reads = subst (λ q. ReadsAs plugins dr q e there.image) further there.reads;
      }

regroup :
    (head front image back footer : Bytes)
    → head ++ ((front ++ (image ++ back)) ++ footer)
      ≡ (head ++ front) ++ (image ++ (back ++ footer))
regroup head front image back footer = simp append_assoc

-- A whole archive file: a header, a chain of entries and a footer.
module _ (plugins : Plugins) (dr : DataReaderV1) (head bytes footer : Bytes) (es : List DataEntryV1)
    (chain : Chain plugins dr (length head) es bytes) (start : dr.data_start ≡ length head)
    (end : length footer ≡ 8 + dr.hash_size)
    (small : length (head ++ (bytes ++ footer)) < 2 ^ 63) where
  file_length : length (head ++ (bytes ++ footer)) ≡ length head + length bytes + length footer
  file_length = length-append head (bytes ++ footer) ∙ omega (arith, length-append bytes footer)

  seek_to :
      (c : Cursor) (front back : Bytes) (off : ℕ)
      → c.file ≡ front ++ back
      → length front ≡ off
      → off < 2 ^ 63
      → seek off c ≡ ok (tt, record { file = c.file; pos = off; rest = back })
  unfolding seek
  seek_to c front back off e h s =
      rw (lt→leb (2 ^ 63) off s, if◌then◌else◌)
        (ap (λ b. ok (tt, record { file = c.file; pos = off; rest = b }))
          (ap (drop off) e ∙ drop-append off front back h))

  pub read_all_entries-Chain :
      (c : Cursor) → c.file ≡ head ++ (bytes ++ footer) → read_all_entries plugins dr c ≡ ok es
  unfolding read_all_entries
  read_all_entries-Chain c e =
      rw
        (
          read_all_entries,
          seek_to c head (bytes ++ footer) dr.data_start e (sym start) (omega (arith, file_length)),
        )
        (read_loop-Chain _ _ c.file footer
          (subst (λ q. Chain plugins dr q es bytes) (sym start) chain)
          (omega (arith, length-le chain, file_length, ap (length {A = ℕ}) e))
          (omega (arith, file_length, ap (length {A = ℕ}) e)))

  pub read_entry_at-Chain :
      (c : Cursor) (i : ℕ) {e : DataEntryV1}
      → c.file ≡ head ++ (bytes ++ footer)
      → get_elem? es i ≡ some e
      → (c' : Cursor) × (read_entry_at plugins dr e.offset c ≡ ok (e, c')) × (c'.file ≡ c.file)
  unfolding read_entry_at
  read_entry_at-Chain c i {e} f p =
      let there = placed i chain p in
      let whole : length (head ++ there.front) ≡ e.offset =
        length-append head there.front ∙ sym there.at in
      (
        _,
        bind_ok (seek e.offset) (λ _. read_entry plugins dr) c
              (seek_to c (head ++ there.front) (there.image ++ (there.back ++ footer)) e.offset
                (f
                  ∙ ap (λ b. head ++ (b ++ footer)) there.split
                  ∙ regroup head there.front there.image there.back footer)
                whole
                (omega (
                  arith,
                  file_length,
                  there.at,
                  ap (length {A = ℕ}) there.split,
                  length-append there.front (there.image ++ there.back),
                )))
            ∙ ap
                (λ q.
                  read_entry plugins dr (record {
                    file = c.file;
                    pos = q;
                    rest = there.image ++ (there.back ++ footer);
                  }))
                there.at
            ∙ there.reads c.file (there.back ++ footer),
        refl,
      )
