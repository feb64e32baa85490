-- ===== src/Archive/Data/ReadBack.antt =====
-- `read_entry` on the bytes of one entry, whatever follows them.
use madder.Common.{◌+◌, ◌≡◌, refl, sym, ap, ◌∙◌, arith, [], ◌∷◌, ◌++◌, append_assoc}
use madder.Common.{length, length-append, if◌then◌else◌, eq→==, ne→==}
use madder.Common.Bytes.{Bytes}
use madder.Common.BigEndian.{word_bytes, length-word_bytes}
use madder.Archive.Types.{ok, DataEntryV1, IsU64, byte_to_compression_ref}
use madder.Archive.Types.{entry_type_full, entry_type_delta}
use madder.Archive.Data.Codec.{Plugins, restore}
use madder.Archive.Data.Cursor.{Cursor}
use madder.Archive.Data.Reader.{DataReaderV1, read_entry, read_entry_body, read_full_entry_body}
use madder.Archive.Data.Reader.{read_delta_entry_body, codec_result}
use madder.Archive.Data.Steps.{moved, read_full-then, reading-then, read_word-then, lift-then}
use madder.Archive.Data.Entry.{full_bytes, delta_bytes}

-- An entry whose payload `stored` stands for `plain`, as the reader `dr` takes it.
pub record IsStored (plugins : Plugins) (dr : DataReaderV1) (e : DataEntryV1) (plain stored : Bytes)
    : Type 0 where
  pub hash_length : length e.hash ≡ dr.hash_size
  pub ref : Bytes
  pub encoded : byte_to_compression_ref e.encoding ≡ ok ref
  pub restored : restore plugins dr.encryption ref stored ≡ ok plain
  pub logical_small : IsU64 e.logical_size
  pub stored_length : e.stored_size ≡ length stored
  pub stored_small : IsU64 e.stored_size

full_bytes-append :
    (e : DataEntryV1) (stored more : Bytes)
    → full_bytes e stored ++ more
      ≡ e.hash
        ++ ((e.entry_type ∷ [])
            ++ ((e.encoding ∷ [])
                ++ (word_bytes 8 e.logical_size
                    ++ (word_bytes 8 e.stored_size ++ (stored ++ more)))))
full_bytes-append e stored more = simp append_assoc

delta_bytes-append :
    (e : DataEntryV1) (stored more : Bytes)
    → delta_bytes e stored ++ more
      ≡ e.hash
        ++ ((e.entry_type ∷ [])
            ++ ((e.encoding ∷ [])
                ++ ((e.delta_algorithm ∷ [])
                    ++ (e.base_hash
                        ++ (word_bytes 8 e.logical_size
                            ++ (word_bytes 8 e.stored_size ++ (stored ++ more)))))))
delta_bytes-append e stored more = simp append_assoc

-- The switch on the entry's type.
module _ (plugins : Plugins) (dr : DataReaderV1) (entry : DataEntryV1) (ref : Bytes)
    (c : Cursor) where
  read_entry_body-full :
      entry.entry_type ≡ entry_type_full
      → read_entry_body plugins dr entry ref c ≡ read_full_entry_body plugins dr entry ref c
  unfolding read_entry_body
  read_entry_body-full h = rw (eq→== entry.entry_type 0 h, if◌then◌else◌)

  read_entry_body-delta :
      entry.entry_type ≡ entry_type_delta
      → read_entry_body plugins dr entry ref c ≡ read_delta_entry_body plugins dr entry ref c
  unfolding read_entry_body
  read_entry_body-delta h = rw (
    ne→== entry.entry_type 0 (λ z. absurd (omega arith)),
    eq→== entry.entry_type 1 h,
    if◌then◌else◌,
  )

module _ (plugins : Plugins) (dr : DataReaderV1) (e : DataEntryV1) (plain stored : Bytes)
    (v : IsStored plugins dr e plain stored) where
  read_full_entry_body-bytes :
      (blank : DataEntryV1) (c : Cursor) (more : Bytes)
      → c.rest ≡ word_bytes 8 e.logical_size ++ (word_bytes 8 e.stored_size ++ (stored ++ more))
      → read_full_entry_body plugins dr blank v.ref c
        ≡ ok (
          record blank {
            logical_size = e.logical_size;
            stored_size = e.stored_size;
            contents = plain;
          },
          moved c (8 + 8 + e.stored_size) more,
        )
  unfolding read_full_entry_body
  read_full_entry_body-bytes blank c more r =
      read_word-then c 8 e.logical_size _ r v.logical_small _
      ∙ read_word-then (moved c 8 (word_bytes 8 e.stored_size ++ (stored ++ more))) 8 e.stored_size
          (stored ++ more) refl v.stored_small _
      ∙ reading-then
          (moved (moved c 8 (word_bytes 8 e.stored_size ++ (stored ++ more))) 8 (stored ++ more))
          e.stored_size stored more refl (sym v.stored_length) _
      ∙ lift-then (codec_result (restore plugins dr.encryption v.ref stored)) _ _
          (ap codec_result v.restored)
      ∙ ap
          (λ p. ok (
            record blank {
              logical_size = e.logical_size;
              stored_size = e.stored_size;
              contents = plain;
            },
            record { file = c.file; pos = p; rest = more },
          ))
          (omega arith)

  read_delta_entry_body-bytes :
      (blank : DataEntryV1) (c : Cursor) (more : Bytes)
      → length e.base_hash ≡ dr.hash_size
      → c.rest
        ≡ (e.delta_algorithm ∷ [])
          ++ (e.base_hash
              ++ (word_bytes 8 e.logical_size ++ (word_bytes 8 e.stored_size ++ (stored ++ more))))
      → read_delta_entry_body plugins dr blank v.ref c
        ≡ ok (
          record blank {
            delta_algorithm = e.delta_algorithm;
            base_hash = e.base_hash;
            logical_size = e.logical_size;
            stored_size = e.stored_size;
            contents = plain;
          },
          moved c (1 + dr.hash_size + 8 + 8 + e.stored_size) more,
        )
  unfolding read_delta_entry_body
  read_delta_entry_body-bytes blank c more hb r =
      reading-then c 1 (e.delta_algorithm ∷ [])
        (e.base_hash
          ++ (word_bytes 8 e.logical_size ++ (word_bytes 8 e.stored_size ++ (stored ++ more))))
        r refl _
      ∙ reading-then _ dr.hash_size e.base_hash
          (word_bytes 8 e.logical_size ++ (word_bytes 8 e.stored_size ++ (stored ++ more))) refl hb
          _
      ∙ read_word-then _ 8 e.logical_size (word_bytes 8 e.stored_size ++ (stored ++ more)) refl
          v.logical_small _
      ∙ read_word-then _ 8 e.stored_size (stored ++ more) refl v.stored_small _
      ∙ reading-then _ e.stored_size stored more refl (sym v.stored_length) _
      ∙ lift-then (codec_result (restore plugins dr.encryption v.ref stored)) _ _
          (ap codec_result v.restored)
      ∙ ap
          (λ p. ok (
            record blank {
              delta_algorithm = e.delta_algorithm;
              base_hash = e.base_hash;
              logical_size = e.logical_size;
              stored_size = e.stored_size;
              contents = plain;
            },
            record { file = c.file; pos = p; rest = more },
          ))
          (omega arith)

  module _ (c : Cursor) (here : e.offset ≡ c.pos) where
    -- The part of an entry that is read before its type decides how to go on.
    blank_entry : DataEntryV1
    blank_entry = record {
      hash = e.hash;
      entry_type = e.entry_type;
      encoding = e.encoding;
      logical_size = 0;
      stored_size = 0;
      contents = [];
      offset = c.pos;
      delta_algorithm = 0;
      base_hash = [];
    }

    read_entry-front :
        (body : Bytes)
        → c.rest ≡ e.hash ++ ((e.entry_type ∷ []) ++ ((e.encoding ∷ []) ++ body))
        → read_entry plugins dr c
          ≡ read_entry_body plugins dr blank_entry v.ref (moved c (dr.hash_size + 1 + 1) body)
    unfolding read_entry blank_entry
    read_entry-front body r =
        read_full-then c dr.hash_size e.hash ((e.entry_type ∷ []) ++ ((e.encoding ∷ []) ++ body)) r
          v.hash_length _
        ∙ reading-then _ 1 (e.entry_type ∷ []) ((e.encoding ∷ []) ++ body) refl refl _
        ∙ reading-then _ 1 (e.encoding ∷ []) body refl refl _
        ∙ lift-then (byte_to_compression_ref e.encoding) _ _ v.encoded
        ∙ ap
            (λ p.
              read_entry_body plugins dr blank_entry v.ref
                (record { file = c.file; pos = p; rest = body }))
            (omega arith)

    full_entry :
        e.delta_algorithm ≡ 0
        → e.base_hash ≡ []
        → record blank_entry {
          logical_size = e.logical_size;
          stored_size = e.stored_size;
          contents = plain;
        }
          ≡ record e { contents = plain }
    unfolding blank_entry
    full_entry p q = cc

    delta_entry :
        record blank_entry {
          delta_algorithm = e.delta_algorithm;
          base_hash = e.base_hash;
          logical_size = e.logical_size;
          stored_size = e.stored_size;
          contents = plain;
        }
        ≡ record e { contents = plain }
    unfolding blank_entry
    delta_entry = cc

    full_end :
        (more : Bytes)
        → moved
            (moved c
              (dr.hash_size + 1 + 1)
              (word_bytes 8 e.logical_size ++ (word_bytes 8 e.stored_size ++ (stored ++ more))))
            (8 + 8 + e.stored_size)
            more
          ≡ moved c (length (full_bytes e stored)) more
    full_end more =
        ap (λ p. record { file = c.file; pos = p; rest = more })
          (simp (length-append, length-word_bytes) (omega (arith, v.hash_length, v.stored_length)))

    delta_end :
        (more : Bytes)
        → length e.base_hash ≡ dr.hash_size
        → moved
            (moved c (dr.hash_size + 1 + 1) (
              (e.delta_algorithm ∷ [])
              ++ (e.base_hash
                  ++ (word_bytes 8 e.logical_size
                      ++ (word_bytes 8 e.stored_size ++ (stored ++ more))))))
            (1 + dr.hash_size + 8 + 8 + e.stored_size)
            more
          ≡ moved c (length (delta_bytes e stored)) more
    delta_end more hb =
        ap (λ p. record { file = c.file; pos = p; rest = more })
          (simp (length-append, length-word_bytes) (omega (arith, v.hash_length, v.stored_length)))

    blank_type : blank_entry.entry_type ≡ e.entry_type
    unfolding blank_entry
    blank_type = refl

    -- A whole entry is read back, with its contents.
    pub read_entry-full_bytes :
        (more : Bytes)
        → e.entry_type ≡ entry_type_full
        → e.delta_algorithm ≡ 0
        → e.base_hash ≡ []
        → c.rest ≡ full_bytes e stored ++ more
        → read_entry plugins dr c
          ≡ ok (record e { contents = plain }, moved c (length (full_bytes e stored)) more)
    read_entry-full_bytes more full none_used none_based r =
        read_entry-front
          (word_bytes 8 e.logical_size ++ (word_bytes 8 e.stored_size ++ (stored ++ more)))
          (r ∙ full_bytes-append e stored more)
        ∙ read_entry_body-full plugins dr blank_entry v.ref _ (blank_type ∙ full)
        ∙ read_full_entry_body-bytes blank_entry _ more refl
        ∙ (λ i. ok (full_entry none_used none_based i, full_end more i))

    -- A delta is read back, with its payload.
    pub read_entry-delta_bytes :
        (more : Bytes)
        → e.entry_type ≡ entry_type_delta
        → length e.base_hash ≡ dr.hash_size
        → c.rest ≡ delta_bytes e stored ++ more
        → read_entry plugins dr c
          ≡ ok (record e { contents = plain }, moved c (length (delta_bytes e stored)) more)
    read_entry-delta_bytes more delta hb r =
        read_entry-front _ (r ∙ delta_bytes-append e stored more)
        ∙ read_entry_body-delta plugins dr blank_entry v.ref _ (blank_type ∙ delta)
        ∙ read_delta_entry_body-bytes blank_entry _ more hb refl
        ∙ (λ i. ok (delta_entry i, delta_end more hb i))
