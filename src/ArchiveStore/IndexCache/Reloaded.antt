-- ===== src/ArchiveStore/IndexCache/Reloaded.antt =====
-- A store opened again: its index from the cache is the index that was written.
use madder.Common.{ℕ, ◌^◌, ◌<◌, ◌≡◌, refl, sym, ap, ◌∙◌}
use madder.Common.{List, [], ◌∷◌, length, All, none, some}
use mathlib.Core.Path.{subst}
use madder.Common.Bytes.{Bytes}
use madder.Common.Tables.{Table, lookup}
use madder.Common.Tables.Last.{lookup-insert_all}
use madder.Archive.Types.{Result, ok, ◌>>=◌, guard, bind-ok, CacheEntryV1, IsU64}
use madder.Archive.Types.{hash_size_for_format, file_failed}
use madder.Archive.Stream.{Sink}
use madder.Archive.Cache.Writer.{write_cache_v1}
use madder.Archive.Cache.Reader.{new_cache_reader_v1, read_all_entries}
use madder.Archive.Cache.Written.{Fits}
use madder.Archive.Cache.EndToEnd.{read_all_entries-write_cache_v1, write_cache_v1-IsSorted}
use madder.ArchiveStore.Types.{StoreConfig, ArchiveEntryV1}
use madder.ArchiveStore.IndexCache.{
  IndexFile, CacheDisk, archive_entry_of, fill_index, sort_cache, try_read_cache, collect_entries,
  unless_failed, or_rebuild, write_cache_file, finish_rebuild, rebuild_index, load_index,
}
use madder.ArchiveStore.IndexCache.Sorting.{
  AllApart, All-sort_cache, sort_cache-IsSorted_iff, length-sort_cache, found_in,
  found_in-sort_cache,
}

abbrev cache_sink : CacheDisk → Sink
cache_sink disk = record { written = []; hashed = []; room = disk.room }

pub lookup-fill_index :
    (k : Bytes) (es : List CacheEntryV1) → lookup k (fill_index es) ≡ found_in k es none
unfolding fill_index lookup
lookup-fill_index k es = lookup-insert_all (λ (e : CacheEntryV1). e.hash) archive_entry_of k es []

-- Filled in the order of the cache, the index answers alike.
lookup-fill_index-sort_cache :
    (k : Bytes) (es : List CacheEntryV1)
    → AllApart es
    → lookup k (fill_index (sort_cache es)) ≡ lookup k (fill_index es)
lookup-fill_index-sort_cache k es apart =
    lookup-fill_index k (sort_cache es)
    ∙ found_in-sort_cache k es none apart
    ∙ sym (lookup-fill_index k es)

module _ (config : StoreConfig) (disk : CacheDisk) (n : ℕ)
    (sized : hash_size_for_format config.hash_format ≡ ok n) (es : List CacheEntryV1) where
  -- The write behind a cache file.
  record Written (file : Bytes) : Type 0 where
    pub checksum : Bytes
    pub sink : Sink
    pub wrote :
        write_cache_v1 config.digest config.hash_format (sort_cache es) (cache_sink disk)
        ≡ ok (checksum, sink)
    pub left : sink.written ≡ file

  written_of : {file : Bytes} → write_cache_file config disk es ≡ ok file → Written file
  unfolding write_cache_file
  written_of h =
      let (_, _, h₁) = bind-ok (guard disk.makes_directory file_failed) _ h in
      let (_, _, h₂) = bind-ok (guard disk.creates_file file_failed) _ h₁ in
      let (out, wrote, h₃) = bind-ok (write_cache_v1 config.digest config.hash_format _ _) _ h₂ in
      let (_, _, h₄) = bind-ok (guard disk.closes_file file_failed) _ h₃ in
      record { checksum = out.0; sink = out.1; wrote = wrote; left = ok_inj h₄ }
    where
      ok_inj : {x y : Bytes} → ok x ≡ ok y → x ≡ y
      ok_inj e = cc

  -- A cache file is written only for entries of different blobs.
  pub write_cache_file-AllApart :
      {file : Bytes} → write_cache_file config disk es ≡ ok file → AllApart es
  write_cache_file-AllApart h =
      let w = written_of h in
      (sort_cache-IsSorted_iff es).0
        (write_cache_v1-IsSorted config.digest config.hash_format n (sort_cache es)
          (cache_sink disk) sized w.wrote).0

  module _ (fits : All Fits es) (few : IsU64 (length es)) where
    -- A cache file that was written is read again.
    try_read_cache-write_cache_file :
        {file : Bytes}
        → write_cache_file config disk es ≡ ok file
        → length file < 2 ^ 63
        → try_read_cache config (some file) ≡ some (sort_cache es)
    unfolding try_read_cache
    try_read_cache-write_cache_file {file} h small =
        let w = written_of h in
        let small' : length w.sink.written < 2 ^ 63 = rw w.left small in
        ap unless_failed (
          sym (
            ap (λ f. new_cache_reader_v1 f (length f) config.hash_format >>= read_all_entries)
              w.left)
          ∙ read_all_entries-write_cache_v1 config.digest config.hash_format n (sort_cache es)
              (cache_sink disk) w.sink w.checksum sized ((All-sort_cache Fits es).1 fits)
              (rw (length-sort_cache es) few) refl w.wrote small')

-- A store that is opened from a cache has a lookup for each key.
abbrev pub SameLookups : Table ArchiveEntryV1 → Table ArchiveEntryV1 → Type 0
SameLookups t u = (k : Bytes) → lookup k t ≡ lookup k u

-- What a store that is opened with a cache file comes by.
pub record Reopens (config : StoreConfig) (file : Bytes) (index : Table ArchiveEntryV1)
    : Type 0 where
  pub loaded : Table ArchiveEntryV1
  pub loads :
      (disk : CacheDisk) (matches : Result (List IndexFile))
      → load_index config disk (some file) matches ≡ ok (loaded, some file)
  pub alike : SameLookups loaded index

module _ (config : StoreConfig) (disk : CacheDisk) (n : ℕ)
    (sized : hash_size_for_format config.hash_format ≡ ok n) (es : List CacheEntryV1)
    (fits : All Fits es) (few : IsU64 (length es)) {file : Bytes}
    (wrote : write_cache_file config disk es ≡ ok file) (small : length file < 2 ^ 63) where
  pub Reopens-filled : Reopens config file (fill_index es)
  Reopens-filled = record {
    loaded = fill_index (sort_cache es);
    loads = λ disk' matches. loads disk' matches;
    alike = λ k.
        lookup-fill_index-sort_cache k es (write_cache_file-AllApart config disk n sized es wrote);
  }
    where
      loads :
          (disk' : CacheDisk) (matches : Result (List IndexFile))
          → load_index config disk' (some file) matches ≡ ok (fill_index (sort_cache es), some file)
      loads disk' matches =
          unfold load_index in
          ap (or_rebuild config (rebuild_index config disk' matches) (some file))
            (try_read_cache-write_cache_file config disk n sized es fits few wrote small)

-- rebuildIndex, by the entries that it found.
module _ (config : StoreConfig) (disk : CacheDisk) (n : ℕ)
    (sized : hash_size_for_format config.hash_format ≡ ok n) (matches : Result (List IndexFile))
    (es : List CacheEntryV1) (found : matches >>= collect_entries config ≡ ok es) where
  pub rebuilt : rebuild_index config disk matches ≡ finish_rebuild config disk es
  unfolding rebuild_index
  rebuilt = rw found

  finish_rebuild-ok :
      (l : List CacheEntryV1) {index : Table ArchiveEntryV1} {file : Bytes}
      → finish_rebuild config disk l ≡ ok (index, some file)
      → (index ≡ fill_index l) × (write_cache_file config disk l ≡ ok file)
  unfolding finish_rebuild
  finish_rebuild-ok [] h = cc
  finish_rebuild-ok (e ∷ l) h =
      let (f, wrote, k) = bind-ok (write_cache_file config disk (e ∷ l)) _ h in (cc, wrote ∙ cc)

  -- When rebuildIndex has read the index files and written the cache, a store that is opened with that
  -- cache file, whatever the index files then are, has the index that rebuildIndex made: each key has
  -- the same entry or none. The numbers of the entries are within the ranges of Go's types and the
  -- cache file is shorter than 2^63 bytes.
  pub load_index-rebuild_index :
      All Fits es
      → IsU64 (length es)
      → {index : Table ArchiveEntryV1} {file : Bytes}
      → rebuild_index config disk matches ≡ ok (index, some file)
      → length file < 2 ^ 63
      → Reopens config file index
  load_index-rebuild_index fits few {index} {file} h small =
      let (same_index, wrote) = finish_rebuild-ok es (sym rebuilt ∙ h) in
      subst (Reopens config file) (sym same_index)
        (Reopens-filled config disk n sized es fits few wrote small)
