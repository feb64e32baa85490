-- ===== src/ArchiveStore/Behind.antt =====
-- What stands behind each single blob that Pack deletes.
use madder.Common.{ℕ, suc, ◌≡◌, refl, sym, ap, ◌∙◌, List, [], ◌∷◌, join, length}
use madder.Common.{Bool, true, false, if◌then◌else◌, ◌⊎◌, inl, inr}
use madder.Common.Bytes.{Bytes}
use madder.Archive.Types.{Result, ok, err, ◌>>=◌, ◌>>◌, Error, bind-ok}
use madder.ArchiveStore.Types.{StoreConfig, InventoryArchiveV1, PackedBlob, PackedBlobMeta}
use madder.ArchiveStore.Packer.{Packed, pack_chunk_archive_v1}
use madder.ArchiveStore.Split.{split_blob_chunks, join-split_blob_chunks}
use madder.ArchiveStore.Validator.{validate_archive_v1}
use madder.ArchiveStore.Collect.{
  packing, validating, PackOptions, Loose, poll_context, collect_blob_metas_parallel,
}
use madder.ArchiveStore.Pack.{
  Files, ChunkResult, PackState, load_blobs, pack_chunks, pack_loaded, after_chunk, add_result,
  validate_results, max_size, pack,
}
use madder.ArchiveStore.Deletes.{pack-Validated}
use mathlib.Core.List.{Memᴰ}
use mathlib.Core.List.Memᴰ
use mathlib.Core.Path.{subst}

module _ {A : Type 0} where
  ok_inj : {x y : A} → ok x ≡ ok y → x ≡ y
  ok_inj h = cc

  Mem-join : {x : A} (ls : List (List A)) → Memᴰ x (join ls) → (l : List A) × Memᴰ l ls × Memᴰ x l
  Mem-join [] k = absurd (Memᴰ.not-nil k)
  Mem-join (l ∷ ls) k = elim (Memᴰ.append_cases l k) [
    | inl here ↦ (l, Memᴰ.head refl, here)
    | inr there ↦ let (m, found, k') = Mem-join ls there in (m, Memᴰ.tail found, k')
  ]

abbrev blob_of : PackedBlobMeta → Bytes → PackedBlob
blob_of m contents = record { digest = m.digest; contents = contents }

module _ (options : PackOptions) (loose : Loose) where
  -- A blob that was passed over since it could not be read.
  pub record Skipped (m : PackedBlobMeta) : Type 0 where
    pub allowed : options.skip_missing_blobs ≡ true
    pub error : Error
    pub fails : loose.read_blob m.digest ≡ err error

  -- A blob that is one of those that were read for a chunk.
  pub record Loaded (m : PackedBlobMeta) (blobs : List PackedBlob) : Type 0 where
    pub contents : Bytes
    pub reads : loose.read_blob m.digest ≡ ok contents
    pub among : Memᴰ (blob_of m contents) blobs

  load_blobs-Loaded :
      {m : PackedBlobMeta} {blobs : List PackedBlob} (metas : List PackedBlobMeta)
      → load_blobs options.skip_missing_blobs loose metas ≡ ok blobs
      → Memᴰ m metas
      → Skipped m ⊎ Loaded m blobs
  unfolding load_blobs
  load_blobs-Loaded [] h k = absurd (Memᴰ.not-nil k)
  load_blobs-Loaded {m} {blobs} (x ∷ metas) h k =
      go (loose.read_blob x.digest) options.skip_missing_blobs refl refl h (Memᴰ.cases_cons k)
        (λ bs q. load_blobs-Loaded metas q)
    where
      read_as :
          {r : Result Bytes} → m ≡ x → loose.read_blob x.digest ≡ r → loose.read_blob m.digest ≡ r
      read_as e q = ap (λ (y : PackedBlobMeta). loose.read_blob y.digest) e ∙ q

      later :
          {bs : List PackedBlob} {c : Bytes}
          → blob_of x c ∷ bs ≡ blobs
          → Loaded m bs
          → Loaded m blobs
      later e l = record {
        contents = l.contents;
        reads = l.reads;
        among = subst (Memᴰ (blob_of m l.contents)) e (Memᴰ.tail l.among);
      }

      go :
          (r : Result Bytes) (skip : Bool)
          → loose.read_blob x.digest ≡ r
          → options.skip_missing_blobs ≡ skip
          → elim r [
            | ok contents ↦ load_blobs options.skip_missing_blobs loose metas >>= λ bs.
                ok (blob_of x contents ∷ bs)
            | err e ↦ if skip then load_blobs options.skip_missing_blobs loose metas else err e
          ]
            ≡ ok blobs
          → (m ≡ x) ⊎ Memᴰ m metas
          → ((bs : List PackedBlob)
              → load_blobs options.skip_missing_blobs loose metas ≡ ok bs
              → Memᴰ m metas
              → Skipped m ⊎ Loaded m bs)
          → Skipped m ⊎ Loaded m blobs
      go (err e) false q s h k rest = absurd (cc h)
      go (err e) true q s h (inl same) rest =
          inl (record { allowed = s; error = e; fails = read_as same q })
      go (err e) true q s h (inr k) rest = rest blobs h k
      go (ok c) skip q s h (inl same) rest =
          let (bs, loaded, cons) =
            bind-ok (load_blobs options.skip_missing_blobs loose metas) _ h in
          inr (record {
            contents = c;
            reads = read_as same q;
            among =
                subst (Memᴰ (blob_of m c)) (ok_inj cons)
                  (Memᴰ.head (ap (λ (y : PackedBlobMeta). blob_of y c) same));
          })
      go (ok c) skip q s h (inr k) rest =
          let (bs, loaded, cons) =
            bind-ok (load_blobs options.skip_missing_blobs loose metas) _ h in
          elim (rest bs loaded k) [
            | inl skipped ↦ inl skipped
            | inr l ↦ inr (later (ok_inj cons) l)
          ]

module _ (config : StoreConfig) (files : Files) (options : PackOptions) (loose : Loose) where
  -- A blob that was read for a chunk and given, with the others, to the packing of its archive.
  pub record Archived (results : List ChunkResult) (m : PackedBlobMeta) : Type 0 where
    pub result : ChunkResult
    pub among : Memᴰ result results
    pub blobs : List PackedBlob
    pub loads : load_blobs options.skip_missing_blobs loose result.metas ≡ ok blobs
    pub holds : Loaded options loose m blobs
    pub number : ℕ
    pub before : InventoryArchiveV1
    pub after : InventoryArchiveV1
    pub packed : Packed
    pub packs : pack_chunk_archive_v1 config (files.disks number) before blobs ≡ (after, ok packed)
    pub named : result.checksum ≡ packed.checksum

  Archived-later :
      (r : ChunkResult) {results all : List ChunkResult} {m : PackedBlobMeta}
      → r ∷ results ≡ all
      → Archived results m
      → Archived all m
  Archived-later r e a = record {
    result = a.result;
    among = subst (Memᴰ a.result) e (Memᴰ.tail a.among);
    blobs = a.blobs;
    loads = a.loads;
    holds = a.holds;
    number = a.number;
    before = a.before;
    after = a.after;
    packed = a.packed;
    packs = a.packs;
    named = a.named;
  }

  -- What the loop over the chunks makes of a blob of a chunk.
  Outcome : List ChunkResult → PackedBlobMeta → Type 0
  Outcome results m = Skipped options loose m ⊎ Archived results m

  abbrev Loop : Type 0
  Loop = InventoryArchiveV1 × Result (List ChunkResult)

  add_result-ok :
      (r : ChunkResult) (o : InventoryArchiveV1 × Result (List ChunkResult))
      {store' : InventoryArchiveV1} {results : List ChunkResult}
      → add_result config files options loose r o ≡ (store', ok results)
      → (later : List ChunkResult) × (o ≡ (store', ok later)) × (r ∷ later ≡ results)
  add_result-ok r (s, err e) h = absurd (cc h)
  add_result-ok r (s, ok later) h = (
    later,
    ap (λ (x : InventoryArchiveV1). (x, ok later)) (ap (λ (x : Loop). x.0) h),
    ok_inj (ap (λ (x : Loop). x.1) h),
  )

  module _ {chunk : List PackedBlobMeta} {m : PackedBlobMeta} (in_chunk : Memᴰ m chunk) where
    module _ (k : ℕ) (metas : List PackedBlobMeta) (chunks : List (List PackedBlobMeta))
        {store' : InventoryArchiveV1} {results : List ChunkResult}
        (rest : (s : InventoryArchiveV1) (rs : List ChunkResult)
          → pack_chunks config files options loose (suc k) chunks s ≡ (store', ok rs)
          → Memᴰ chunk chunks
          → Outcome rs m) where
      packed-Outcome :
          (store : InventoryArchiveV1) (blobs : List PackedBlob)
          (o : InventoryArchiveV1 × Result Packed)
          → load_blobs options.skip_missing_blobs loose metas ≡ ok blobs
          → pack_chunk_archive_v1 config (files.disks k) store blobs ≡ o
          → after_chunk config files options loose metas
              (pack_chunks config files options loose (suc k) chunks)
              o
            ≡ (store', ok results)
          → (chunk ≡ metas) ⊎ Memᴰ chunk chunks
          → Outcome results m
      unfolding Outcome
      packed-Outcome store blobs (s, err e) loaded q h c = absurd (cc h)
      packed-Outcome store blobs (s, ok p) loaded q h c =
          let r : ChunkResult = record { checksum = p.checksum; metas = metas } in
          let (later, rest_ok, cons) =
            add_result-ok r (pack_chunks config files options loose (suc k) chunks s) h in
          elim c [
            | inl same ↦
                elim (load_blobs-Loaded options loose metas loaded (subst (Memᴰ m) same in_chunk)) [
                  | inl skipped ↦ inl skipped
                  | inr l ↦ inr (record {
                    result = r;
                    among = subst (Memᴰ r) cons (Memᴰ.head refl);
                    blobs = blobs;
                    loads = loaded;
                    holds = l;
                    number = k;
                    before = store;
                    after = s;
                    packed = p;
                    packs = q;
                    named = refl;
                  })
                ]
            | inr k' ↦ elim (rest s later rest_ok k') [
              | inl skipped ↦ inl skipped
              | inr a ↦ inr (Archived-later r cons a)
            ]
          ]

      loaded-Outcome :
          (store : InventoryArchiveV1) (r : Result (List PackedBlob))
          → poll_context loose (packing k) >> load_blobs options.skip_missing_blobs loose metas ≡ r
          → pack_loaded config files options loose k metas
              (pack_chunks config files options loose (suc k) chunks)
              store
              r
            ≡ (store', ok results)
          → (chunk ≡ metas) ⊎ Memᴰ chunk chunks
          → Outcome results m
      unfolding Outcome
      loaded-Outcome store (err e) q h c = absurd (cc h)
      loaded-Outcome store (ok []) q h (inr c) = rest store results h c
      loaded-Outcome store (ok []) q h (inl same) =
          let (_, _, loaded) = bind-ok (poll_context loose (packing k)) _ q in
          elim (load_blobs-Loaded options loose metas loaded (subst (Memᴰ m) same in_chunk)) [
            | inl skipped ↦ inl skipped
            | inr l ↦ absurd (Memᴰ.not-nil l.among)
          ]
      loaded-Outcome store (ok (b ∷ blobs)) q h c =
          let (_, _, loaded) = bind-ok (poll_context loose (packing k)) _ q in
          packed-Outcome store (b ∷ blobs) _ loaded refl h c

    pack_chunks-Outcome :
        (k : ℕ) (chunks : List (List PackedBlobMeta)) (store : InventoryArchiveV1)
        {store' : InventoryArchiveV1} {results : List ChunkResult}
        → pack_chunks config files options loose k chunks store ≡ (store', ok results)
        → Memᴰ chunk chunks
        → Outcome results m
    unfolding pack_chunks
    pack_chunks-Outcome k [] store h c = absurd (Memᴰ.not-nil c)
    pack_chunks-Outcome k (metas ∷ chunks) store h c =
        loaded-Outcome k metas chunks (λ s rs e c'. pack_chunks-Outcome (suc k) chunks s e c') store
          _ refl h (Memᴰ.cases_cons c)

  validate_results-each :
      {r : ChunkResult} (k : ℕ) (store : InventoryArchiveV1) (results : List ChunkResult)
      → validate_results config files options loose k store results ≡ ok tt
      → Memᴰ r results
      → validate_archive_v1 config store r.checksum (length r.metas) ≡ ok tt
  unfolding validate_results
  validate_results-each k store [] h c = absurd (Memᴰ.not-nil c)
  validate_results-each {r} k store (x ∷ results) h c =
      let (_, _, h₂) = bind-ok (poll_context loose (validating k)) _ h in
      let (_, valid, h₃) =
        bind-ok (validate_archive_v1 config store x.checksum (length x.metas)) _ h₂ in
      elim (Memᴰ.cases_cons c) [
        | inl e ↦
            ap (λ (y : ChunkResult). validate_archive_v1 config store y.checksum (length y.metas)) e
            ∙ valid
        | inr c' ↦ validate_results-each (suc k) store results h₃ c'
      ]

  -- What stands behind the deletion of the blob `id`.
  pub record Backed (store : InventoryArchiveV1) (state : PackState) (id : Bytes) : Type 0 where
    pub metas : List PackedBlobMeta
    pub collects : collect_blob_metas_parallel config store options loose ≡ ok metas
    pub meta : PackedBlobMeta
    pub among : Memᴰ meta metas
    pub names : meta.digest ≡ id
    pub results : List ChunkResult
    pub stands :
        Skipped options loose meta
        ⊎ ((a : Archived results meta) × (validate_archive_v1 config state.store a.result.checksum
                (length a.result.metas)
              ≡ ok tt))

  -- Each loose blob that a Pack deletes, even a Pack that ends in an error, is one of those that it had
  -- collected, and one of two things holds. Either SkipMissingBlobs is set and the blob could not be
  -- read. Or it was read as one of the blobs of a chunk, these were packed into an archive, and the
  -- validation that reads that archive again from the store that the Pack leaves has passed.
  pub pack-Backed :
      (store : InventoryArchiveV1) (state : PackState) (r : Result (Unit {0})) (id : Bytes)
      → pack config files options loose store ≡ (state, r)
      → Memᴰ id state.deleted
      → Backed store state id
  unfolding Outcome
  pack-Backed store state r id h deleted =
      let v =
        pack-Validated config files options loose store state r h
          (λ none_deleted. Memᴰ.not-nil (subst (Memᴰ id) none_deleted deleted)) in
      let (m, found, name) =
        Memᴰ.of_map (λ (x : PackedBlobMeta). x.digest) v.metas
          (subst (Memᴰ id) v.begins (Memᴰ.append_left v.left deleted)) in
      let (chunk, c, k) =
        Mem-join (split_blob_chunks v.metas (max_size config files options loose)) (
          subst (Memᴰ m)
            (sym (join-split_blob_chunks v.metas (max_size config files options loose))) found) in
      record {
        metas = v.metas;
        collects = v.collected;
        meta = m;
        among = found;
        names = name;
        results = v.results;
        stands = elim (pack_chunks-Outcome k 0 _ store v.packed c) [
          | inl skipped ↦ inl skipped
          | inr a ↦ inr (a, validate_results-each 0 state.store v.results v.validated a.among)
        ];
      }
