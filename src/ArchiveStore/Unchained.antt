-- ===== src/ArchiveStore/Unchained.antt =====
-- The map of assignments that packChunkArchiveV1 gets from SizeBasedSelector.
use madder.Common.{ℕ, ◌≡◌, refl, sym, ap, ◌∙◌, List, [], ◌∷◌, none, some, some_inj}
use madder.Common.{Bool, true, false, ◌==◌, ltb, if◌then◌else◌, ◌⊎◌, inl, inr, ==→eq, Option-cases}
use madder.Packing.Selector.{BlobMetadata}
use madder.Packing.BySize.{SizeBasedSelector, select_bases_by_size}
use madder.Packing.Unchained.{select_bases_by_size-apart}
use madder.Archive.Types.{ok, ◌>>=◌, bind-ok}
use madder.ArchiveStore.Types.{PackedBlob, StoreConfig, delta_algorithm_byte_for_name}
use madder.ArchiveStore.Types.{delta_algorithm_for_byte}
use madder.ArchiveStore.Deltas.{assign, assign_all, base_of, DeltaPlan, plan_deltas, blob_set}
use madder.ArchiveStore.Deltas.{nil_algorithm}
use mathlib.Core.List.{Memᴰ}
use mathlib.Core.List.Memᴰ

assign-Mem : (k v : ℕ) (m : List (ℕ × ℕ)) {p : ℕ × ℕ} → Memᴰ p (assign k v m) → Memᴰ p ((k, v) ∷ m)
unfolding assign
assign-Mem k v [] h = h
assign-Mem k v ((l, w) ∷ m) {p} h = go (k == l) (ltb k l) h (λ x. assign-Mem k v m x)
  where
    go :
        (q r : Bool)
        → Memᴰ p
            (if q then (k, v) ∷ m else if r then (k, v) ∷ (l, w) ∷ m else (l, w) ∷ assign k v m)
        → (Memᴰ p (assign k v m) → Memᴰ p ((k, v) ∷ m))
        → Memᴰ p ((k, v) ∷ (l, w) ∷ m)
    go true r (Memᴰ.head e) later = Memᴰ.head e
    go true r (Memᴰ.tail x) later = Memᴰ.tail (Memᴰ.tail x)
    go false true x later = x
    go false false (Memᴰ.head e) later = Memᴰ.tail (Memᴰ.head e)
    go false false (Memᴰ.tail x) later = elim (Memᴰ.cases_cons (later x)) [
      | inl e ↦ Memᴰ.head e
      | inr y ↦ Memᴰ.tail (Memᴰ.tail y)
    ]

assign_all-Mem :
    (calls m : List (ℕ × ℕ)) {p : ℕ × ℕ} → Memᴰ p (assign_all calls m) → Memᴰ p calls ⊎ Memᴰ p m
unfolding assign_all
assign_all-Mem [] m h = inr h
assign_all-Mem ((i, j) ∷ calls) m h = elim (assign_all-Mem calls (assign i j m) h) [
  | inl x ↦ inl (Memᴰ.tail x)
  | inr x ↦ elim (Memᴰ.cases_cons (assign-Mem i j m x)) [
    | inl e ↦ inl (Memᴰ.head e)
    | inr y ↦ inr y
  ]
]

base_of-Mem : (m : List (ℕ × ℕ)) (i : ℕ) {j : ℕ} → base_of m i ≡ some j → Memᴰ (i, j) m
unfolding base_of
base_of-Mem [] i h = absurd (cc)
base_of-Mem ((k, b) ∷ m) i {j} h = go (i == k) refl h (λ r. base_of-Mem m i r)
  where
    go :
        (q : Bool)
        → (i == k) ≡ q
        → (if q then some b else base_of m i) ≡ some j
        → (base_of m i ≡ some j → Memᴰ (i, j) m)
        → Memᴰ (i, j) ((k, b) ∷ m)
    go true e r later = Memᴰ.head (λ t. (==→eq i k e t, some_inj (sym r) t))
    go false e r later = Memᴰ.tail (later r)

select_bases_by_size-unchained :
    (s : SizeBasedSelector) (metas : List BlobMetadata) (i j : ℕ)
    → base_of (assign_all (select_bases_by_size s metas) []) i ≡ some j
    → base_of (assign_all (select_bases_by_size s metas) []) j ≡ none
select_bases_by_size-unchained s metas i j h =
    let calls = select_bases_by_size s metas in
    elim (Option-cases (base_of (assign_all calls []) j)) [
      | inl none_left ↦ none_left
      | inr (k, g) ↦
          absurd
            (select_bases_by_size-apart s metas (i, j) (j, k) (called i j h) (called j k g) refl)
    ]
  where
    called :
        (a b : ℕ)
        → base_of (assign_all (select_bases_by_size s metas) []) a ≡ some b
        → Memᴰ (a, b) (select_bases_by_size s metas)
    called a b e = elim (assign_all-Mem (select_bases_by_size s metas) [] (base_of-Mem _ a e)) [
      | inl x ↦ x
      | inr x ↦ absurd (Memᴰ.not-nil x)
    ]

base_of-nil : (i : ℕ) → base_of [] i ≡ none
unfolding base_of
base_of-nil i = refl

-- Under a configuration that packs by size, a blob of a chunk that is some blob's base has no base
-- itself, so that no delta rests on a delta.
pub plan_deltas-unchained :
    (config : StoreConfig) (sizes : SizeBasedSelector) (blobs : List PackedBlob) (plan : DeltaPlan)
    → config.selector ≡ ok (select_bases_by_size sizes)
    → plan_deltas config blobs ≡ ok plan
    → (i j : ℕ) → base_of plan.assignments i ≡ some j
    → base_of plan.assignments j ≡ none
unfolding plan_deltas
plan_deltas-unchained config sizes blobs plan by_size h i j = go config.delta_enabled h
  where
    same : {x y : DeltaPlan} → ok x ≡ ok y → x ≡ y
    same e = cc

    go :
        (q : Bool)
        → elim q [
          | false ↦ ok (record { alg_byte = 0; alg = nil_algorithm; assignments = [] })
          | true ↦ delta_algorithm_byte_for_name config.delta_algorithm >>= λ alg_byte.
              delta_algorithm_for_byte config.bsdiff alg_byte >>= λ alg.
              config.selector >>= λ select_bases. config.signature_computer >>= λ computer.
              blob_set computer blobs >>= λ blobs'. ok (record {
                alg_byte = alg_byte;
                alg = alg;
                assignments = assign_all (select_bases blobs') [];
              })
        ]
          ≡ ok plan
        → base_of plan.assignments i ≡ some j
        → base_of plan.assignments j ≡ none
    go false e a = ap (λ (d : DeltaPlan). base_of d.assignments j) (sym (same e)) ∙ base_of-nil j
    go true e a =
        let (alg_byte, _, e1) =
          bind-ok (delta_algorithm_byte_for_name config.delta_algorithm) _ e in
        let (alg, _, e2) = bind-ok (delta_algorithm_for_byte config.bsdiff alg_byte) _ e1 in
        let (select_bases, chosen, e3) = bind-ok config.selector _ e2 in
        let (computer, _, e4) = bind-ok config.signature_computer _ e3 in
        let (blobs', _, e5) = bind-ok (blob_set computer blobs) _ e4 in
        let planned : assign_all (select_bases_by_size sizes blobs') [] ≡ plan.assignments =
          ap (λ f. assign_all (f blobs') []) (chosen_is (sym by_size ∙ chosen))
          ∙ ap (λ (d : DeltaPlan). d.assignments) (same e5) in
        ap (λ m. base_of m j) (sym planned)
        ∙ select_bases_by_size-unchained sizes blobs' i j (ap (λ m. base_of m i) planned ∙ a)
      where
        chosen_is : {f g : List BlobMetadata → List (ℕ × ℕ)} → ok f ≡ ok g → f ≡ g
        chosen_is e = cc
