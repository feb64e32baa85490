-- ===== src/Multi/Merge.antt =====
-- AllBlobs and compareMarklIds of multi.go: the children's listings merged into one.
use madder.Common.{ℕ, zero, suc, ◌+◌, List, [], ◌∷◌, ◌++◌, length, Option, none, some}
use madder.Common.Bytes.{Bytes, Order, below, same, above, compare_bytes}

pub record MarklId : Type 0 where
  -- "" for an id without a format
  pub format : Bytes
  pub bytes : Bytes

unfoldable pub compare_markl_ids : MarklId → MarklId → Order
compare_markl_ids a b =
    let by_bytes = compare_bytes a.bytes b.bytes in
    elim (compare_bytes a.format b.format) [ same ↦ by_bytes | below ↦ below | above ↦ above ]

-- What a sequence gives: an id, an error, or neither. The id is an object of the sequence's own, and
-- many sequences fill the same one again: the second of `given` is what that object holds once the
-- sequence has been asked for more.
pub data Item : Type 0 where
  given : MarklId → MarklId → Item
  failed : ℕ → Item
  nothing : Item

-- What the merged sequence gives: an id as it is at that time, or an error.
pub data Yield : Type 0 where
  yielded : MarklId → Yield
  yielded_error : ℕ → Yield

-- A head is what its sequence will still give; `ok` is false when that is nothing.
abbrev pub Head : Type 0
Head = List Item

-- The first pass of a round: an error is yielded, and the head goes one further.
unfoldable pub pending_errors : List Head → List Yield
pending_errors [] = []
pending_errors ((failed e ∷ rest) ∷ heads) = yielded_error e ∷ pending_errors heads
pending_errors (_ ∷ heads) = pending_errors heads

unfoldable pub past_errors : List Head → List Head
past_errors [] = []
past_errors ((failed e ∷ rest) ∷ heads) = rest ∷ past_errors heads
past_errors ((nothing ∷ rest) ∷ heads) = rest ∷ past_errors heads
past_errors (head ∷ heads) = head ∷ past_errors heads

abbrev pub lesser : Option MarklId → MarklId → Option MarklId
lesser none id = some id
lesser (some least) id = elim (compare_markl_ids id least) [ below ↦ some id | _ ↦ some least ]

-- minIdx, by its id.
unfoldable pub minimum_from : Option MarklId → List Head → Option MarklId
minimum_from least [] = least
minimum_from least ((given id later ∷ rest) ∷ heads) = minimum_from (lesser least id) heads
minimum_from least (_ ∷ heads) = minimum_from least heads

abbrev pub advance_by : Order → Item → Head → Head
advance_by same item rest = rest
advance_by below item rest = item ∷ rest
advance_by above item rest = item ∷ rest

-- The heads behind minIdx: those that stand at what minId now holds go one further.
unfoldable pub advance_rest : MarklId → List Head → List Head
advance_rest min_id [] = []
advance_rest min_id ((given id later ∷ rest) ∷ heads) =
    advance_by (compare_markl_ids id min_id) (given id later) rest ∷ advance_rest min_id heads
advance_rest min_id (head ∷ heads) = head ∷ advance_rest min_id heads

-- The heads from the first on. The first that stands at the minimum is that of minIdx, since the search
-- replaces minIdx by smaller ids only. Its id is minId itself: when it goes one further, minId holds
-- what its object then holds, and the heads behind it are compared with that.
unfoldable pub advance : MarklId → List Head → List Head
advance min_id [] = []
advance min_id ((given id later ∷ rest) ∷ heads) = elim (compare_markl_ids id min_id) [
  | same ↦ rest ∷ advance_rest later heads
  | _ ↦ (given id later ∷ rest) ∷ advance min_id heads
]
advance min_id (head ∷ heads) = head ∷ advance min_id heads

-- The loop, on fuel. A consumer that stops early sees the beginning of this.
unfoldable pub merge : ℕ → List Head → List Yield
merge zero heads = []
merge (suc fuel) heads =
    let heads' = past_errors heads in
    elim (minimum_from none heads') [
      | none ↦ pending_errors heads
      | some least ↦ pending_errors heads ++ (yielded least ∷ merge fuel (advance least heads'))
    ]

unfoldable pub count_items : List Head → ℕ
count_items [] = 0
count_items (head ∷ heads) = length head + count_items heads

-- A round takes an item at least, so these are rounds enough.
unfoldable pub all_blobs : List Head → List Yield
all_blobs sources = merge (suc (count_items sources)) sources
