-- ===== src/ArchiveStore/Configured.antt =====
-- What packChunkArchiveV1 makes of the names in a store's configuration: selector_registry.go and
-- signature_registry.go, with the choice in pack_v1.go.
use madder.Common.{ℕ, List, if◌then◌else◌, ◌||◌, Option, none, some}
use madder.Common.Bytes.{Bytes, codes, equal_bytes}
use madder.Archive.Types.{Result, ok, err, ◌>>=◌, unknown_selector, unknown_signature}
use madder.Packing.Selector.{BlobMetadata, LshBandingSelector, select_bases}
use madder.Packing.BySize.{SizeBasedSelector, select_bases_by_size}
use madder.Packing.Signature.{GearCdcMinHashComputer, compute_signature}

abbrev pub Selector : Type 0
Selector = List BlobMetadata → List (ℕ × ℕ)

-- The one registered selector; `arrange` is the order of a range over a map.
unfoldable pub base_selector_for_name :
    (List ℕ → List ℕ) → Bytes → LshBandingSelector → Result (Option Selector)
base_selector_for_name arrange name params =
    if equal_bytes name (codes "")
    then ok none
    else if equal_bytes name (codes "lsh-banding")
    then ok (some (select_bases params arrange))
    else err unknown_selector

unfoldable pub signature_computer_for_name :
    Bytes → GearCdcMinHashComputer → Result (Option (Bytes → Result (List ℕ)))
signature_computer_for_name name params =
    if equal_bytes name (codes "")
    then ok none
    else if equal_bytes name (codes "gear-cdc-minhash")
    then ok (some (λ content. ok (compute_signature params content)))
    else err unknown_signature

abbrev or_by_size : SizeBasedSelector → Option Selector → Selector
or_by_size sizes none = select_bases_by_size sizes
or_by_size sizes (some selector) = selector

-- A configuration without the interface gives no name.
unfoldable pub configured_selector :
    (List ℕ → List ℕ) → Option (Bytes × LshBandingSelector) → SizeBasedSelector → Result Selector
configured_selector arrange none sizes = ok (select_bases_by_size sizes)
configured_selector arrange (some (name, params)) sizes =
    if equal_bytes name (codes "") || equal_bytes name (codes "size-based")
    then ok (select_bases_by_size sizes)
    else (base_selector_for_name arrange name params >>= λ chosen. ok (or_by_size sizes chosen))

unfoldable pub configured_signature :
    Option (Bytes × GearCdcMinHashComputer) → Result (Option (Bytes → Result (List ℕ)))
configured_signature none = ok none
configured_signature (some (name, params)) = signature_computer_for_name name params
