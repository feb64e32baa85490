-- ===== src/Archive/Data/Codec.antt =====
-- What the archive takes from outside: the compression plugins that a reference resolves to, and the
-- encryption wrapper. Both turn bytes into bytes, or fail.
use madder.Common.{◌≡◌, Option, none, some}
use madder.Common.Bytes.{Bytes}
use madder.Archive.Types.{Result, ok, ◌>>=◌}

-- WrapWriter, Write and Close of a wrapper, and WrapReader, ReadAll and Close.
pub record Codec : Type 0 where
  pub encode : Bytes → Result Bytes
  pub decode : Bytes → Result Bytes

-- plugins.Resolve
abbrev pub Plugins : Type 0
Plugins = Bytes → Result Codec

-- Compress, then encrypt if configured.
unfoldable pub store : Plugins → Option Codec → Bytes → Bytes → Result Bytes
store plugins encryption ref plain = do
  plugin ← plugins ref
  compressed ← plugin.encode plain
  elim encryption [ none ↦ ok compressed | some wrapper ↦ wrapper.encode compressed ]

-- Decrypt if configured, then decompress.
unfoldable pub restore : Plugins → Option Codec → Bytes → Bytes → Result Bytes
restore plugins encryption ref stored = do
  compressed ← elim encryption [ none ↦ ok stored | some wrapper ↦ wrapper.decode stored ]
  plugin ← plugins ref
  plugin.decode compressed

-- A codec gives back what it was given.
abbrev pub IsLossless : Codec → Type 0
IsLossless c = (plain coded : Bytes) → c.encode plain ≡ ok coded → c.decode coded ≡ ok plain

abbrev pub AllLossless : Plugins → Option Codec → Type 0
AllLossless plugins encryption =
    ((ref : Bytes) (c : Codec) → plugins ref ≡ ok c → IsLossless c)
    × ((c : Codec) → encryption ≡ some c → IsLossless c)
