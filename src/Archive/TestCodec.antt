-- ===== src/Archive/TestCodec.antt =====
-- Codecs to run the archive code with.
use madder.Common.{ℕ, ◌≡◌, refl, sym, ap, ◌∷◌, Option, some, drop}
use madder.Common.Bytes.{Bytes, codes}
use madder.Archive.Types.{Result, ok, err, hash_size_for_format}
use madder.Archive.Data.Codec.{Codec, Plugins, AllLossless, IsLossless}
use mathlib.Core.Path.{subst}

-- A codec that puts a tag in front.
abbrev tagging : ℕ → Codec
tagging tag = record { encode = λ bs. ok (tag ∷ bs); decode = λ bs. ok (drop 1 bs) }

abbrev pub plugins : Plugins
plugins ref = ok (tagging 7)

abbrev pub encryption : Option Codec
encryption = some (tagging 9)

tagging-IsLossless : (tag : ℕ) → IsLossless (tagging tag)
tagging-IsLossless tag plain coded h = ap untag (sym h)
  where
    untag : Result Bytes → Result Bytes
    untag (ok bs) = ok (drop 1 bs)
    untag (err e) = err e

abbrev pub gzip : Bytes
gzip = codes "madder-codec-gzip-v1@gzip"

pub plugins-AllLossless : AllLossless plugins encryption
plugins-AllLossless = ((λ ref c found. lossless found), λ c found. configured found)
  where
    lossless : {c : Codec} → ok (tagging 7) ≡ ok c → IsLossless c
    lossless e = subst IsLossless (same e) (tagging-IsLossless 7)
      where
        same : {c : Codec} → ok (tagging 7) ≡ ok c → tagging 7 ≡ c
        same e = cc

    configured : {c : Codec} → encryption ≡ some c → IsLossless c
    configured e = subst IsLossless (same e) (tagging-IsLossless 9)
      where
        same : {c : Codec} → encryption ≡ some c → tagging 9 ≡ c
        same e = cc

pub sha_size : hash_size_for_format (codes "sha256") ≡ ok 32
unfolding hash_size_for_format
sha_size = refl
