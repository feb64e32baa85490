-- ===== src/ScopedId/Rebase.antt =====
-- Id.ResolveFrom: a reference in a config file, seen from the process's directory.
use madder.Common.{ℕ, zero, suc, ◌+◌, ◌^◌, ◌<◌, ◌≡◌, ◌≢◌, refl, sym, ap, ◌∙◌, arith, [], ◌∷◌, ◌++◌}
use madder.Common.{replicate, Bool}
use madder.Common.Bytes.{Bytes}
use madder.ScopedId.Id.{Location, unknown, cwd, xdg_user, xdg_system, xdg_cache, ScopedId, string}
use madder.ScopedId.Id.{resolve_from}
use madder.ScopedId.Parse.{placed_at}
use native.Mathlib.Nat.{mod-eq_of_lt}

replicate-add :
    (k n : ℕ) (xs : Bytes) → replicate (k + n) 46 ++ xs ≡ replicate k 46 ++ (replicate n 46 ++ xs)
replicate-add zero n xs =
    let none_added : zero + n ≡ n = omega arith in ap (λ m. replicate m 46 ++ xs) none_added
replicate-add (suc k) n xs =
    let one_more : suc k + n ≡ suc (k + n) = omega arith in
    ap (λ m. replicate m 46 ++ xs) one_more ∙ ap (λ l. 46 ∷ l) (replicate-add k n xs)

module _ {D : Type 0} where
  twice :
      (location : Location) (name : Bytes) (depth : ℕ) (m : Bool) (d : D) (i j : ℕ)
      → resolve_from (resolve_from (placed_at d location depth m name) i) j
        ≡ resolve_from (placed_at d location depth m name) (i + j)
  unfolding resolve_from
  twice cwd name depth m d i j = ap (λ k. placed_at d cwd k m name) (omega arith)
  twice unknown name depth m d i j = refl
  twice xdg_user name depth m d i j = refl
  twice xdg_system name depth m d i j = refl
  twice xdg_cache name depth m d i j = refl

  -- Rebasing by one depth and then by another is rebasing by their sum.
  pub resolve_from-resolve_from :
      (id : ScopedId D) (i j : ℕ) → resolve_from (resolve_from id i) j ≡ resolve_from id (i + j)
  resolve_from-resolve_from id i j =
      twice id.location id.name id.cwd_depth id.remote_first id.digest i j

  up :
      (name : Bytes) (depth : ℕ) (m : Bool) (d : D) (k : ℕ)
      → name ≢ []
      → depth + k < 2 ^ 64
      → string (resolve_from (placed_at d cwd depth m name) k)
        ≡ replicate k 46 ++ string (placed_at d cwd depth m name)
  unfolding resolve_from string
  up [] depth m d k named small = absurd (named refl)
  up (b ∷ bs) depth m d k named small =
      let more_dots : suc (depth + k) ≡ k + suc depth = omega arith in
      ap (λ n. replicate (suc n) 46 ++ (b ∷ bs)) (mod-eq_of_lt small)
      ∙ ap (λ n. replicate n 46 ++ (b ∷ bs)) more_dots
      ∙ replicate-add k (suc depth) (b ∷ bs)

  -- Rebasing an id of the current directory by `k` puts `k` dots in front of what is printed, if the id
  -- has a name and the depth stays below 2^64.
  pub string-resolve_from :
      (id : ScopedId D) (k : ℕ)
      → id.location ≡ cwd
      → id.name ≢ []
      → id.cwd_depth + k < 2 ^ 64
      → string (resolve_from id k) ≡ replicate k 46 ++ string id
  string-resolve_from id k here named small =
      ap (λ (l : Location). string (resolve_from (record id { location = l }) k)) here
      ∙ up id.name id.cwd_depth id.remote_first id.digest k named small
      ∙ ap (λ (l : Location). replicate k 46 ++ string (record id { location = l })) (sym here)
