-- ===== src/ModelDownloader/Ready.antt =====
-- src/core/model_downloader.cpp: when the models are ready.
use pairion_client.Base.{
  ℕ, ◌≤◌, ◌≡◌, ◌⊎◌, inl, inr, String, Bool, false, List, [], ◌∷◌, arith, IsDistinct,
}
use pairion_client.ModelDownloader.{ModelEntry, Files, Downloader}
use pairion_client.ModelDownloader.Cover.{AreVerified, names, Covered}
use pairion_client.ModelDownloader.Downloads.{is_ready, ArePercents, Reach}
use pairion_client.ModelDownloader.Phases.{Phase, Reach-Phase}

module _ (sha256_hex : List ℕ → List ℕ) (writable : String → Bool) (dir : String)
    (manifest : List ModelEntry) (files : Files) where
  none_pending :
      (now : Files) (es : List ModelEntry)
      → Covered sha256_hex writable now [] es
      → AreVerified sha256_hex writable now es
  none_pending now [] h = tt
  none_pending now (e ∷ es) (inl v, h) = (v, none_pending now es h)
  none_pending now (e ∷ es) (inr i, h) = absurd i

  -- If no two entries of the manifest have the same name: in every state after one check, with
  -- replies and reports of progress in any order, either "all models ready" was not emitted or every
  -- entry of the manifest has its file with its hash; at most one request is in flight; and every
  -- progress that was emitted is at most 100.
  pub Reach-ready :
      IsDistinct (names manifest)
      → (d : Downloader) → Reach sha256_hex writable dir manifest files d
      → ((is_ready d.emitted ≡ false) ⊎ AreVerified sha256_hex writable d.files manifest)
        × (d.in_flight ≤ 1)
        × ArePercents d.emitted
  Reach-ready distinct d r =
      by_phase (Reach-Phase sha256_hex writable dir manifest files distinct d r)
    where
      by_phase :
          Phase sha256_hex writable dir manifest files d
          → ((is_ready d.emitted ≡ false) ⊎ AreVerified sha256_hex writable d.files manifest)
            × (d.in_flight ≤ 1)
            × ArePercents d.emitted
      by_phase (inl (cover, inside, count, one, some_left, quiet), percents) =
          (inl quiet, omega arith, percents)
      by_phase (inr (inl (cover, none_left)), percents) =
          (inr (none_pending d.files manifest cover), omega arith, percents)
      by_phase (inr (inr (none_left, quiet)), percents) = (inl quiet, omega arith, percents)
