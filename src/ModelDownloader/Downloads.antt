-- ===== src/ModelDownloader/Downloads.antt =====
-- src/core/model_downloader.cpp: what follows from one check of the models, as steps.
use pairion_client.Base.{ℕ, ◌≤◌, ◌<◌, String, Bool, true, false, List, [], ◌∷◌}
use pairion_client.ModelDownloader.{
  ModelEntry, DownloadSignal, download_progress, all_models_ready, download_error, Files,
  Downloader, Reply, check_and_download, on_progress, on_download_finished, new,
}

-- allModelsReady was emitted.
abbrev pub is_ready : List DownloadSignal → Bool
is_ready [] = false
is_ready (all_models_ready ∷ signals) = true
is_ready (download_progress percent ∷ signals) = is_ready signals
is_ready (download_error reason ∷ signals) = is_ready signals

abbrev pub ArePercents : List DownloadSignal → Type 0
ArePercents [] = Unit {0}
ArePercents (download_progress percent ∷ signals) = (percent ≤ 100) × ArePercents signals
ArePercents (all_models_ready ∷ signals) = ArePercents signals
ArePercents (download_error reason ∷ signals) = ArePercents signals

module _ (sha256_hex : List ℕ → List ℕ) (writable : String → Bool) (dir : String)
    (manifest : List ModelEntry) (files : Files) where
  -- The states after the check, by reports of progress and replies to requests that are in flight.
  pub data Reach : Downloader → Type 0 where
    checked : Reach (check_and_download sha256_hex writable manifest (new files))
    progressed :
        {d : Downloader} (received total : ℕ)
        → Reach d
        → 0 < d.in_flight
        → received ≤ total
        → Reach (on_progress sha256_hex writable received total d)
    finished :
        {d : Downloader} (reply : Reply)
        → Reach d
        → 0 < d.in_flight
        → Reach (on_download_finished sha256_hex writable dir reply d)
