-- ===== src/ModelDownloader/Overlap.antt =====
-- src/core/model_downloader.cpp: a second check while the first one's download is in flight.
use pairion_client.Base.{
  ℕ, ◌≡◌, refl, String, true, false, none, some, List, [], ◌∷◌, str_eq, str_eq_self, if◌then◌else◌,
}
use pairion_client.ModelDownloader.{
  ModelEntry, Downloader, downloaded, Files, put_file, verify_file, sort_cached, next,
  download_next, check_and_download, finish_entry, take_reply, take_first, on_download_finished,
  new,
}
use pairion_client.ModelDownloader.Downloads.{is_ready}

abbrev empty_cache : Files
empty_cache name = none

module _ (sha256_hex : List ℕ → List ℕ) (dir : String) (a b : ModelEntry)
    (data_a data_b : List ℕ) where
  abbrev check : Downloader → Downloader
  check d = check_and_download sha256_hex (λ name. true) (a ∷ b ∷ []) d

  abbrev reply : List ℕ → Downloader → Downloader
  reply bytes d = on_download_finished sha256_hex (λ name. true) dir (downloaded bytes) d

  -- Two checks in a row, then the three replies to what was requested, each with the right bytes.
  abbrev pub checked_twice : Downloader
  checked_twice = reply data_b (reply data_a (reply data_a (check (check (new empty_cache)))))

  -- If two models with different names are missing and the file of the first does not have the hash
  -- of the second, then a second check before the first reply leaves the second model missing:
  -- nothing is in flight any more, ready was not told, and the second file is not there, although
  -- the three requests, for the first, the first and the second model, were answered with the right
  -- bytes.
  pub checked_twice_loses :
      str_eq a.name b.name ≡ false
      → str_eq b.name a.name ≡ false
      → verify_file sha256_hex
          (λ name. true)
          (put_file a.name (some data_a) empty_cache)
          a.name
          a.sha256
        ≡ true
      → verify_file sha256_hex
          (λ name. true)
          (put_file b.name (some data_a) (put_file a.name (some data_a) empty_cache))
          b.name
          b.sha256
        ≡ false
      → (checked_twice.in_flight ≡ 0)
        × (checked_twice.requested ≡ b.url ∷ a.url ∷ a.url ∷ [])
        × (is_ready checked_twice.emitted ≡ false)
        × (checked_twice.files b.name ≡ none)
  unfolding check_and_download download_next next on_download_finished take_first take_reply
      finish_entry sort_cached
  checked_twice_loses ne en good bad =
      rw (good, bad, if◌then◌else◌, str_eq_self b.name) (refl, refl, refl, refl)
