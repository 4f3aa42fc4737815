-- ===== src/ModelDownloader/Tests.antt =====
-- The downloads at concrete inputs.
use pairion_client.Base.{ℕ, ◌≤◌, ◌≡◌, refl, ◌⊎◌, true, false, none, List, [], ◌∷◌, arith}
use pairion_client.ModelDownloader.{
  ModelEntry, Downloader, Files, downloaded, verify_file, sort_cached, next, download_next,
  finish_entry, take_reply, take_first, check_and_download, on_download_finished, new,
  download_progress, all_models_ready,
}
use pairion_client.ModelDownloader.Cover.{AreVerified}
use pairion_client.ModelDownloader.Downloads.{is_ready, ArePercents, Reach, checked, finished}
use pairion_client.ModelDownloader.Ready.{Reach-ready}
use pairion_client.ModelDownloader.Overlap.{checked_twice, checked_twice_loses}

-- A "hash" that is the file itself.
abbrev hash : List ℕ → List ℕ
hash bytes = bytes

abbrev mel : ModelEntry
mel = record { name = "mel.onnx"; url = "http://models/mel"; sha256 = 1 ∷ [] }

abbrev vad : ModelEntry
vad = record { name = "vad.onnx"; url = "http://models/vad"; sha256 = 2 ∷ [] }

abbrev manifest : List ModelEntry
manifest = mel ∷ vad ∷ []

abbrev cache : Files
cache name = none

abbrev first_done : Downloader
first_done =
    on_download_finished hash (λ n. true) "/models" (downloaded (1 ∷ []))
      (check_and_download hash (λ n. true) manifest (new cache))

abbrev both_done : Downloader
both_done = on_download_finished hash (λ n. true) "/models" (downloaded (2 ∷ [])) first_done

both_done_emitted :
    both_done.emitted ≡ all_models_ready ∷ download_progress 100 ∷ download_progress 50 ∷ []
unfolding check_and_download download_next next on_download_finished take_first take_reply
    finish_entry sort_cached verify_file
both_done_emitted = refl

in_flight_first : (check_and_download hash (λ n. true) manifest (new cache)).in_flight ≡ 1
unfolding check_and_download download_next next sort_cached verify_file
in_flight_first = refl

in_flight_second : first_done.in_flight ≡ 1
unfolding check_and_download download_next next on_download_finished take_first take_reply
    finish_entry sort_cached verify_file
in_flight_second = refl

reach_both : Reach hash (λ n. true) "/models" manifest cache both_done
reach_both =
    finished (downloaded (2 ∷ []))
      (finished (downloaded (1 ∷ [])) checked (omega (arith, in_flight_first)))
      (omega (arith, in_flight_second))

Reach-ready_example :
    ((is_ready both_done.emitted ≡ false) ⊎ AreVerified hash (λ n. true) both_done.files manifest)
    × (both_done.in_flight ≤ 1)
    × ArePercents both_done.emitted
Reach-ready_example =
    Reach-ready hash (λ n. true) "/models" manifest cache (refl, (refl, tt)) both_done reach_both

checked_twice_loses_example :
    let d = checked_twice hash "/models" mel vad (1 ∷ []) (2 ∷ []) in
    (d.in_flight ≡ 0)
    × (d.requested ≡ "http://models/vad" ∷ "http://models/mel" ∷ "http://models/mel" ∷ [])
    × (is_ready d.emitted ≡ false)
    × (d.files "vad.onnx" ≡ none)
unfolding verify_file
checked_twice_loses_example =
    checked_twice_loses hash "/models" mel vad (1 ∷ []) (2 ∷ []) refl refl refl refl
