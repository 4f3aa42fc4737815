-- ===== src/ModelDownloader.antt =====
-- src/core/model_downloader.cpp: the ONNX models are checked and downloaded. Parameters are the
-- hexadecimal SHA-256 of a file's bytes, whether a file of the cache can be written, and the
-- replies of the network. The files stand for the cache directory, by their names in it.
pub mod Cover
pub mod Downloads
pub mod Phases
pub mod Ready
pub mod Overlap
mod Tests
use pairion_client.Base.{
  ℕ, zero, suc, ◌+◌, ◌-◌, ◌*◌, ◌/◌, String, Bool, true, false, ◌&&◌, Option, none, some, List, [],
  ◌∷◌, ◌++◌, map, ltb, ◌==◌, str_eq, if◌then◌else◌, length, is_some,
}
use Prim.Native.String.{◌++◌ as append_text}
use pairion_client.Qt.{Qt}

pub record ModelEntry : Type 0 where
  pub name : String
  pub url : String
  pub sha256 : List ℕ

pub data DownloadSignal : Type 0 where
  download_progress : (percent : ℕ) → DownloadSignal
  all_models_ready : DownloadSignal
  download_error : (reason : String) → DownloadSignal

-- A file's bytes, if it is there.
abbrev pub Files : Type 0
Files = String → Option (List ℕ)

abbrev pub put_file : String → Option (List ℕ) → Files → Files
put_file name contents files = λ other. if str_eq other name then contents else files other

pub record Downloader : Type 0 where
  pub pending : List ModelEntry
  pub total_count : ℕ
  pub completed_count : ℕ
  pub files : Files
  -- the requests that are not answered yet, by their number, and the URLs of all, newest first
  pub in_flight : ℕ
  pub requested : List String
  -- newest first
  pub emitted : List DownloadSignal

-- A finished reply: an error, or all its bytes.
pub data Reply : Type 0 where
  failed : (error_string : String) → Reply
  downloaded : List ℕ → Reply

abbrev pub bytes_eq : List ℕ → List ℕ → Bool
bytes_eq [] [] = true
bytes_eq [] (y ∷ ys) = false
bytes_eq (x ∷ xs) [] = false
bytes_eq (x ∷ xs) (y ∷ ys) = (x == y) && bytes_eq xs ys

abbrev pub is_empty : {A : Type 0} → List A → Bool
is_empty [] = true
is_empty (x ∷ xs) = false

-- `parse` is QJsonDocument::fromJson and its array, `none` at a parse error; the first argument is
-- the text of the resource if it can be opened.
module _ (q : Qt) (parse : q.Text → Option (List q.Value)) (to_latin1 : String → List ℕ) where
  abbrev entry_of : q.Value → ModelEntry
  entry_of val =
      let obj = q.to_object val in
      record {
        name = q.to_string (q.get obj "name");
        url = q.to_string (q.get obj "url");
        sha256 = to_latin1 (q.to_string (q.get obj "sha256"));
      }

  abbrev entries : Option (List q.Value) → List ModelEntry
  entries none = []
  entries (some vals) = map entry_of vals

  unfoldable pub load_manifest : Option q.Text → List ModelEntry
  load_manifest none = []
  load_manifest (some text) = entries (parse text)

abbrev pub signal : DownloadSignal → Downloader → Downloader
signal s d = record d { emitted = s ∷ d.emitted }

module _ (sha256_hex : List ℕ → List ℕ) (writable : String → Bool) where
  abbrev verify_contents : Option (List ℕ) → List ℕ → Bool
  verify_contents none expected = false
  verify_contents (some contents) expected = bytes_eq (sha256_hex contents) expected

  unfoldable pub verify_file : Files → String → List ℕ → Bool
  verify_file files name expected =
      if is_empty expected then false else verify_contents (files name) expected

  -- The loop over the manifest: how many are verified, and which are not.
  unfoldable pub sort_cached : Files → List ModelEntry → ℕ × List ModelEntry
  unfolding verify_file
  sort_cached files [] = (0, [])
  sort_cached files (entry ∷ manifest) =
      let (completed, pending) = sort_cached files manifest in
      if is_some (files entry.name) && verify_file files entry.name entry.sha256
      then (suc completed, pending)
      else (completed, entry ∷ pending)

  next : List ModelEntry → Downloader → Downloader
  next [] d = signal all_models_ready d
  next (entry ∷ pending) d = record d {
    in_flight = suc d.in_flight;
    requested = entry.url ∷ d.requested;
  }

  unfoldable pub download_next : Downloader → Downloader
  unfolding next
  download_next d = next d.pending d

  unfoldable pub check_and_download : List ModelEntry → Downloader → Downloader
  unfolding sort_cached download_next
  check_and_download manifest d =
      let (completed, pending) = sort_cached d.files manifest in
      let d' = record d {
        total_count = length manifest;
        completed_count = completed;
        pending = pending;
      } in
      if is_empty pending then signal all_models_ready d' else download_next d'

  -- The slot of the reply's downloadProgress.
  unfoldable pub on_progress : ℕ → ℕ → Downloader → Downloader
  on_progress received total d =
      if ltb 0 total
      then signal
          (download_progress ((d.completed_count * 100 + received * 100 / total) / d.total_count)) d
      else d

  -- From the check of the written file on.
  finish_entry : ModelEntry → Downloader → Downloader
  unfolding verify_file download_next
  finish_entry entry d =
      let done = record d { completed_count = suc d.completed_count } in
      if verify_file d.files entry.name entry.sha256
      then download_next
          (signal (download_progress (done.completed_count * 100 / done.total_count)) done)
      else signal (download_error (append_text "SHA-256 mismatch for " entry.name))
          (record d { files = put_file entry.name none d.files })

  take_reply : Reply → String → ModelEntry → Downloader → Downloader
  unfolding finish_entry
  take_reply (failed error_string) path entry d =
      signal
        (download_error (
          append_text "Download failed for "
            (append_text entry.name (append_text ": " error_string))))
        d
  take_reply (downloaded bytes) path entry d =
      if writable entry.name
      then finish_entry entry (record d { files = put_file entry.name (some bytes) d.files })
      else signal (download_error (append_text "Cannot write model file: " path)) d

  take_first : String → List ModelEntry → Reply → Downloader → Downloader
  unfolding take_reply
  take_first dir [] reply d = d
  take_first dir (entry ∷ pending) reply d =
      take_reply reply (append_text dir (append_text "/" entry.name)) entry
        (record d { pending = pending })

  -- `dir` is what `modelCacheDir` gives.
  unfoldable pub on_download_finished : String → Reply → Downloader → Downloader
  unfolding take_first
  on_download_finished dir reply d =
      take_first dir d.pending reply (record d { in_flight = d.in_flight - 1 })

-- The constructor, with what the cache holds.
abbrev pub new : Files → Downloader
new files = record {
  pending = [];
  total_count = 0;
  completed_count = 0;
  files = files;
  in_flight = 0;
  requested = [];
  emitted = [];
}
