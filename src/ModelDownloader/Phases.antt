-- ===== src/ModelDownloader/Phases.antt =====
-- src/core/model_downloader.cpp: the phases of the downloads after a check.
use pairion_client.Base.{
  ℕ, suc, ◌+◌, ◌-◌, ◌*◌, ◌/◌, ◌≤◌, ◌<◌, ◌≡◌, refl, ap, ◌⊎◌, inl, inr, String, Bool, true, false,
  some, List, [], ◌∷◌, arith, ltb, if◌then◌else◌, Bool-cases, length, IsDistinct,
}
use native.Mathlib.Nat.{div-le_of_le-mul}
use pairion_client.ModelDownloader.{
  ModelEntry, download_progress, all_models_ready, Files, put_file, Downloader, Reply, failed,
  downloaded, verify_file, sort_cached, next, download_next, check_and_download, on_progress,
  finish_entry, take_reply, take_first, on_download_finished, new, signal, is_empty,
}
use pairion_client.ModelDownloader.Cover.{
  In, names, AllIn, Covered, IsSorted, sort_cached-IsSorted, put_file-Covered,
}
use pairion_client.ModelDownloader.Downloads.{
  is_ready, ArePercents, Reach, checked, progressed, finished,
}

-- The percentage of the file, and of all files while `c` are complete.
file_percent :
    (received total : ℕ) → received ≤ total → ltb 0 total ≡ true → received * 100 / total ≤ 100
file_percent received total h t = div-le_of_le-mul total (omega arith)

overall_percent : (c file total : ℕ) → suc c ≤ total → file ≤ 100 → (c * 100 + file) / total ≤ 100
overall_percent c file total h f = div-le_of_le-mul total (omega arith)

complete_percent : (c total : ℕ) → c ≤ total → c * 100 / total ≤ 100
complete_percent c total h = div-le_of_le-mul total (omega arith)

module _ (sha256_hex : List ℕ → List ℕ) (writable : String → Bool) (dir : String)
    (manifest : List ModelEntry) (files : Files) where
  -- One request is in flight and the entries are verified or pending; or all are verified and ready
  -- was told; or the downloads have stopped at an error.
  abbrev pub Busy : Downloader → Type 0
  Busy d =
      Covered sha256_hex writable d.files d.pending manifest
      × AllIn d.pending manifest
      × (d.completed_count + length d.pending ≡ d.total_count)
      × (d.in_flight ≡ 1)
      × (0 < length d.pending)
      × (is_ready d.emitted ≡ false)

  abbrev pub Complete : Downloader → Type 0
  Complete d = Covered sha256_hex writable d.files [] manifest × (d.in_flight ≡ 0)

  abbrev pub Stopped : Downloader → Type 0
  Stopped d = (d.in_flight ≡ 0) × (is_ready d.emitted ≡ false)

  abbrev pub Phase : Downloader → Type 0
  Phase d = (Busy d ⊎ Complete d ⊎ Stopped d) × ArePercents d.emitted

  next-Phase :
      (pending : List ModelEntry) (d : Downloader)
      → pending ≡ d.pending
      → Covered sha256_hex writable d.files pending manifest
      → AllIn pending manifest
      → d.completed_count + length pending ≡ d.total_count
      → d.in_flight ≡ 0
      → is_ready d.emitted ≡ false
      → ArePercents d.emitted
      → Phase (next sha256_hex writable pending d)
  unfolding next
  next-Phase [] d e cover inside count flying quiet percents = (inr (inl (cover, flying)), percents)
  next-Phase (x ∷ rest) d e cover inside count flying quiet percents =
      rw (← e) (inl (cover, inside, count, ap suc flying, omega arith, quiet), percents)

  finish_entry-Phase :
      IsDistinct (names manifest)
      → (x : ModelEntry) (bytes : List ℕ) (d : Downloader)
      → Covered sha256_hex writable d.files (x ∷ d.pending) manifest
      → In x manifest
      → AllIn d.pending manifest
      → d.completed_count + suc (length d.pending) ≡ d.total_count
      → d.in_flight ≡ 0
      → is_ready d.emitted ≡ false
      → ArePercents d.emitted
      → Phase (
          finish_entry sha256_hex writable x
            (record d { files = put_file x.name (some bytes) d.files }))
  unfolding finish_entry download_next
  finish_entry-Phase distinct x bytes d cover here inside count flying quiet percents =
      let written = put_file x.name (some bytes) d.files in
      let d' : Downloader = record d { files = written; completed_count = suc d.completed_count } in
      let told = signal (download_progress (d'.completed_count * 100 / d'.total_count)) d' in
      elim (Bool-cases (verify_file sha256_hex writable written x.name x.sha256)) [
        | inl ok ↦
            rw (ok, if◌then◌else◌)
              (next-Phase d.pending told refl
                (put_file-Covered sha256_hex writable manifest distinct x bytes d.pending d.files
                  here ok cover)
                inside (omega arith) flying quiet
                (complete_percent (suc d.completed_count) d.total_count (omega arith), percents))
        | inr bad ↦ rw (bad, if◌then◌else◌) (inr (inr (flying, quiet)), percents)
      ]

  take_reply-Phase :
      IsDistinct (names manifest)
      → (reply : Reply) (path : String) (x : ModelEntry) (d : Downloader)
      → Covered sha256_hex writable d.files (x ∷ d.pending) manifest
      → In x manifest
      → AllIn d.pending manifest
      → d.completed_count + suc (length d.pending) ≡ d.total_count
      → d.in_flight ≡ 0
      → is_ready d.emitted ≡ false
      → ArePercents d.emitted
      → Phase (take_reply sha256_hex writable reply path x d)
  unfolding take_reply
  take_reply-Phase distinct (failed error_string) path x d cover here inside count flying quiet
        percents =
      (inr (inr (flying, quiet)), percents)
  take_reply-Phase distinct (downloaded bytes) path x d cover here inside count flying quiet
        percents =
      elim (Bool-cases (writable x.name)) [
        | inl can ↦
            rw (can, if◌then◌else◌)
              (finish_entry-Phase distinct x bytes d cover here inside count flying quiet percents)
        | inr cannot ↦ rw (cannot, if◌then◌else◌) (inr (inr (flying, quiet)), percents)
      ]

  take_first-Phase :
      IsDistinct (names manifest)
      → (pending : List ModelEntry) (reply : Reply) (d : Downloader)
      → Busy (record d { pending = pending; in_flight = 1 })
      → d.in_flight ≡ 0
      → ArePercents d.emitted
      → Phase (take_first sha256_hex writable dir pending reply d)
  unfolding take_first
  take_first-Phase distinct [] reply d (cover, inside, count, one, some_left, quiet) flying
        percents =
      absurd (omega arith)
  take_first-Phase distinct (x ∷ rest) reply d (cover, (here, inside), count, one, some_left, quiet)
        flying percents =
      take_reply-Phase distinct reply _ x (record d { pending = rest }) cover here inside count
        flying quiet percents

  checked-Phase : Phase (check_and_download sha256_hex writable manifest (new files))
  unfolding check_and_download download_next
  checked-Phase =
      by_pending (sort_cached sha256_hex writable files manifest)
        (sort_cached-IsSorted sha256_hex writable files manifest)
    where
      by_pending :
          (r : ℕ × List ModelEntry)
          → IsSorted sha256_hex writable files manifest r
          → let d : Downloader = record (new files) {
            total_count = length manifest;
            completed_count = r.0;
            pending = r.1;
          } in
            Phase
              (if is_empty r.1 then signal all_models_ready d else next sha256_hex writable r.1 d)
      by_pending (completed, []) (cover, inside, count) = (inr (inl (cover, refl)), tt)
      by_pending (completed, x ∷ rest) (cover, inside, count) =
          next-Phase (x ∷ rest)
            (record (new files) {
              total_count = length manifest;
              completed_count = completed;
              pending = x ∷ rest;
            })
            refl cover inside count refl refl tt

  on_progress-Phase :
      (received total : ℕ) (d : Downloader)
      → received ≤ total
      → 0 < d.in_flight
      → Phase d
      → Phase (on_progress sha256_hex writable received total d)
  unfolding on_progress
  on_progress-Phase received total d le flies h = elim (Bool-cases (ltb 0 total)) [
    | inl known ↦ rw (known, if◌then◌else◌) (by_phase known h)
    | inr unknown ↦ rw (unknown, if◌then◌else◌) h
  ]
    where
      by_phase :
          ltb 0 total ≡ true
          → Phase d
          → Phase (
              signal
                (download_progress
                  ((d.completed_count * 100 + received * 100 / total) / d.total_count))
                d)
      by_phase known (inl (cover, inside, count, one, some_left, quiet), percents) = (
        inl (cover, inside, count, one, some_left, quiet),
        (
          overall_percent d.completed_count (received * 100 / total) d.total_count (omega arith)
              (file_percent received total le known),
          percents,
        ),
      )
      by_phase known (inr (inl (cover, none_left)), percents) = absurd (omega arith)
      by_phase known (inr (inr (none_left, quiet)), percents) = absurd (omega arith)

  finished-Phase :
      IsDistinct (names manifest)
      → (reply : Reply) (d : Downloader) → 0 < d.in_flight
      → Phase d
      → Phase (on_download_finished sha256_hex writable dir reply d)
  unfolding on_download_finished
  finished-Phase distinct reply d flies
        (inl (cover, inside, count, one, some_left, quiet), percents) =
      take_first-Phase distinct d.pending reply (record d { in_flight = d.in_flight - 1 })
        (cover, inside, count, refl, some_left, quiet) (omega arith) percents
  finished-Phase distinct reply d flies (inr (inl (cover, none_left)), percents) =
      absurd (omega arith)
  finished-Phase distinct reply d flies (inr (inr (none_left, quiet)), percents) =
      absurd (omega arith)

  pub Reach-Phase :
      IsDistinct (names manifest)
      → (d : Downloader) → Reach sha256_hex writable dir manifest files d
      → Phase d
  Reach-Phase distinct _ checked = checked-Phase
  Reach-Phase distinct _ (progressed received total r flies le) =
      on_progress-Phase received total _ le flies (Reach-Phase distinct _ r)
  Reach-Phase distinct _ (finished reply r flies) =
      finished-Phase distinct reply _ flies (Reach-Phase distinct _ r)
