-- ===== src/Rpc/Reading.antt =====
-- internal/downloader/aria2.go: the numbers of a status.
use imgpull.Base.{ℕ, ◌≡◌, ◌<◌, refl, int64_cutoff, decimal, pos, parse_int-decimal}
use imgpull.Scheduler.{DownloadStatus}
use imgpull.Rpc.{progress}

-- Progress reads back three counts that aria2 prints in base ten, as far as they fit an `int64`.
pub progress-decimal :
    (s : DownloadStatus) (done total speed : ℕ)
    → done < int64_cutoff
    → total < int64_cutoff
    → speed < int64_cutoff
    → progress (record s {
      completed_length = decimal done;
      total_length = decimal total;
      download_speed = decimal speed;
    })
      ≡ (pos done, pos total, pos speed)
unfolding progress
progress-decimal s done total speed d t v =
    rw (parse_int-decimal done d, parse_int-decimal total t, parse_int-decimal speed v) refl
