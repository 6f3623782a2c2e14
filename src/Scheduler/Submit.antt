-- ===== src/Scheduler/Submit.antt =====
-- internal/downloader/scheduler.go: `submitTask` and `findExistingTask`.
use mathlib.Core.Logic.{ite}
use imgpull.Base.{
  ℕ, zero, suc, ltb, leb, ◌+◌, ◌==◌, Bool, true, false, not, ◌&&◌, ◌||◌, Option, none, some, List,
  [], ◌∷◌, ◌++◌, Bytes, codes, bytes_eq, contains, is_empty, drop, if◌then◌else◌, Result, ok, err,
}
use imgpull.Files.{FilePath, FilePath-discrete}
use imgpull.Verify.{Hash}
use imgpull.Retry.{GoError, wrapped, rpc_error, retryable_error, is_canceled}
use imgpull.Plan.{Task, part_path}
use imgpull.Scheduler.{DownloadStatus, Options, Config, Sched, pass}

-- The type assertion on `*rpcError`, which looks at the error itself and not down its chain.
unfoldable pub rejects_options : GoError → Bool
rejects_options (rpc_error code message) =
    code == 15 || (code == 16 || contains message (codes "option"))
rejects_options _ = false

-- aria2 spells the algorithm with a hyphen.
abbrev checksum_of : Hash → Option Bytes
checksum_of h =
    if not (is_empty h.hex)
      && (bytes_eq h.algorithm (codes "sha256") || bytes_eq h.algorithm (codes "sha512"))
    then some (codes "sha-" ++ (drop 3 h.algorithm ++ b'=' ∷ h.hex))
    else none

unfoldable pub first_options : Config → Task → List Bytes → Options
first_options c t headers = record {
  out = t.part_name;
  header = headers;
  checksum = checksum_of t.hash;
  all_proxy = c.proxy;
}

-- What the loop drops after its round number `n`: the checksum, then the headers, then the proxy.
unfoldable pub simplify : ℕ → Options → Options
simplify n o = record o {
  checksum = none;
  header = if leb 1 n then [] else o.header;
  all_proxy = if leb 2 n then [] else o.all_proxy;
}

-- The loop of `submitTask`, with the rounds left and the number of this one.
unfoldable pub submit_loop :
    Config → ℕ → ℕ → Bytes → Options → Sched → Option (Sched × Result GoError Bytes)
submit_loop c zero n url o s = none
submit_loop c (suc fuel) n url o s =
    let s' = pass c s in
    elim (c.aria2.add_uri (s.session.tick) url o) [
      | ok gid ↦ some (s', ok gid)
      | err e ↦ elim (is_canceled e) [
        | true ↦ some (s', err e)
        | false ↦ elim (rejects_options e && ltb n 3) [
          | true ↦ submit_loop c fuel (n + 1) url (simplify n o) s'
          | false ↦ some (s', err (retryable_error (wrapped e)))
        ]
      ]
    ]

-- Whether a live download writes to the file.
unfoldable pub writes_to : FilePath → List FilePath → Bool
writes_to part [] = false
writes_to part (f ∷ fs) = ite (FilePath-discrete f part) true (writes_to part fs)

unfoldable pub find_gid : FilePath → List DownloadStatus → Bytes
unfolding writes_to
find_gid part [] = []
find_gid part (st ∷ sts) =
    let later = find_gid part sts in if writes_to part st.files then st.gid else later

-- `findExistingTask`; an empty gid is none.
unfoldable pub find_existing_task : Config → Task → Sched → Sched × Result GoError Bytes
find_existing_task c t s =
    let s' = pass c s in
    elim (c.aria2.tell_active (s.session.tick)) [
      | err e ↦ (s', err (retryable_error (wrapped e)))
      | ok running ↦
          let s'' = pass c s' in
          elim (c.aria2.tell_waiting (s'.session.tick)) [
            | err e ↦ (s'', err (retryable_error (wrapped e)))
            | ok queued ↦ (s'', ok (find_gid (part_path t) (running ++ queued)))
          ]
    ]
