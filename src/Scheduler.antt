-- ===== src/Scheduler.antt =====
-- internal/downloader/scheduler.go: the state of a download and what lies outside of it.
pub mod Submit
pub mod Parts
pub mod Wait
pub mod Attempt
pub mod Download
pub mod Ready
pub mod Committed
pub mod Polling
pub mod Safety
pub mod Settling
pub mod Guarantees
pub mod Rounds
pub mod Ending
pub mod Stalling
pub mod Run
pub mod Each
pub mod Running
use imgpull.Base.{
  ℕ, ltb, ◌+◌, ◌==◌, ◌≡◌, Bool, true, false, Option, none, some, List, [], ◌∷◌, Bytes, get_elem?,
  if◌then◌else◌, Result,
}
use imgpull.Files.{FilePath, Disk}
use imgpull.Retry.{GoError}
use imgpull.Registry.{Net, Session, Repository}
use imgpull.Plan.{Task, World, Deps}

-- The status word of `aria2.tellStatus`.
pub data TaskState : Type 0 where
  complete error removed active waiting paused : TaskState
  unknown_state : Bytes → TaskState

-- `DownloadStatus`; of its files only the paths, since nothing reads their lengths.
pub record DownloadStatus : Type 0 where
  pub gid : Bytes
  pub status : TaskState
  pub error_code : Bytes
  pub error_message : Bytes
  pub total_length : Bytes
  pub completed_length : Bytes
  pub download_speed : Bytes
  pub files : List FilePath

-- The options of `aria2.addUri` that differ from task to task; the others are constants.
pub record Options : Type 0 where
  pub out : Bytes
  pub header : List Bytes
  pub checksum : Option Bytes
  pub all_proxy : Bytes

-- The aria2 daemon at every step: what it and others have done to the disk since the step before,
-- and its answers. `text` is the `Error` method of an error.
pub record Aria2 : Type 0 where
  pub works : ℕ → Disk → Disk
  pub tell_active : ℕ → Result GoError (List DownloadStatus)
  pub tell_waiting : ℕ → Result GoError (List DownloadStatus)
  pub tell_status : ℕ → Bytes → Result GoError DownloadStatus
  pub add_uri : ℕ → Bytes → Options → Result GoError Bytes
  pub text : GoError → Bytes

-- `Scheduler` with what its methods use; `auth` says that there is an authenticator.
pub record Config : Type 0 where
  pub deps : Deps
  pub net : Net
  pub aria2 : Aria2
  pub repo : Repository
  pub auth : Bool
  pub proxy : Bytes
  pub max_retries : ℕ

-- What a download changes: the plan and the disk, and the registry session with the step number.
pub record Sched : Type 0 where
  pub world : World
  pub session : Session

abbrev pub Outcome : Type 0
Outcome = Sched × Result GoError (Unit {0})

-- A step of the world outside.
unfoldable pub pass : Config → Sched → Sched
pass c s = record {
  world = record (s.world) { disk = c.aria2.works (s.session.tick) (s.world.disk) };
  session = record (s.session) { tick = s.session.tick + 1 };
}

abbrev pub time : Config → Sched → ℕ
time c s = c.net.now (s.session.tick)

abbrev pub in_world : (World → World) → Sched → Sched
in_world f s = record s { world = f (s.world) }

-- The task at `i` as it stands, and `t` where there is none.
abbrev pub current : ℕ → Task → Sched → Task
current i t s = elim (get_elem? (s.world.plan.objects) i) [ none ↦ t | some u ↦ u ]
