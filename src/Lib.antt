-- ===== src/Lib.antt =====
-- imgpull pulls a container image over aria2: it resolves a reference and a manifest, makes a plan of
-- the blobs, downloads each blob into a .part file, verifies it and moves it into place.
--
-- Parts of the program, and the modules that model them:
--
-- internal/fsx/fsx.go, WriteFileAtomic: Files has the paths of an image directory, the disk with the
-- calls that may fail, and the write as a list of steps; Files/Atomic what it leaves behind. HumanSize
-- is in Progress/Size.
-- internal/verify/: Verify has FileDigest, FileSize and Blob; Verify/Laws when Blob accepts a file.
-- internal/registry/platform.go: Platform has ParsePlatform, String, Matches and SelectPlatform.
-- internal/reference/parse.go: Reference has Parse, RefDir and ShortDigest.
-- internal/registry/manifest.go: Manifest has the two types that the plan reads, Manifest/Fetch the walk
-- from a descriptor to a manifest, Manifest/Retrying ResolveManifestOpts; Manifest/Checked is about what
-- a fetched manifest is like.
-- internal/plan/planner.go and state.go: the module Plan has the records and the state file, its child
-- Tasks the methods that change or count tasks, Reconcile blobExists, commitFile and reconcileTask, and
-- Build the lock, loadState, Build and Release. Saving is about the state file, Sound has the invariant
-- of a plan, Committing, Reconciling and Building show that the operations keep it, Guarantees has what
-- Build promises, and Counting is about the counts.
-- internal/downloader/retry.go: Retry has errors as chains, their classes, and the backoff.
-- internal/registry/auth.go: Registry has the records, Registry/Challenge parseChallenge,
-- Registry/Escape urlEscape and encodeQuery, Registry/Auth the token exchange and Header.
-- internal/registry/client.go: Registry/Address has registryScheme and parseURLExpiry, Registry/Client
-- ResolveBlobURL and ProbeRangeBlind; Client/Laws is about the headers that go with a URL.
-- internal/downloader/scheduler.go: Scheduler has the state of a download; Scheduler/Submit has
-- submitTask and findExistingTask, Scheduler/Parts precheck and verifyAndCommit, Scheduler/Wait
-- waitTask, Scheduler/Attempt attempt, Scheduler/Download downloadObject. Scheduler/Ready, Committed,
-- Polling, Safety and Settling carry the plan's invariant through a download, Scheduler/Guarantees
-- what it promises, Scheduler/Rounds and Ending that it ends, Scheduler/Stalling a path on which
-- it does not. Scheduler/Run has Run, Scheduler/Each and Running what it leaves in the plan.
-- internal/downloader/aria2.go: Rpc has the client's record, the requests and the reading of answers,
-- Rpc/Call the client's Call and its methods, Rpc/Daemon StartDaemon and Stop. Rpc/Service sets the client
-- against an aria2 that answers requests, Rpc/Startup is about how StartDaemon ends, Rpc/Endpoint about
-- NormalizeEndpoint and Rpc/Reading about the numbers of a status.
-- internal/downloader/progress.go: Progress has the panel and Logf, Progress/Lines its rows,
-- Progress/Screen Render and what a terminal shows, Progress/Collect setLive, toLive,
-- snapshot and the line on a pipe. Progress/Size has HumanSize; Progress/Rows is about the rows, and
-- Collect/Laws about the snapshot.
-- internal/oci/layout.go: Layout has EnsureLayout and WriteIndex, Layout/Laws what they write.
-- cmd/imgpull/main.go: Args has expandShortFlags and splitPositional, Args/Laws what they keep apart.
-- Command has run, and Command/Guarantees what the program promises, Command/Ending that it ends;
-- Pull has parseProxy, connectAria2 and pull, composed of the parts above; Pull/Verified, Fetching
-- and Guarantees are about what a pull that exits with 0 leaves on the disk. Plan/Places and Placing
-- connect the places of the plan's list with the manifest for it.
-- Base has the helpers: texts as lists of bytes, lists, Boolean tests, results and decimal numbers.
-- Tests has runs at concrete inputs.
--
-- The plan and the scheduler meet in the record World, a plan with the disk: Build makes one and a
-- download goes on with it, and the invariant Sound of Plan/Sound is what the one hands to the other.
-- A task pointer is an index into the plan's list. The client and the authenticator share the record
-- Session, which counts the steps that the world outside takes; Net, Aria2, Deps, Wire and Host
-- hold what lies outside (the network, the context, the clock, aria2, the digests, v1.NewHash, JSON and
-- the operating system), and Aria2 may change the disk at every step. Every function below takes these as
-- arguments. Pull makes Aria2 of the client of Rpc, and runs Build, Run and WriteIndex on one disk.
--
-- Bounds and fuel: numbers are natural numbers, and TotalBytes and DoneBytes wrap around at 64 bits; the
-- sizes of a manifest are taken to be not negative. The submission is given four rounds, of which each
-- but the last drops an option. A challenge is scanned with as much fuel as it has bytes. A poll has
-- fuel for its rounds, and the result `none` is a poll that still goes on; Scheduler/Ending has how
-- much fuel is enough when the context ends. StartDaemon has fuel for the rounds of its loop; with
-- 100 ms between rounds 152 are enough for its 15 seconds, and 52 for the five seconds of Stop. The
-- loop of HumanSize has seven rounds, one
-- more than an `int64` has units, and a decimal number has as many digits at most as its value
-- plus one.
--
-- Not modelled: the parser of package flag, a parameter of Command; signals, the usage text and the
-- messages of cmd/imgpull; internal/export and TagRef, which are calls of go-containerregistry;
-- constructors that
-- only wire transports; the mutexes, since every method of a plan holds its own throughout; the interleaving
-- of several workers, so in a Run the tasks take turns, one after another, in any order; stopTask, the
-- loop that draws the panel and the warning about downloads without resume; RemoveDownloadResult, which
-- acts on aria2's list alone. The check of a .part and its rename are one step, so nothing may act on the
-- file in between. The disk keeps `locked` for the advisory lock, beside the file .imgpull.lock, which
-- whoever holds the lock is taken to have made. Text for messages is kept only where the code reads it or
-- the panel prints it.
pub mod Base
pub mod Files
pub mod Verify
pub mod Platform
pub mod Reference
pub mod Manifest
pub mod Plan
pub mod Retry
pub mod Rpc
pub mod Progress
pub mod Layout
pub mod Pull
pub mod Command
pub mod Registry
pub mod Scheduler
pub mod Args
pub mod Tests
