-- ===== src/Command.antt =====
-- cmd/imgpull/main.go: run, which reads the arguments and pulls.
pub mod Guarantees
pub mod Ending
use imgpull.Base.{
  ℕ, ◌≡◌, Bool, true, false, not, ◌&&◌, ◌||◌, Option, none, some, List, [], ◌∷◌, Bytes, codes,
  bytes_eq, is_empty, if◌then◌else◌, ℤ, pos,
}
use imgpull.Args.{expand_short_flags, split_positional}
use imgpull.Files.{Disk}
use imgpull.Pull.{Outside, PullConfig, Exit, pull}

-- The flags that `run` defines.
pub record Flags : Type 0 where
  pub platform : Bytes
  pub output : Bytes
  pub aria2_rpc : Bytes
  pub aria2_secret : Bytes
  pub concurrency : ℤ
  pub max_retries : ℤ
  pub export : Bytes
  pub username : Bytes
  pub password : Bytes
  pub proxy : Bytes
  pub insecure : Bool
  pub verify : Bool
  pub version : Bool
  pub help : Bool

abbrev pub defaults : Flags
defaults = record {
  platform = codes "linux/amd64";
  output = codes ".";
  aria2_rpc = [];
  aria2_secret = [];
  concurrency = pos 3;
  max_retries = pos 5;
  export = [];
  username = [];
  password = [];
  proxy = [];
  insecure = false;
  verify = false;
  version = false;
  help = false;
}

-- `(*FlagSet).Parse` of package flag, from the defaults and the arguments.
abbrev pub FlagParser : Type 0
FlagParser = Flags → List Bytes → Option Flags

-- The arguments as `run` splits them: the positional ones, and those for the flags.
abbrev pub arguments : List Bytes → List Bytes × List Bytes
arguments args = split_positional (expand_short_flags args)

abbrev pub config_of : Bytes → Flags → PullConfig
config_of image f = record {
  image = image;
  platform_flag = f.platform;
  aria2_rpc = f.aria2_rpc;
  aria2_secret = f.aria2_secret;
  concurrency = f.concurrency;
  max_retries = f.max_retries;
  export = f.export;
  username = f.username;
  password = f.password;
  proxy = f.proxy;
  insecure = f.insecure;
  verify = f.verify;
}

-- An export format that `run` refuses.
abbrev pub bad_export : Bytes → Bool
bad_export format = not (is_empty format) && not (bytes_eq format (codes "docker-archive"))

-- `run`, with the exit code and the disk below the download root. `none` is a poll that goes on.
unfoldable pub run_command : FlagParser → Outside → ℕ → List Bytes → Disk → Option Exit
unfolding pull expand_short_flags split_positional
run_command parse_flags o fuel args d = elim (parse_flags defaults ((arguments args).1)) [
  | none ↦ some (2, d)
  | some f ↦ if f.version || f.help then some (0, d) else (elim ((arguments args).0) [
    | [] ↦ some (2, d)
    | image ∷ more ↦ if bad_export f.export then some (2, d) else pull o (config_of image f) fuel d
  ])
]
