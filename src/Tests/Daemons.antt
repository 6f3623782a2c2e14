-- ===== src/Tests/Daemons.antt =====
-- The client of aria2, and the daemon, at concrete inputs.
use imgpull.Base.{
  has_suffix, contains, has_prefix, digits_before, ◌≢◌, ◌⊎◌, ◌*◌, ◌≡◌, refl, true, false, none,
  some, is_some, [], ◌∷◌, codes, second, pos, ok, err, arith, if◌then◌else◌, ◌==◌, decimal,
}
use imgpull.Retry.{plain, canceled}
use imgpull.Rpc.{Wire, Rpc}
use imgpull.Rpc.Service.{returned, Service, Serves, client, direct, client_refines}
use imgpull.Scheduler.{complete}
use imgpull.Rpc.{request_id, authorize, read_limited, interpret, open_envelope}
use imgpull.Rpc.Call.{get_version, call, exchange, request_of, shutdown}
use imgpull.Rpc.Endpoint.{normalize_endpoint}
use imgpull.Rpc.Daemon.{
  Host, DaemonOptions, Start, gone, running, proxy_env_map, start_daemon, wait_ready, react,
  selected, stop, wait_gone, prepare, random_secret, hex_encode, new_rpc, daemon_args, proxy_args,
}
use imgpull.Rpc.{progress}
use imgpull.Rpc.Reading.{progress-decimal}
use imgpull.Rpc.Endpoint.{with_scheme, Normalized, normalize_endpoint_lem}
use imgpull.Rpc.Startup.{Ticks, IsTidy, start_daemon_ends, start_daemon-IsTidy}
use imgpull.Tests.Downloads.{written, done_status}

-- A wire that brings the same bytes on every request.
abbrev pub plain_wire : Wire
plain_wire = record {
  pid = 7;
  marshal = λ q. ok q.method;
  unmarshal = λ content. ok (record { id = []; result = content; error = none });
  bad_endpoint = λ _. none;
  post = λ _ _ _. ok (record { status = 200; content = []; broken = none });
  read_text = λ _. ok (codes "1");
  read_status = λ _. ok (done_status complete);
  read_statuses = λ _. ok [];
  read_version = λ _. ok (codes "1.37");
}

abbrev pub plain_rpc : Rpc
plain_rpc = record { endpoint = codes "http://h/jsonrpc"; secret = codes "s"; id = 0 }

abbrev plain_service : Service
plain_service _ _ _ = returned []

plain_Serves : Serves plain_wire plain_rpc plain_service
plain_Serves = record {
  reachable = refl;
  answered = λ tick q params version presents. (
    q.method,
    record { status = 200; content = []; broken = none },
    refl,
    refl,
    refl,
    omega arith,
    (refl, [], refl),
  );
}

client_refines_example :
    client plain_wire plain_rpc (λ n. n) written (λ _. [])
    ≡ direct plain_wire plain_service written (λ _. [])
client_refines_example =
    client_refines plain_wire plain_rpc plain_service plain_Serves (λ n. n) written (λ _. [])

-- A machine on which aria2c starts; the clock goes on by a second from round to round.
abbrev pub machine : Host
machine = record {
  look_path = λ _. ok (codes "/usr/bin/aria2c");
  listen = ok 6800;
  random = ok (171 ∷ 7 ∷ []);
  mkdir_failure = λ _. none;
  pipe_failure = none;
  start_failure = λ _ _. none;
  getenv = λ _. [];
  proxy_order = proxy_env_map;
  pid = 7;
  started = 0;
  now = λ n. n * second;
  context = λ _. none;
  exited = λ _. false;
  picks_context = λ _. true;
  stderr = λ _. [];
  exits_after = λ _ _. true;
}

abbrev options : DaemonOptions
options = record { dir = codes "tmp"; log_path = []; concurrent_downloads = pos 3 }

pub machine-Ticks : Ticks machine
machine-Ticks = (omega arith, λ n. omega arith)

start_daemon_ends_example : is_some (start_daemon machine plain_wire options 152) ≡ true
start_daemon_ends_example = start_daemon_ends machine plain_wire options machine-Ticks

-- A wire that does not answer, and a context that is over in the second round.
abbrev silent_wire : Wire
silent_wire = record plain_wire { post = λ _ _ _. err (plain []) }

abbrev stopped_machine : Host
stopped_machine = record machine { context = λ n. if n == 1 then some canceled else none }

abbrev stopped : Start
stopped = (gone, err canceled)

stopped_start : start_daemon stopped_machine silent_wire options 152 ≡ some stopped
unfolding start_daemon wait_ready react selected stop prepare random_secret hex_encode new_rpc
    normalize_endpoint daemon_args proxy_args get_version call exchange request_of request_id
    authorize read_limited interpret open_envelope shutdown wait_gone
stopped_start = refl

-- On a machine where aria2c answers at once.
abbrev started : Start
started = (
  running,
  ok (record {
    rpc = record {
      endpoint = codes "http://127.0.0.1:6800/jsonrpc";
      secret = codes "ab07";
      id = 1;
    };
    port = 6800;
    secret = codes "ab07";
  }),
)

started_at_once : start_daemon machine plain_wire options 152 ≡ some started
unfolding start_daemon wait_ready prepare random_secret hex_encode new_rpc normalize_endpoint
    daemon_args proxy_args get_version call exchange request_of request_id authorize read_limited
    interpret open_envelope with_scheme has_suffix contains has_prefix decimal digits_before
started_at_once = refl

start_daemon-IsTidy_example : IsTidy machine plain_wire started
start_daemon-IsTidy_example = start_daemon-IsTidy machine plain_wire options 152 started_at_once

progress-decimal_example :
    progress (record (done_status complete) {
      completed_length = decimal 1048576;
      total_length = decimal 9000000000;
      download_speed = decimal 0;
    })
    ≡ (pos 1048576, pos 9000000000, pos 0)
progress-decimal_example =
    progress-decimal (done_status complete) 1048576 9000000000 0 (omega arith) (omega arith)
      (omega arith)

-- A host with a port and no scheme.
normalize_endpoint_lem_example :
    ((codes "h:1/" ≡ []) × (normalize_endpoint (codes "h:1/") ≡ []))
    ⊎ ((codes "h:1/" ≢ []) × Normalized (codes "h:1/") (normalize_endpoint (codes "h:1/")))
normalize_endpoint_lem_example = normalize_endpoint_lem (codes "h:1/")
