-- ===== src/Progress/Collect.antt =====
-- internal/downloader/progress.go and scheduler.go: the live objects of a scheduler, and what the panel
-- shows of them.
pub mod Laws
use imgpull.Base.{
  ℕ, ltb, ◌+◌, ◌-◌, ◌==◌, Bool, true, false, ◌&&◌, ◌||◌, Option, none, some, List, [], ◌∷◌, ◌++◌,
  Bytes, codes, bytes_eq, length, decimal, to_bits, cut, take, if◌then◌else◌,
}
use imgpull.Plan.{Task, Plan, Kind, manifest, config, layer}
use imgpull.Plan.Tasks.{i64, pending_objects, total_bytes, done_bytes}
use imgpull.Scheduler.{DownloadStatus}
use imgpull.Rpc.{progress}
use imgpull.Progress.{Format, ObjView, Snapshot, Output, Panel, line, log_prefix}
use imgpull.Progress.Size.{human_size}
use imgpull.Progress.Lines.{◌>>=◌, sum_speed}
use imgpull.Progress.Screen.{render}

-- `liveInfo`
pub record LiveInfo : Type 0 where
  pub kind : Kind
  pub state : Bytes
  pub done : ℕ
  pub total : ℕ
  pub speed : ℕ

-- `live`, the map from digests, in the order in which Go happens to walk it.
abbrev pub Live : Type 0
Live = List (Bytes × LiveInfo)

-- `delete(s.live, digest)`
unfoldable pub delete_live : Bytes → Live → Live
delete_live digest [] = []
delete_live digest ((key, li) ∷ live) =
    let rest = delete_live digest live in if bytes_eq key digest then rest else (key, li) ∷ rest

-- `setLive`
unfoldable pub set_live : Task → Option LiveInfo → Live → Live
unfolding delete_live
set_live t none live = delete_live t.digest live
set_live t (some li) live = (t.digest, li) ∷ delete_live t.digest live

-- `toLive`
unfoldable pub to_live : Task → DownloadStatus → LiveInfo
unfolding progress
to_live t st =
    let (done, total, speed) = progress st in
    record {
      kind = t.kind;
      state = codes "down";
      done = to_bits done;
      total = if to_bits total == 0 then t.size else to_bits total;
      speed = to_bits speed;
    }

-- `clearLive`
unfoldable pub clear_live : Live → Live
clear_live [] = []
clear_live ((key, li) ∷ live) = (key, record li { speed = 0 }) ∷ clear_live live

abbrev pub kind_text : Kind → Bytes
kind_text manifest = codes "manifest"
kind_text config = codes "config"
kind_text layer = codes "layer"

-- `short`
unfoldable pub short : Bytes → Bytes
short digest =
    let hex : Bytes = elim (cut digest b':') [ none ↦ digest | some (_, rest) ↦ rest ] in
    if ltb 12 (length hex) then take 12 hex else hex

abbrev pub view_of : Bytes × LiveInfo → ObjView
view_of (digest, li) = record {
  label = kind_text li.kind ++ b' ' ∷ short digest;
  state = li.state;
  done = li.done;
  total = li.total;
  speed = li.speed;
}

unfoldable pub views : Live → List ObjView
unfolding short
views [] = []
views (entry ∷ live) = view_of entry ∷ views live

-- `a < b` on strings.
unfoldable pub bytes_lt : Bytes → Bytes → Bool
bytes_lt [] [] = false
bytes_lt [] (y ∷ ys) = true
bytes_lt (x ∷ xs) [] = false
bytes_lt (x ∷ xs) (y ∷ ys) = ltb x y || (x == y && bytes_lt xs ys)

-- `sort.Slice` by label. Where labels agree the order is that of the walk, which is any order.
unfoldable pub insert_view : ObjView → List ObjView → List ObjView
unfolding bytes_lt
insert_view v [] = v ∷ []
insert_view v (w ∷ ws) =
    let rest = insert_view v ws in if bytes_lt w.label v.label then w ∷ rest else v ∷ w ∷ ws

unfoldable pub sort_views : List ObjView → List ObjView
unfolding insert_view
sort_views [] = []
sort_views (v ∷ vs) = insert_view v (sort_views vs)

-- The loop that adds the bytes of the active objects.
unfoldable pub add_done : ℕ → List ObjView → ℕ
add_done n [] = n
add_done n (o ∷ os) = add_done (i64 (n + o.done)) os

-- `snapshot`, with the time since the start of the run.
unfoldable pub snapshot : Plan → Live → ℕ → Snapshot
unfolding views sort_views add_done pending_objects done_bytes total_bytes
snapshot p live elapsed =
    let active = sort_views (views live) in
    record {
      done_objects = length p.objects - length (pending_objects p.objects);
      total_objects = length p.objects;
      done_bytes = add_done (done_bytes p) active;
      total_bytes = i64 (done_bytes p + total_bytes p);
      active = active;
      elapsed = elapsed;
    }

-- The line on a pipe.
abbrev pub summary_line : Snapshot → Bytes → Bytes → Bytes → Bytes
summary_line s done total speed =
    log_prefix
    ++ (codes "progress "
        ++ (decimal s.done_objects
            ++ (b'/'
                ∷ (decimal s.total_objects
                    ++ (codes " files committed | "
                        ++ (done
                            ++ (codes " / "
                                ++ (total
                                    ++ (codes " | "
                                        ++ (speed
                                            ++ (codes "/s | "
                                                ++ (decimal (length s.active)
                                                    ++ codes " active"))))))))))))

unfoldable pub render_line : Format → Snapshot → Option (List Output)
unfolding human_size sum_speed
render_line f s = elim s.active [
  | [] ↦ some []
  | _ ∷ _ ↦ do
    done ← human_size f s.done_bytes
    total ← human_size f s.total_bytes
    speed ← human_size f (sum_speed s.active)
    some (line (summary_line s done total speed) ∷ [])
]

-- `renderProgress`
unfoldable pub render_progress : Format → Plan → Live → ℕ → Panel → Option (Panel × List Output)
unfolding snapshot render render_line
render_progress f p live elapsed panel =
    let snap = snapshot p live elapsed in
    elim panel.tty [
      | true ↦ render f snap panel
      | false ↦ do out ← render_line f snap; some (panel, out)
    ]
