-- ===== src/Sync/Tests.antt =====
-- Rounds of the sync on concrete manifests.
use pocket_dev.Base.{
  ◌≡◌, ℕ, String, refl, arith, none, some, List, [], ◌∷◌, All, Result, ok, err, failure,
  if◌then◌else◌, codes, ◌==◌,
}
use pocket_dev.Base.Dict.{get, put, erase, Dict}
use pocket_dev.Server.Db.{Db, Project, find_unique}
use pocket_dev.Server.Projects.{find_project_of, update_manifest}
use pocket_dev.Sync.Manifest.{
  FileManifestEntry, FileManifest, ManifestDiff, compute_diff, is_in, is_inherited,
}
use pocket_dev.Sync.Gateway.{
  FileStore, SyncClientMessage, SyncState, Event, frame, resumed, close, persisted, run, step,
  begin, pick, complete, connected,
}
use pocket_dev.Sync.Gateway.Owned.{Mine, OwnKeeps, run-Keeps}
use pocket_dev.Sync.Gateway.Order.{persists_after_failure, project_row, with_manifest}
use pocket_dev.Sync.Client
use pocket_dev.Sync.Client.{SyncResult, resolved, begun, pushed, push_diff}
use pocket_dev.Sync.Serial
use pocket_dev.Sync.Serial.{
  request, finished, idle, requests, is_start, is_end, one_at_a_time, request_answered,
  burst_runs_once,
}

abbrev entry_of : String → String → FileManifestEntry
entry_of path hash = record { path = path; size = 1; mtime_ms = 5; hash = hash }

abbrev old_manifest : FileManifest
old_manifest = ("a.ts", entry_of "a.ts" "h1") ∷ ("b.ts", entry_of "b.ts" "h2") ∷ []

abbrev new_manifest : FileManifest
new_manifest = ("a.ts", entry_of "a.ts" "h9") ∷ ("c.ts", entry_of "c.ts" "h3") ∷ []

finds_diff :
    compute_diff old_manifest new_manifest
    ≡ record { changed = "a.ts" ∷ "c.ts" ∷ []; removed = "b.ts" ∷ [] }
unfolding compute_diff get is_in is_inherited
finds_diff = refl

-- A file whose name every object inherits is never removed.
keeps_inherited :
    compute_diff (("constructor", entry_of "constructor" "h1") ∷ []) []
    ≡ record { changed = []; removed = [] }
unfolding compute_diff get is_in is_inherited
keeps_inherited = refl

abbrev project1 : Project
project1 = record {
  id = "p1";
  user_id = "alice";
  name = codes "Notes";
  slug = codes "notes";
  description = none;
  manifest = some old_manifest;
  last_synced_at = none;
}

abbrev rows1 : Db
rows1 = record {
  users = [];
  projects = project1 ∷ [];
  jobs = [];
  sessions = [];
  subscriptions = [];
  presences = [];
}

-- A store that keeps the content of every path, and one that refuses to write.
abbrev keeping : FileStore (Dict String)
keeping = record {
  write_base64 = λ u p path content files. (ok 1, put path content files);
  remove = λ u p path files. (ok tt, erase path files);
}

abbrev full : FileStore (Dict String)
full = record {
  write_base64 = λ u p path content files. (err (failure "ENOSPC"), files);
  remove = λ u p path files. (ok tt, erase path files);
}

abbrev round : List Event
round =
    frame (some (SyncClientMessage.manifest "p1" new_manifest))
    ∷ resumed 0 10
    ∷ frame (some (SyncClientMessage.file "p1" "a.ts" "eA=="))
    ∷ resumed 0 11
    ∷ frame (some (SyncClientMessage.done "p1"))
    ∷ resumed 0 12
    ∷ []

-- A store that lists whose files it has been asked to write or remove.
abbrev listing : FileStore (List (String × String))
listing = record {
  write_base64 = λ u p path content asked. (ok 1, (u, p) ∷ asked);
  remove = λ u p path asked. (ok tt, (u, p) ∷ asked);
}

abbrev OwnAsked : List (String × String) → Type 0
OwnAsked asked = All (λ a. (a.0 ≡ "alice") × Mine listing "alice" rows1 a.1) asked

abbrev NoJobs : Db → Type 0
NoJobs db = db.jobs ≡ []

persist-NoJobs :
    (id : String) (m : FileManifest) (now : ℕ) (db : Db)
    → NoJobs db
    → NoJobs (update_manifest "alice" id m now db).1
unfolding update_manifest find_project_of
persist-NoJobs id m now db h = ground (arith, h)

listing-OwnKeeps : OwnKeeps listing "alice" rows1 OwnAsked NoJobs
listing-OwnKeeps = record {
  write = λ id path content f mine own. ((refl, mine), own);
  remove = λ id path f mine own. ((refl, mine), own);
  persist = λ id m now db mine h. persist-NoJobs id m now db h;
}

run-Keeps_example :
    let end = (run listing round (connected "alice" rows1 [])).0 in
    OwnAsked end.files × NoJobs end.db
run-Keeps_example =
    run-Keeps listing "alice" rows1 OwnAsked NoJobs listing-OwnKeeps round [] tt refl

-- The round asks for the one file.
round_asks : (run listing round (connected "alice" rows1 [])).0.files ≡ ("alice", "p1") ∷ []
unfolding run step begin pick complete find_project_of find_unique update_manifest compute_diff
round_asks = refl

abbrev advertised : SyncState (Dict String)
advertised = record (connected {F = Dict String} "alice" rows1 []) {
  conn = record { user_id = "alice"; project_id = some "p1"; pending_manifest = some new_manifest };
}

persists_after_failure_example :
    let (t, out) =
      run full
        (frame (some (SyncClientMessage.file "p1" "a.ts" "eA=="))
          ∷ resumed 0 11
          ∷ frame (some (SyncClientMessage.done "p1"))
          ∷ resumed 0 12
          ∷ [])
        advertised in
    (out ≡ close 1011 (failure "ENOSPC") ∷ persisted "alice" "p1" new_manifest ∷ [])
    × (project_row "p1" t.db ≡ some (with_manifest new_manifest 12 project1))
unfolding find_project_of find_unique
persists_after_failure_example =
    persists_after_failure full advertised "p1" "a.ts" "eA==" new_manifest project1 11 12
      (failure "ENOSPC") refl refl refl refl refl

abbrev reads_a : String → Result String
reads_a path = if path == "a.ts" then ok "eA==" else err (failure "ENOENT")

abbrev done_round : Client.Round
done_round = record begun { settled = some (resolved (record { changed = 1; removed = 0 })) }

abbrev asked : ManifestDiff
asked = record { changed = "a.ts" ∷ "c.ts" ∷ []; removed = "b.ts" ∷ [] }

abbrev burst : List Serial.Event
burst = request ∷ request ∷ request ∷ finished ∷ []

-- The agent's manifest after its files have been written again with what they held.
abbrev touched : FileManifest
touched =
    ("a.ts", record (entry_of "a.ts" "h1") { mtime_ms = 9 })
    ∷ ("b.ts", record (entry_of "b.ts" "h2") { mtime_ms = 9 })
    ∷ []
