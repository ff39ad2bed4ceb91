-- ===== src/Worker/Containers.antt =====
-- The containers of the sessions (services/execution-worker/src/docker.ts). The daemon is the state: its
-- containers. What its calls answer is a parameter of each operation.
use pocket_dev.Base.{
  ℕ, ◌*◌, String, Text, codes, ◌≡◌, refl, Bool, true, false, not, ◌||◌, Option, none, some, List,
  [], ◌∷◌, ◌++◌, arith, ◌==◌, eq_iff, keep, All, if◌then◌else◌, Result, ok, err, Exception,
}
use pocket_dev.Files.SafePath.{project_dir}

-- `config.docker`
pub record DockerConfig : Type 0 where
  pub image : String
  pub runtime : String
  pub memory_mb : ℕ
  pub nano_cpus : ℕ
  pub pids_limit : ℕ
  pub network : Bool
  pub readonly_rootfs : Bool
  pub user : Option String

-- `ProvisionOpts`
pub record ProvisionOpts : Type 0 where
  pub user_id : Text
  pub project_id : Text
  pub session_id : Text
  pub job_id : Text

-- What `createContainer` is asked for.
pub record ContainerSpec : Type 0 where
  pub image : String
  pub name : Text
  pub cmd : List String
  pub working_dir : String
  pub user : Option String
  pub session : Bool
  pub session_id : Text
  pub job_id : Text
  pub owner_id : Text
  -- the directory of the host that is mounted at /workspace
  pub bind : List Text
  pub memory : ℕ
  pub nano_cpus : ℕ
  pub pids_limit : ℕ
  pub cap_drop : List String
  pub cap_add : List String
  pub security_opt : List String
  pub readonly_rootfs : Bool
  pub network_mode : String
  pub runtime : String

pub record Container : Type 0 where
  pub id : String
  pub spec : ContainerSpec

abbrev pub keep_caps : List String
keep_caps = "CHOWN" ∷ "DAC_OVERRIDE" ∷ "FOWNER" ∷ "FSETID" ∷ "SETGID" ∷ "SETUID" ∷ []

unfoldable pub session_spec : List Text → DockerConfig → ProvisionOpts → ContainerSpec
session_spec root d opts = record {
  image = d.image;
  name = codes "pocketdev-" ++ opts.session_id;
  cmd = "sleep" ∷ "infinity" ∷ [];
  working_dir = "/workspace";
  user = d.user;
  session = true;
  session_id = opts.session_id;
  job_id = opts.job_id;
  owner_id = opts.user_id;
  bind = project_dir root opts.user_id opts.project_id;
  memory = d.memory_mb * 1024 * 1024;
  nano_cpus = d.nano_cpus;
  pids_limit = d.pids_limit;
  cap_drop = "ALL" ∷ [];
  cap_add = keep_caps;
  security_opt = "no-new-privileges" ∷ [];
  readonly_rootfs = d.readonly_rootfs;
  network_mode = if d.network then "bridge" else "none";
  runtime = d.runtime;
}

-- `container.remove({ force: true })`, where the daemon agrees.
unfoldable pub remove_container : String → List Container → List Container
remove_container id cs = keep (λ c. not (c.id == id)) cs

-- `container.start()`, which throws with this reason or not; the clean-up may fail too.
abbrev pub start_container :
    String → Option Exception → Bool → List Container → Result String × List Container
start_container id none removable cs = (ok id, cs)
start_container id (some e) removable cs = (err e, if removable then remove_container id cs else cs)

-- `createSessionContainer`; `made` is what `createContainer` answers, an id or what it throws.
unfoldable pub create_session_container :
    List Text
    → DockerConfig
    → ProvisionOpts
    → Result String
    → Option Exception
    → Bool
    → List Container
    → Result String × List Container
unfolding session_spec remove_container
create_session_container root d opts (err e) failed removable cs = (err e, cs)
create_session_container root d opts (ok id) failed removable cs =
    start_container id failed removable
      (cs ++ record { id = id; spec = session_spec root d opts } ∷ [])

-- `destroyContainer`
unfoldable pub destroy_container : String → Bool → List Container → List Container
unfolding remove_container
destroy_container id removable cs = if removable then remove_container id cs else cs

-- `reapOrphans`; `removable` says which containers the daemon removes.
unfoldable pub reap_orphans : (String → Bool) → List Container → List Container
reap_orphans removable cs = keep (λ c. not c.spec.session || not (removable c.id)) cs

-- No container has this id.
abbrev pub IsFresh : String → List Container → Type 0
IsFresh id cs = All (λ c. (c.id == id) ≡ false) cs

remove-append_new :
    (id : String) (new : Container) (cs : List Container)
    → new.id ≡ id
    → IsFresh id cs
    → remove_container id (cs ++ new ∷ []) ≡ cs
unfolding remove_container
remove-append_new id new [] e f = ground (arith, eq_iff new.id id)
remove-append_new id new (c ∷ cs) e f = ground (arith, remove-append_new id new cs)

-- A container that was made and does not start is not left behind: where the daemon removes it, a
-- creation that throws leaves the containers as they were.
pub create_session_container-err :
    (root : List Text) (d : DockerConfig) (opts : ProvisionOpts) (id : String)
    (failed : Option Exception) (e : Exception) (cs : List Container)
    → IsFresh id cs
    → (create_session_container root d opts (ok id) failed true cs).0 ≡ err e
    → (create_session_container root d opts (ok id) failed true cs).1 ≡ cs
unfolding create_session_container
create_session_container-err root d opts id none e cs f h = absurd (cc h)
create_session_container-err root d opts id (some x) e cs f h =
    remove-append_new id (record { id = id; spec = session_spec root d opts }) cs refl f

-- After a reaping in which the daemon removes what it is asked to, no session's container is left,
-- and no other container was touched.
pub reap_orphans_lem :
    (cs : List Container)
    → All (λ c. c.spec.session ≡ false) (reap_orphans (λ _. true) cs)
      × (keep (λ c. not c.spec.session) (reap_orphans (λ _. true) cs)
          ≡ keep (λ c. not c.spec.session) cs)
unfolding reap_orphans
reap_orphans_lem [] = (tt, refl)
reap_orphans_lem (c ∷ cs) = ground (arith, reap_orphans_lem cs)
