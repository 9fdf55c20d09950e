-- ===== src/Api/Instances.antt =====
-- internal/api/server.go: the handlers that change instances, over the manager, the router, the registry
-- and the sidecar processes. A request is its decoded parameters; an answer has the HTTP status, what
-- the manager did outside, and the calls that go on in the background. JSON, logs, and what the
-- manager removes from the log store and the frame store are left out.
pub mod Allocation
pub mod Create
pub mod Deleted
pub mod Executing
pub mod Exposing
pub mod Disabled
pub mod Histories
pub mod Kept
pub mod Maps
pub mod Ports
pub mod Prune
pub mod Refused
pub mod Replies
pub mod Unchanged
pub mod Requests
pub mod Orderly
use aegisvm.Base.{
  ℕ, ◌-◌, ◌/◌, List, [], ◌∷◌, ◌++◌, map, Option, none, some, String, ℤ, pos, Bool, true, false, not,
  ◌&&◌, ◌||◌, ltb, leb, ◌==◌, ltb_ℤ, codes, ◌=s◌, if◌then◌else◌, lookup, insert,
}
use aegisvm.Lifecycle.Types.{
  State, stopped, running, paused, IdlePolicy, default, leases_only, Env, Capabilities, Spec,
  Instance, Effect, Reply, done, failed, waiting, is_stopped,
}
use aegisvm.Lifecycle.Manager.{Manager, Answer, on_instance, delete, new_instance}
use aegisvm.Lifecycle.Stop.{disable_instance}
use aegisvm.Lifecycle.Persist.{
  CapabilitiesCodec, notices, row_ports, allocate_all, create, save_to_registry,
}
use aegisvm.Router.{Router, PortProxy, free_all_ports, get_all_public_ports}
use aegisvm.Registry.Rows.{
  Tables, Secret, delete_instance, get_instance, update_state, update_enabled,
}
use aegisvm.Registry.Frames.{FrameTables, delete_tether_frames, delete_tether_watermarks}
use aegisvm.Daemons.{Daemons, stop_daemons, start_daemons}
use aegisvm.Kits.{Manifest}
use aegisvm.Api.Environment.{resolve_env, merge_secret_keys}

-- What `Server` and its callees keep.
pub record Server : Type 0 where
  pub manager : Manager
  pub router : Router
  pub tables : Tables
  pub frames : FrameTables
  pub daemons : Daemons

-- A call of the manager in a goroutine.
pub data Task : Type 0 where
  ensures starts cascades : String → Task

pub record Response : Type 0 where
  pub server : Server
  pub status : ℕ
  pub effects : List (String × Effect)
  pub tasks : List Task
  -- A workspace that is deleted.
  pub removed : Option String

-- What the handlers learn from outside: the answers of `net.Listen` by guest port and requested port,
-- what stored values decrypt to, the manifest of a kit, and the ids of the processes that start.
pub record ApiIo : Type 0 where
  pub listen : ℕ → ℕ → Option ℕ
  pub decrypt : List ℕ → Option String
  pub secrets : List Secret
  pub manifest : String → Option Manifest
  pub pids : List (Option ℕ)

unfoldable pub by_handle : String → List (String × Instance) → Option Instance
by_handle h [] = none
by_handle h ((id, i) ∷ m) = if i.spec.handle_alias =s h then some i else by_handle h m

abbrev pub or_handle : String → Manager → Option Instance → Option Instance
or_handle key m (some i) = some i
or_handle key m none = by_handle key m.instances

-- By id, and then by handle, as every handler does.
unfoldable pub find_instance : String → Manager → Option Instance
unfolding by_handle
find_instance key m = or_handle key m (lookup key m.instances)

abbrev pub plain_reply : ℕ → Server → Response
plain_reply status s = record {
  server = s;
  status = status;
  effects = [];
  tasks = [];
  removed = none;
}

abbrev pub is_failed : Reply → Bool
is_failed (failed e) = true
is_failed done = false
is_failed waiting = false

abbrev auto_workspace_of : Spec → Option String
auto_workspace_of spec =
    if spec.auto_workspace && not (spec.workspace_path =s "")
    then some spec.workspace_path
    else none

-- What `handleDeleteInstance` and `handlePruneInstances` take out of the registry.
abbrev pub forget_rows : ℕ → String → Answer → Server → Server
forget_rows now id a s = record s {
  manager = a.manager;
  tables = delete_instance id (notices now a.effects s.tables);
  frames = delete_tether_watermarks id (delete_tether_frames id s.frames);
}

-- The sidecar processes and the ports of an instance go first.
abbrev pub released : String → Server → Server
released id s = record s {
  daemons = stop_daemons id s.daemons;
  router = free_all_ports id s.router;
}

abbrev pub emptied : ℕ → String → Server → Server
emptied now id s = forget_rows now id (delete s.manager id now) (released id s)

unfoldable pub delete_found : ℕ → Instance → Server → Response
delete_found now i s =
    let a = delete s.manager i.spec.id now in
    if is_failed a.reply then plain_reply 404 (released i.spec.id s) else record {
      server = emptied now i.spec.id s;
      status = 200;
      effects = a.effects;
      tasks = [];
      removed = auto_workspace_of i.spec;
    }

abbrev on_found : Option Instance → Server → (Instance → Response) → Response
on_found none s f = plain_reply 404 s
on_found (some i) s f = f i

-- `handleDeleteInstance`
unfoldable pub handle_delete_instance : ℕ → String → Server → Response
unfolding delete_found find_instance
handle_delete_instance now key s =
    on_found (find_instance key s.manager) s (λ i. delete_found now i s)

-- `DisableInstance` stops the children of an instance that was up in the background.
abbrev cascade_of : Instance → List Task
cascade_of i = if is_stopped i.state then [] else cascades i.spec.id ∷ []

unfoldable pub disable_found : ℕ → Instance → Server → Response
disable_found now i s =
    let s1 = released i.spec.id s in
    let a = on_instance s.manager i.spec.id (disable_instance now) in
    if is_failed a.reply then plain_reply 500 s1 else record {
      server = record s1 {
        manager = a.manager;
        tables =
            (update_state i.spec.id "stopped"
              (update_enabled i.spec.id false (notices now a.effects s.tables)).0).0;
      };
      status = 200;
      effects = a.effects;
      tasks = cascade_of i;
      removed = none;
    }

-- `handleDisableInstance`
unfoldable pub handle_disable_instance : ℕ → String → Server → Response
unfolding disable_found find_instance
handle_disable_instance now key s =
    on_found (find_instance key s.manager) s (λ i. disable_found now i s)

module _ (io : ApiIo) where
  abbrev with_listeners : Instance → List PortProxy → Server → Server
  with_listeners i (p ∷ ps) s = s
  with_listeners i [] s = record s {
    router =
        allocate_all io.listen i.spec.id (row_ports (get_instance i.spec.id s.tables))
          i.expose_ports s.router;
  }

  -- `ensurePortListeners`
  unfoldable pub ensure_port_listeners : Instance → Server → Server
  ensure_port_listeners i s = with_listeners i (get_all_public_ports i.spec.id s.router) s

  abbrev pub daemon_handle : Spec → String
  daemon_handle spec = if spec.handle_alias =s "" then spec.id else spec.handle_alias

  -- The sidecar processes of an instance with a kit; an error is only logged.
  unfoldable pub start_kit : ℕ → Instance → Server → Server
  start_kit now i s = if i.spec.kit =s "" then s else record s {
    daemons =
        (start_daemons now i.spec.id (daemon_handle i.spec) (io.manifest i.spec.kit)
          (resolve_env io.decrypt i.spec.secret_keys i.env io.secrets) io.pids s.daemons).0;
  }

  abbrev pub starting_again : Instance → Server → List (String × Effect) → Response
  starting_again i s es = record {
    server = record s { tables = (update_enabled i.spec.id true s.tables).0 };
    status = 200;
    effects = es;
    tasks = starts i.spec.id ∷ [];
    removed = none;
  }

  unfoldable pub start_found : ℕ → Instance → Server → Response
  unfolding ensure_port_listeners start_kit
  start_found now i s = starting_again i (start_kit now i (ensure_port_listeners i s)) []

  -- `handleStartInstance`
  unfoldable pub handle_start_instance : ℕ → String → Server → Response
  unfolding start_found find_instance
  handle_start_instance now key s =
      on_found (find_instance key s.manager) s (λ i. start_found now i s)

  unfoldable restart_found : ℕ → Instance → Server → Response
  unfolding ensure_port_listeners start_kit
  restart_found now i s =
      let a = on_instance s.manager i.spec.id (disable_instance now) in
      let s1 : Server = record s {
        manager = a.manager;
        tables = (update_enabled i.spec.id false (notices now a.effects s.tables)).0;
      } in
      let r = starting_again i (start_kit now i (ensure_port_listeners i s1)) a.effects in
      record r { tasks = cascade_of i ++ r.tasks }

  -- `handleRestartInstance`
  unfoldable pub handle_restart_instance : ℕ → String → Server → Response
  unfolding restart_found find_instance
  handle_restart_instance now key s =
      on_found (find_instance key s.manager) s (λ i. restart_found now i s)

  abbrev pub set_keys : Instance → List String → Instance
  set_keys i keys = record i { spec = record i.spec { secret_keys = keys } }

  -- An instance that was changed in place, and saved.
  abbrev pub saved_instance : CapabilitiesCodec → ℕ → Instance → Server → Server
  saved_instance codec now i s = record s {
    manager = record s.manager { instances = insert i.spec.id i s.manager.instances };
    tables = save_to_registry codec now i s.tables;
  }

  unfoldable update_secrets_found :
      CapabilitiesCodec → ℕ → Option (List String) → Server → Instance → Response
  update_secrets_found codec now none s i = plain_reply 400 s
  update_secrets_found codec now (some keys) s i =
      plain_reply 200 (saved_instance codec now (set_keys i keys) s)

  -- `handleUpdateInstanceSecrets`; the keys are none if the body does not decode.
  unfoldable pub handle_update_instance_secrets :
      CapabilitiesCodec → ℕ → String → Option (List String) → Server → Response
  unfolding update_secrets_found find_instance
  handle_update_instance_secrets codec now key keys s =
      on_found (find_instance key s.manager) s (update_secrets_found codec now keys s)
