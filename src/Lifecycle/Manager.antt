-- ===== src/Lifecycle/Manager.antt =====
-- internal/lifecycle: the map of instances, and the calls of manager.go and guest.go by instance id.
use aegisvm.Base.{
  ℕ, zero, suc, List, [], ◌∷◌, ◌++◌, map, Option, none, some, String, Bool, false, if◌then◌else◌,
  ◌=s◌, lookup, insert, erase,
}
use aegisvm.Lifecycle.Types.{
  stopped, Env, Spec, PortExpose, Instance, Config, Effect, not_found, Reply, failed, Outcome,
  is_stopped,
}
use aegisvm.Lifecycle.Events.{Event, step}
use aegisvm.Lifecycle.Stop.{stop_instance, delete_instance}

pub record Manager : Type 0 where
  pub cfg : Config
  pub instances : List (String × Instance)

pub record Answer : Type 0 where
  pub manager : Manager
  pub effects : List (String × Effect)
  pub reply : Reply

-- Every call looks its instance up first.
unfoldable pub on_found : Manager → String → (Instance → Outcome) → Option Instance → Answer
on_found m id f none = record { manager = m; effects = []; reply = failed not_found }
on_found m id f (some i) = record {
  manager = record m { instances = insert id (f i).inst m.instances };
  effects = map (λ e. (id, e)) (f i).effects;
  reply = (f i).reply;
}

unfoldable pub on_instance : Manager → String → (Instance → Outcome) → Answer
unfolding on_found
on_instance m id f = on_found m id f (lookup id m.instances)

-- A timed event of one instance; the calls by id that do not touch other instances.
unfoldable pub handle : Manager → String → ℕ → Event → Answer
unfolding on_instance
handle m id now e = on_instance m id (step m.cfg now e)

-- The instance as `CreateInstance` makes it, options applied.
unfoldable pub new_instance : Spec → Env → List PortExpose → Bool → ℕ → Instance
new_instance spec env ports enabled now = record {
  spec = spec;
  state = stopped;
  enabled = enabled;
  expose_ports = ports;
  handle = none;
  channel = none;
  endpoints = [];
  rootfs_path = "";
  env = env;
  boot_env = [];
  active_conns = 0;
  idle_timer = none;
  stop_timer = none;
  last_activity = 0;
  harness_version = "";
  lease_held = false;
  lease_expiry = 0;
  lease_reason = "";
  lease_timer = none;
  demuxer = none;
  log_capture = false;
  exec_waiters = [];
  crash_count = 0;
  last_crash_at = none;
  stopped_at = none;
  updated_at = now;
}

unfoldable pub create_instance : Manager → Instance → Manager
create_instance m i = record m { instances = insert i.spec.id i m.instances }

unfoldable pub children : String → List (String × Instance) → List String
children p [] = []
children p ((id, i) ∷ m) =
    let rest = children p m in if i.spec.parent_id =s p then i.spec.id ∷ rest else rest

-- The loop of `CascadeStopChildren`.
unfoldable pub stop_all :
    (String → Manager → Manager × List (String × Effect))
    → List String
    → Manager
    → Manager × List (String × Effect)
stop_all stop [] m = (m, [])
stop_all stop (id ∷ ids) m =
    let (m', fs) = stop id m in let (m'', gs) = stop_all stop ids m' in (m'', fs ++ gs)

-- An instance that is up is stopped, and then its children are.
unfoldable pub stop_found :
    (List String → Manager → Manager × List (String × Effect))
    → ℕ
    → String
    → Manager
    → Option Instance
    → Manager × List (String × Effect)
stop_found below now id m none = (m, [])
stop_found below now id m (some i) =
    let a = on_instance m id (stop_instance now) in
    let (m', gs) = below (children id a.manager.instances) a.manager in
    if is_stopped i.state then (m, []) else (m', a.effects ++ gs)

-- `StopInstance` with its cascade, as deep as the fuel.
unfoldable pub stop_tree : ℕ → ℕ → String → Manager → Manager × List (String × Effect)
unfolding stop_all stop_found
stop_tree zero now id m = (m, [])
stop_tree (suc fuel) now id m =
    stop_found (stop_all (stop_tree fuel now)) now id m (lookup id m.instances)

unfoldable pub delete : Manager → String → ℕ → Answer
unfolding on_instance
delete m id now =
    let a = on_instance m id (delete_instance now) in
    record a { manager = record m { instances = erase id m.instances } }
