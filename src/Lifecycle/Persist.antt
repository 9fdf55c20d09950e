-- ===== src/Lifecycle/Persist.antt =====
-- What internal/lifecycle/manager.go keeps in the registry and the router: `saveToRegistry` and
-- `CreateInstance`, with the callbacks that cmd/aegisd/main.go registers, and the instances that it
-- restores. The JSON of a capability token is a parameter; `listen` is what `net.Listen` answers for a
-- guest port and the public port that is asked for, where 0 is any. The statements succeed here: an
-- error of the database, which the manager logs, is left out.
pub mod Notices
pub mod Restart
use aegisvm.Base.{
  ℕ, ◌/◌, ◌*◌, ◌==◌, List, [], ◌∷◌, ◌++◌, map, Option, none, some, String, ℤ, pos, negsuc, Bool,
  true, false, ◌=s◌, ltb, ltb_ℤ, if◌then◌else◌, lookup, insert,
}
use aegisvm.Lifecycle.Types.{
  State, stopped, starting, running, paused, IdlePolicy, default, Env, Capabilities, PortExpose,
  Spec, Instance, Effect, notify,
}
use aegisvm.Lifecycle.Manager.{Manager, new_instance, create_instance}
use aegisvm.Router.{PortProxy, Router, allocate_port, get_all_public_ports}
use aegisvm.Registry.Rows.{
  InstanceRow, Tables, save_instance, get_instance, update_state, update_stopped_at,
  update_public_ports,
}

abbrev pub second : ℕ
second = 1000000000

abbrev pub state_text : State → String
state_text stopped = "stopped"
state_text starting = "starting"
state_text running = "running"
state_text paused = "paused"

abbrev stopped_time : ℕ → State → Option ℕ
stopped_time now stopped = some (now / second)
stopped_time now _ = none

-- The callback of `OnStateChange`.
unfoldable pub on_state_change : ℕ → String → State → Tables → Tables
on_state_change now id s t =
    update_stopped_at id (stopped_time now s) (update_state id (state_text s) t).0

unfoldable pub notice : ℕ → String → Effect → Tables → Tables
unfolding on_state_change
notice now id (notify s) t = on_state_change now id s t
notice now id _ t = t

-- The notices among what calls did, in order.
unfoldable pub notices : ℕ → List (String × Effect) → Tables → Tables
unfolding notice
notices now [] t = t
notices now ((id, e) ∷ es) t = notices now es (notice now id e t)

-- The JSON of a token, which is a parameter.
pub record CapabilitiesCodec : Type 0 where
  pub marshal : Capabilities → String
  pub unmarshal : String → Option Capabilities

abbrev caps_text : CapabilitiesCodec → Option Capabilities → String
caps_text codec none = ""
caps_text codec (some c) = codec.marshal c

abbrev guest_ports : List PortExpose → List ℤ
guest_ports [] = []
guest_ports (p ∷ ps) = pos p.guest_port ∷ guest_ports ps

-- The row of `saveToRegistry`.
unfoldable pub row_of : CapabilitiesCodec → Instance → InstanceRow
row_of codec i = record {
  id = i.spec.id;
  state = "stopped";
  command = i.spec.command;
  expose_ports = guest_ports i.expose_ports;
  vm_id = "";
  handle = i.spec.handle_alias;
  image_ref = i.spec.image_ref;
  workspace = i.spec.workspace_path;
  env = i.env;
  secret_keys = i.spec.secret_keys;
  public_ports = [];
  enabled = i.enabled;
  memory_mb = i.spec.memory_mb;
  vcpus = i.spec.vcpus;
  parent_id = i.spec.parent_id;
  capabilities = caps_text codec i.spec.capabilities;
  kit = i.spec.kit;
  auto_workspace = i.spec.auto_workspace;
  stopped_at = none;
  created_at = i.spec.created_at / second;
  updated_at = none;
}

-- `saveToRegistry`
unfoldable pub save_to_registry : CapabilitiesCodec → ℕ → Instance → Tables → Tables
unfolding row_of
save_to_registry codec now i t = save_instance (now / second) (row_of codec i) t

-- `persisted[ep.GuestPort]`; the ports in the registry are the router's, not negative.
unfoldable pub saved_port : ℕ → List (ℤ × ℤ) → ℕ
saved_port g [] = 0
saved_port g ((pos a, pos b) ∷ m) = if a == g then b else saved_port g m
saved_port g ((pos a, negsuc b) ∷ m) = saved_port g m
saved_port g ((negsuc a, b) ∷ m) = saved_port g m

abbrev pub row_ports : Option InstanceRow → List (ℤ × ℤ)
row_ports none = []
row_ports (some row) = row.public_ports

abbrev pub public_ports : List PortProxy → List (ℤ × ℤ)
public_ports [] = []
public_ports (p ∷ ps) = (pos p.guest_port, pos p.public_port) ∷ public_ports ps

-- `persistPublicPorts`
unfoldable pub persist_public_ports : String → Router → Tables → Tables
persist_public_ports id r t = update_public_ports id (public_ports (get_all_public_ports id r)) t

module _ (listen : ℕ → ℕ → Option ℕ) where
  -- A port that cannot be had again is exchanged for any.
  abbrev pub or_any : String → PortExpose → ℕ → Router × Option ℕ → Router
  or_any id ep asked (r, some port) = r
  or_any id ep asked (r, none) =
      if ltb 0 asked
      then (allocate_port id ep.guest_port ep.protocol (listen ep.guest_port 0) r).0
      else r

  unfoldable pub allocate_saved : String → List (ℤ × ℤ) → PortExpose → Router → Router
  unfolding saved_port
  allocate_saved id saved ep r =
      let asked = saved_port ep.guest_port saved in
      or_any id ep asked (allocate_port id ep.guest_port ep.protocol (listen ep.guest_port asked) r)

  -- The loop over the exposed ports, here and in `ensurePortListeners`.
  unfoldable pub allocate_all : String → List (ℤ × ℤ) → List PortExpose → Router → Router
  unfolding allocate_saved
  allocate_all id saved [] r = r
  allocate_all id saved (ep ∷ eps) r = allocate_all id saved eps (allocate_saved id saved ep r)

  -- The callback of `OnAllocatePorts`.
  unfoldable pub allocate_ports : Instance → Router → Tables → Router × Tables
  unfolding allocate_all persist_public_ports
  allocate_ports i r t =
      let r1 = allocate_all i.spec.id (row_ports (get_instance i.spec.id t)) i.expose_ports r in
      (r1, persist_public_ports i.spec.id r1 t)

  -- `CreateInstance`, from the instance with its options.
  unfoldable pub create :
      CapabilitiesCodec → ℕ → Instance → Manager → Router → Tables → Manager × Router × Tables
  unfolding allocate_ports save_to_registry
  create codec now i m r t =
      let (r1, t1) = allocate_ports i r t in
      (create_instance m i, r1, save_to_registry codec now i t1)

  abbrev port_of : ℤ → ℕ
  port_of (pos p) = p
  port_of (negsuc p) = 0

  abbrev http_ports : List ℤ → List PortExpose
  http_ports [] = []
  http_ports (p ∷ ps) = record { guest_port = port_of p; protocol = "http" } ∷ http_ports ps

  abbrev if_positive : ℤ → ℤ
  if_positive n = if ltb_ℤ (pos 0) n then n else pos 0

  abbrev parsed_caps : CapabilitiesCodec → String → Option Capabilities
  parsed_caps codec text = if text =s "" then none else codec.unmarshal text

  -- The options for a row: those of empty values are left out, which leaves the same values.
  unfoldable pub restored_spec : CapabilitiesCodec → ℕ → InstanceRow → Spec
  restored_spec codec now row = record {
    id = row.id;
    command = row.command;
    handle_alias = row.handle;
    image_ref = row.image_ref;
    workspace_path = row.workspace;
    auto_workspace = false;
    memory_mb = if_positive row.memory_mb;
    vcpus = if_positive row.vcpus;
    secret_keys = row.secret_keys;
    kit = row.kit;
    idle_policy = default;
    parent_id = row.parent_id;
    capabilities = parsed_caps codec row.capabilities;
    created_at = now;
  }

  abbrev nanoseconds : Option ℕ → Option ℕ
  nanoseconds none = none
  nanoseconds (some t) = some (t * second)

  abbrev updated_time : ℕ → Option ℕ → ℕ
  updated_time now none = now
  updated_time now (some t) = t * second

  -- The instance that is created for a row, and its times after that.
  unfoldable pub restored_instance : CapabilitiesCodec → ℕ → InstanceRow → Instance
  unfolding restored_spec
  restored_instance codec now row =
      new_instance (restored_spec codec now row) row.env (http_ports row.expose_ports) row.enabled
        now

  unfoldable pub with_times : ℕ → InstanceRow → Instance → Instance
  with_times now row i = record i {
    stopped_at = nanoseconds row.stopped_at;
    updated_at = updated_time now row.updated_at;
  }

  -- The body of the loop that restores the instances of the registry.
  unfoldable pub restore :
      CapabilitiesCodec → ℕ → InstanceRow → Manager → Router → Tables → Manager × Router × Tables
  unfolding create restored_instance with_times
  restore codec now row m r t =
      let (m1, r1, t1) = create codec now (restored_instance codec now row) m r t in
      (create_instance m1 (with_times now row (restored_instance codec now row)), r1, t1)

  -- The loop, over the rows of `ListInstances`.
  unfoldable pub restore_all :
      CapabilitiesCodec
      → ℕ
      → List InstanceRow
      → Manager
      → Router
      → Tables
      → Manager × Router × Tables
  unfolding restore
  restore_all codec now [] m r t = (m, r, t)
  restore_all codec now (row ∷ rows) m r t =
      let (m1, r1, t1) = restore codec now row m r t in restore_all codec now rows m1 r1 t1
