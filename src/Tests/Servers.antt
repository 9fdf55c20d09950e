-- ===== src/Tests/Servers.antt =====
-- The API, the sidecar processes and a restart of the daemon at concrete inputs.
use aegisvm.Base.{
  ℕ, ◌<◌, ◌≡◌, refl, List, [], ◌∷◌, Option, none, some, String, pos, negsuc, true, false, ◌==◌,
  ◌=s◌, if◌then◌else◌, if_elim, codes, lookup, insert, split, same_text, arith,
}
use aegisvm.Files.Paths.{FilePath, clean, join, has_prefix, text_of, directory}
use aegisvm.Files.Os.{Os}
use aegisvm.Kits.{Manifest}
use aegisvm.Lifecycle.Types.{stopped, Instance, notify}
use aegisvm.Lifecycle.Manager.{Manager}
use aegisvm.Lifecycle.Persist.{CapabilitiesCodec, create, notices, restore, saved_port, row_ports}
use aegisvm.Lifecycle.Persist.Restart.{setup, HasSetup, restore-create}
use aegisvm.Lifecycle.Expose.{has_port}
use aegisvm.Router.{new_router, get_public_port, get_all_public_ports, allocate_port, public_of}
use aegisvm.Registry.Rows.{
  Tables, InstanceRow, Secret, get_instance, update_stopped_at, update, update_state, save_instance,
  update_public_ports, upsert,
}
use aegisvm.Daemons.{no_daemons, DaemonOp, starts, stops, exits, restarts, daemon_ops}
use aegisvm.Daemons.Counting.{count, count_pids}
use aegisvm.Daemons.Tracking.{IsTracked, daemon_ops-IsTracked}
use aegisvm.Api.Environment.{resolve_env, is_allowed}
use aegisvm.Api.Environment.Allowed.{or_else, secret_value, lookup-resolve_env}
use aegisvm.Api.Workspace.{Links, file, handle_workspace_read, handle_workspace_write, workspace_of}
use aegisvm.Api.Workspace.Inside.{
  ReadsInside, KeptInside, handle_workspace_read-Within, handle_workspace_write-keeps,
}
use aegisvm.Api.Instances.{
  Server, ApiIo, by_handle, find_instance, handle_delete_instance, handle_disable_instance,
  handle_start_instance,
}
use aegisvm.Api.Instances.Deleted.{Deleted, handle_delete_instance-Deleted}
use aegisvm.Api.Instances.Ports.{FreePorts, get_public_port-start}
use aegisvm.Tests.Life.{cfg, fresh}
use aegisvm.Tests.Tables.{tables, no_frames}
use aegisvm.Tests.Disks.{root, trace_os, trace-Kept, AllBelow}

abbrev gateway_kit : Manifest
gateway_kit = record {
  name = codes "agent";
  version = codes "1";
  description = [];
  usage = [];
  instance_daemons = record { binary = codes "aegis-gateway"; config = none } ∷ [];
  config = [];
  image_base = codes "alpine";
  image_inject = [];
  default_command = [];
  default_capabilities = none;
}

-- A gateway that crashes once, is started again, and is stopped.
abbrev gateway_ops : List (ℕ × DaemonOp)
gateway_ops =
    (0, starts "a" "web" (some gateway_kit) [] (some 41 ∷ []))
    ∷ (5, exits 41 (negsuc 0))
    ∷ (6, restarts 0 (some 42))
    ∷ (9, stops "a")
    ∷ []

no_daemons-IsTracked : IsTracked no_daemons
unfolding count count_pids
no_daemons-IsTracked = (λ n. refl, tt)

daemon_ops-IsTracked_example : IsTracked (daemon_ops gateway_ops no_daemons)
daemon_ops-IsTracked_example = daemon_ops-IsTracked gateway_ops no_daemons no_daemons-IsTracked

abbrev decrypt : List ℕ → Option String
decrypt [] = none
decrypt (b ∷ bs) = some "s3cret"

abbrev stored : List Secret
stored =
    record { id = "sec-1"; name = "TOKEN"; value = 1 ∷ []; created_at = 0 }
    ∷ record { id = "sec-2"; name = "OTHER"; value = 2 ∷ []; created_at = 0 }
    ∷ []

lookup-resolve_env_example :
    lookup "TOKEN" (resolve_env decrypt ("TOKEN" ∷ []) (("PORT", "80") ∷ []) stored)
    ≡ or_else
        (lookup "TOKEN" (("PORT", "80") ∷ []))
        (if is_allowed ("TOKEN" ∷ []) "TOKEN" then secret_value decrypt "TOKEN" stored else none)
lookup-resolve_env_example =
    lookup-resolve_env decrypt ("TOKEN" ∷ []) (("PORT", "80") ∷ []) stored "TOKEN"

abbrev pub web_instance : Instance
web_instance = record fresh {
  spec = record fresh.spec { id = "a"; workspace_path = "/cache/img" };
  expose_ports = record { guest_port = 80; protocol = "http" } ∷ [];
}

abbrev pub server : Server
server = record {
  manager = record { cfg = cfg; instances = ("a", web_instance) ∷ [] };
  router = record {
    port_proxies =
        ("a", record { guest_port = 80; public_port = 9001; protocol = "http" } ∷ []) ∷ [];
    closed = [];
  };
  tables = tables;
  frames = no_frames;
  daemons = no_daemons;
}

found_by_handle : find_instance "web" server.manager ≡ some web_instance
unfolding find_instance by_handle lookup ◌=s◌
found_by_handle = refl

listed_web : lookup "a" server.manager.instances ≡ some web_instance
unfolding lookup ◌=s◌
listed_web = refl

handle_delete_instance-Deleted_example :
    Deleted "a" server (handle_delete_instance 100 "web" server)
handle_delete_instance-Deleted_example =
    handle_delete_instance-Deleted 100 "web" web_instance web_instance server found_by_handle
      listed_web

abbrev pub api_io : ApiIo
api_io = record {
  listen = λ g p. if p == 0 then some 40000 else some p;
  decrypt = decrypt;
  secrets = stored;
  manifest = λ name. some gateway_kit;
  pids = some 41 ∷ [];
}

free_ports : FreePorts api_io
free_ports guest p h =
    if_elim (λ o. o ≡ some p) (p == 0) _ _ (λ t. absurd (ground arith)) (λ t. refl)

exposes_80 : has_port 80 web_instance.expose_ports ≡ true
unfolding has_port
exposes_80 = refl

saved_80 : 0 < saved_port 80 (row_ports (get_instance "a" tables))
unfolding saved_port get_instance lookup ◌=s◌
saved_80 = omega arith

get_public_port-start_example :
    get_public_port "a" 80
      (handle_start_instance api_io 200 "a"
        (handle_disable_instance 100 "a" server).server).server.router
    ≡ some (saved_port 80 (row_ports (get_instance "a" tables)))
get_public_port-start_example =
    get_public_port-start api_io 100 200 web_instance server 80 free_ports listed_web exposes_80
      saved_80

abbrev pub caps_codec : CapabilitiesCodec
caps_codec = record { marshal = λ c. "{}"; unmarshal = λ t. none }

abbrev other_manager : Manager
other_manager = record { cfg = cfg; instances = [] }

abbrev created : Tables
created =
    notices 10 (("a", notify stopped) ∷ [])
      (create api_io.listen caps_codec 10 web_instance other_manager new_router tables).2

abbrev created_row : InstanceRow
created_row = record {
  id = "a";
  state = "stopped";
  command = "sh" ∷ [];
  expose_ports = pos 80 ∷ [];
  vm_id = "";
  handle = "web";
  image_ref = "";
  workspace = "/cache/img";
  env = [];
  secret_keys = [];
  public_ports = (pos 80, pos 9001) ∷ [];
  enabled = true;
  memory_mb = pos 0;
  vcpus = pos 0;
  parent_id = "";
  capabilities = "";
  kit = "";
  auto_workspace = false;
  stopped_at = some 0;
  created_at = 7;
  updated_at = none;
}

created_is_row : get_instance "a" created ≡ some created_row
unfolding notices create get_instance lookup insert ◌=s◌ update_stopped_at update update_state
    save_instance update_public_ports upsert get_all_public_ports allocate_port public_of
created_is_row = refl

restore-create_example :
    let r2 = restore api_io.listen caps_codec 90 created_row other_manager new_router created in
    ((j : Instance) × (lookup "a" r2.0.instances ≡ some j)
      × (setup j ≡ setup web_instance)
      × (j.state ≡ stopped)
      × (j.handle ≡ none))
    × HasSetup api_io.listen caps_codec (setup web_instance) r2.2
restore-create_example =
    restore-create api_io.listen caps_codec 10 90 web_instance other_manager other_manager
      new_router new_router tables (("a", notify stopped) ∷ []) created_row tt (omega arith)
      (omega arith) created_is_row

abbrev notes_os : Os (List FilePath)
notes_os = record trace_os { read_file = λ p s. some (codes "hi") }

abbrev no_links : Links (List FilePath)
no_links = record {
  eval_symlinks = λ p s. some p;
  info = λ p s. some (false, 2);
  entry_info = λ p s. some 2;
}

read_notes :
    handle_workspace_read notes_os no_links (some web_instance) (codes "notes/a.txt") []
    ≡ file (codes "hi")
unfolding handle_workspace_read clean split has_prefix text_of join directory same_text ◌=s◌
read_notes = refl

handle_workspace_read-Within_example :
    ReadsInside notes_os no_links (workspace_of notes_os no_links web_instance) [] (codes "hi")
handle_workspace_read-Within_example =
    handle_workspace_read-Within notes_os no_links web_instance (codes "notes/a.txt") []
      (codes "hi") read_notes

trace-KeptInside : KeptInside trace_os no_links root AllBelow
trace-KeptInside = record {
  mkdir_all = trace-Kept.mkdir_all;
  mkdir_parent = trace-Kept.mkdir_parent;
  create = λ p m s w k. trace-Kept.create p m s w.0 k;
  copy = λ p m d s w k. trace-Kept.copy p d (trace_os.create p m s).0 w.0 k;
}

handle_workspace_write-keeps_example :
    AllBelow
      (handle_workspace_write trace_os no_links
        (some web_instance)
        (codes "notes/a.txt")
        (some (codes "hi"))
        []).0
handle_workspace_write-keeps_example =
    handle_workspace_write-keeps trace_os no_links root AllBelow trace-KeptInside web_instance
      (codes "notes/a.txt") (some (codes "hi")) [] refl tt
