-- ===== src/Tests/Requests.antt =====
-- The calls of the API in sequence, at concrete inputs.
use aegisvm.Base.{
  negsuc, ℕ, ◌≤◌, refl, List, [], ◌∷◌, none, some, pos, true, false, ◌=s◌, lookup, arith,
}
use aegisvm.Lifecycle.Expose.{ExposeIo, no_router, has_port, unexpose_port}
use aegisvm.Router.{new_router}
use aegisvm.Registry.Rows.{get_instance}
use aegisvm.Daemons.{no_daemons}
use aegisvm.Api.Instances.{Server, ApiIo, by_handle, find_instance}
use aegisvm.Api.Instances.Create.{CreateRequest}
use aegisvm.Api.Instances.Executing.{ExecIo}
use aegisvm.Lifecycle.Wake.{exec_ok}
use aegisvm.Api.Instances.Exposing.{handle_unexpose_port}
use aegisvm.Api.Instances.Requests.{
  creates, disables, deletes, exposes, unexposes, prunes, executes, api_request, Turn, calls,
  happens, turns,
}
use aegisvm.Api.Instances.Maps.{IsMap}
use aegisvm.Api.Instances.Kept.{Orderly}
use aegisvm.Api.Instances.Histories.{HaveNewIds, turns-Orderly}
use aegisvm.Api.Instances.Unchanged.{Unchanged}
use aegisvm.Api.Instances.Refused.{api_request-Unchanged}
use aegisvm.Lifecycle.Events.{ensures, connects, exited}
use aegisvm.Tests.Life.{cfg, wake_io}
use aegisvm.Tests.Tables.{no_frames}
use aegisvm.Tests.Servers.{server, api_io, caps_codec}

abbrev empty_server : Server
empty_server = record {
  manager = record { cfg = cfg; instances = [] };
  router = new_router;
  tables = record { instances = []; secrets = [] };
  frames = no_frames;
  daemons = no_daemons;
}

empty_server-Orderly : Orderly empty_server
unfolding lookup get_instance
empty_server-Orderly = record { keyed = tt; handles = λ a b i j h k e n. cc; rows = λ k. refl }

abbrev web_request : CreateRequest
web_request = record {
  image_ref = "";
  command = "httpd" ∷ [];
  env = [];
  secrets = [];
  handle = "web";
  workspace = "/data/web";
  auto_workspace = true;
  memory_mb = pos 0;
  vcpus = pos 2;
  idle_policy = "";
  capabilities = none;
  kit = "agent";
}

abbrev no_vm : ExposeIo
no_vm = record {
  known = none;
  dynamic = false;
  forwarded = none;
  refreshed = none;
  router = no_router;
}

abbrev list_files : ExecIo
list_files = record {
  wake = wake_io;
  later = 5;
  resume = wake_io;
  guest = exec_ok;
  exec_id = "exec-1";
}

-- An instance is created, boots, gets a port, runs a command, crashes, and is disabled and deleted.
abbrev web_requests : List (ApiIo × ℕ × Turn)
web_requests =
    (api_io, 1, calls (creates "a" web_request))
    ∷ (api_io, 2, happens "a" (ensures wake_io))
    ∷ (
      api_io,
      3,
      calls (
          exposes no_vm "web"
            (some (record { port = pos 80; public_port = pos 0; protocol = "" }))),
    )
    ∷ (api_io, 4, happens "a" connects)
    ∷ (api_io, 4, calls (executes list_files "web" (some ("ls" ∷ []))))
    ∷ (api_io, 5, happens "a" (exited (negsuc 0)))
    ∷ (api_io, 6, calls (disables "web"))
    ∷ (api_io, 7, calls (unexposes "a" (pos 80)))
    ∷ (api_io, 8, calls (deletes "web"))
    ∷ (api_io, 9, calls (prunes (some 10)))
    ∷ []

new_ids : HaveNewIds caps_codec web_requests empty_server
unfolding lookup
new_ids = (refl, (tt, (tt, (tt, (tt, (tt, (tt, tt)))))))

turns-Orderly_example : Orderly (turns caps_codec web_requests empty_server)
turns-Orderly_example =
    turns-Orderly caps_codec web_requests empty_server new_ids empty_server-Orderly

server-IsMap : IsMap server.manager.instances
unfolding lookup
server-IsMap = (refl, refl, tt)

not_exposed_there :
    400 ≤ (api_request caps_codec api_io 9 (unexposes "web" (pos 8080)) server).status
unfolding api_request handle_unexpose_port find_instance by_handle lookup ◌=s◌ unexpose_port
    has_port
not_exposed_there = omega arith

api_request-Unchanged_example :
    Unchanged server (api_request caps_codec api_io 9 (unexposes "web" (pos 8080)) server)
api_request-Unchanged_example =
    api_request-Unchanged caps_codec api_io 9 (unexposes "web" (pos 8080)) server server-IsMap refl
      not_exposed_there
