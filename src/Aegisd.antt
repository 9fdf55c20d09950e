-- ===== src/Aegisd.antt =====
-- cmd/aegisd/main.go: what the daemon restores when it starts, and what it stops at its end. The
-- callbacks that it registers are in Lifecycle/Persist and Api/Environment, the frames in
-- Tether/Restart. Flags, logging and signals are left out.
use aegisvm.Base.{ℕ, List, [], ◌∷◌, ◌++◌, String, if◌then◌else◌}
use aegisvm.Lifecycle.Types.{Instance, Effect}
use aegisvm.Lifecycle.Manager.{Manager, delete}
use aegisvm.Lifecycle.Persist.{CapabilitiesCodec, notices, restored_instance, restore}
use aegisvm.Router.{Router, stop}
use aegisvm.Registry.Rows.{InstanceRow, Tables}
use aegisvm.Daemons.{stop_all}
use aegisvm.Api.Instances.{Server, ApiIo, start_kit}

module _ (io : ApiIo) (codec : CapabilitiesCodec) where
  abbrev with_restored : (Manager × Router × Tables) → Server → Server
  with_restored (m, r, t) s = record s { manager = m; router = r; tables = t }

  -- One instance of the registry, and its sidecar processes if it is enabled and has a kit.
  unfoldable pub restore_instance : ℕ → InstanceRow → Server → Server
  unfolding restore restored_instance start_kit
  restore_instance now row s =
      let s1 = with_restored (restore io.listen codec now row s.manager s.router s.tables) s in
      if row.enabled then start_kit io now (restored_instance io.listen codec now row) s1 else s1

  -- The loop over the rows of the registry.
  unfoldable pub restore_instances : ℕ → List InstanceRow → Server → Server
  unfolding restore_instance
  restore_instances now [] s = s
  restore_instances now (row ∷ rows) s = restore_instances now rows (restore_instance now row s)

abbrev ids_of : List (String × Instance) → List String
ids_of [] = []
ids_of ((id, i) ∷ m) = id ∷ ids_of m

unfoldable delete_each : ℕ → List String → Manager → Manager × List (String × Effect)
delete_each now [] m = (m, [])
delete_each now (id ∷ ids) m =
    let a = delete m id now in let (m1, es) = delete_each now ids a.manager in (m1, a.effects ++ es)

-- `Shutdown` of the manager deletes every instance from the map; the registry hears of it.
unfoldable pub shutdown_manager : ℕ → Server → Server
unfolding delete_each
shutdown_manager now s =
    let (m, es) = delete_each now (ids_of s.manager.instances) s.manager in
    record s { manager = m; tables = notices now es s.tables }

-- The end of `main`.
unfoldable pub shutdown : ℕ → Server → Server
unfolding shutdown_manager
shutdown now s =
    let s1 = shutdown_manager now (record s { daemons = stop_all s.daemons }) in
    record s1 { router = stop s1.router }
