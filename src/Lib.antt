-- ===== src/Lib.antt =====
-- AegisVM: the manager of micro-VM instances that scale to zero, the stores beside it, and the
-- conversations and scheduled tasks of the agents that run in instances.
--
-- The program. aegisd keeps a map of instances (internal/lifecycle/manager.go). An instance is
-- stopped, starting, running or paused; API calls, notifications of its guest and timers move it.
-- An idle instance is paused and then stopped; a connection or a call wakes it again. A guest may
-- spawn children of its own within its capability token (internal/lifecycle/guest.go). Chat frames
-- between host and guests pass through a ring buffer per instance (internal/tether), and the output
-- of an instance through a log (internal/logstore). Calls to a guest share one control channel. The
-- agent in a guest (cmd/aegis-agent) keeps conversations, a file of scheduled tasks, and memories; the
-- gateway on the host (cmd/aegis-gateway) reads that file and sends the agent what is due, by the
-- expressions of internal/cron. The calls of the API (internal/api/server.go) change an instance
-- together with its ports (internal/router), its rows (internal/registry) and the processes beside it
-- (internal/daemon); when aegisd starts again, it restores the instances from their rows.
--
-- The files.
--   Base                   helpers: Boolean tests, lists and integers over native numbers, maps,
--                          texts.
--   Lifecycle/Types        internal/lifecycle/manager.go, `Instance`; internal/vmm/vmm.go, its data;
--                          internal/lifecycle/token.go, `CapabilityToken`.
--   Lifecycle/Boot         `bootInstance`, `prepareImageRootfs`, `waitForRunning`.
--   Lifecycle/Idle         `ResetActivity`, `OnConnectionClose`, `bumpActivity`, leases,
--                          `pauseInstance`, `resumeInstance`.
--   Lifecycle/Stop         `handleProcessExited`, `stopIdleInstance`, `StopInstance`,
--                          `DisableInstance`, `DeleteInstance`, `shutdownVM`.
--   Lifecycle/Wake         `EnsureInstance`, `StartInstance`, `ExecInstance`, `execDone`.
--   Lifecycle/Events       one step for each call, notification and timer; histories of them.
--   Lifecycle/Manager      the map of instances, and the cascade to children.
--   Lifecycle/Expose       `ExposePort`, `UnexposePort`.
--   Lifecycle/Guest        internal/lifecycle/guest.go, `guestSpawn`.
--   Lifecycle/Demuxer      internal/lifecycle/demuxer.go: calls that wait, and the receiving loop.
--   Lifecycle/Token        internal/lifecycle/token.go: tokens sealed by the secret store.
--   Lifecycle/Replay       what a list of effects adds up to outside.
--   Lifecycle/Persist      the state changes that cmd/aegisd/main.go writes to the registry, and the
--                          instances it reads from there at its next start; Persist/Notices and
--                          Persist/Restart have the proofs.
--   Lifecycle/Specs, Invariant, Idling, Agreement, Scaling, Races, Backoff, Cascade, Boot/Endings,
--   Demuxer/Delivery, Expose/Ports, Guest/Attenuation   the proofs, named for what they are about.
--   Window                 lists read through a circular index.
--   Tether                 internal/tether/types.go and store.go: frames and the ring buffer.
--   Tether/Query           `query`, `recent` and `WaitForFrames`.
--   Tether/Store           the map of rings by instance, with the persist callback.
--   Tether/Contents, Order, Restart, Query/Paging, Store/Mirror   the proofs.
--   Cron                   internal/cron/cron.go: parsing and matching of expressions.
--   Cron/Expansion, Items, Values, Sets, Meaning   the proofs: one item, and the sets of values.
--   Logstore               internal/logstore/logstore.go: the log of an instance, and their map.
--   Logstore/Eviction, Refine, Follow   the proofs.
--   Secrets                internal/secrets/store.go; Secrets/Sealed has the proofs.
--   Agent/Session          cmd/aegis-agent/session.go: conversations, and the context of a model.
--   Agent/Session/Window, Chains   the proofs: what is chosen, and tool calls with their results.
--   Agent/Schedules        cmd/aegis-agent/cron.go: the file of scheduled tasks.
--   Agent/Schedules/Ids, Tasks, Undo   the proofs.
--   Agent/Memories         cmd/aegis-agent/memory.go: what an agent remembers, and its file.
--   Agent/Memories/Search  `Search`; Agent/Memories/Mirror has the proofs.
--   Router                 internal/router/router.go: the public ports of instances.
--   Router/Listeners, Promises   the proofs.
--   Registry/Frames        internal/registry/tether.go: the tables of frames and watermarks.
--   Registry/Rows          internal/registry/instances.go, secrets.go: those of instances, secrets.
--   Registry/Frames/Order, Rows/Upsert, Rows/Lookup   the proofs.
--   Files                  paths as Go's path/filepath cleans them, and the file system as an interface.
--   Files/Paths/Below      the proofs: which paths lie below another.
--   Config                 internal/config: defaults, the platform, where binaries are found.
--   Image/Pull, Unpack, Cache, Binaries   internal/image: an image from the network, its layers below a
--                          directory, the cache of unpacked images, the binaries put into a guest.
--   Image/Unpack/Confined, Cache/Hits, Cache/Later   the proofs.
--   Overlay                internal/overlay/copy.go; Overlay/Copies has the proofs.
--   Blob                   internal/blob/blob.go; Blob/Reading has the proofs.
--   Kits                   internal/kit/kit.go; Kits/Seen and Kits/Listing have the proofs.
--   Daemons                internal/daemon/manager.go: the daemons of instances; Daemons/Counting
--                          and Daemons/Tracking have the proofs.
--   Aegisd                 cmd/aegisd/main.go: the instances that are restored with their daemons,
--                          and the shutdown.
--   Api/Environment        internal/api/server.go: the secrets that are put in an environment.
--   Api/Workspace          internal/api/server.go: reading and writing files of a workspace.
--   Api/Instances, Instances/Create, Instances/Exposing, Instances/Executing, Instances/Prune
--                          internal/api/server.go: the calls that start, stop, delete, create and
--                          prune instances, and that expose ports, pause, resume and exec.
--   Api/Instances/Requests   internal/api/server.go, `registerRoutes`: those calls as one step,
--                          and histories of them with the events of instances.
--   Api/Environment/Allowed, Workspace/Inside, Instances/Deleted, Instances/Allocation,
--   Instances/Ports, Instances/Maps, Instances/Orderly, Instances/Kept, Instances/Replies,
--   Instances/Histories, Instances/Unchanged, Instances/Disabled, Instances/Refused   the proofs.
--   Gateway/Scheduler      cmd/aegis-gateway/main.go: reading the file, and firing what is due.
--   Gateway/Scheduler/Visits, Due   the proofs.
--   Tests                  the theorems at concrete inputs.
--
-- How the code is read. An operation takes the instance and returns it with the list of what it did
-- outside (`Effect`) and its answer. What the VMM, the image store, the file system and the guest
-- answer are arguments (`BootIo`, `WakeIo`, `ExposeIo`, `FileIo`, `KeyIo`, `MemoryIo`), so that
-- nothing is assumed of them. The cipher (`Aead`) and the codecs of tokens (`Codec`) are parameters
-- too, and so are the file system (`Os`, which follows symbolic links by `Links`), SHA-256 and JSON;
-- what a call of the API sees outside is `ApiIo`. What their documentation promises is in
-- `IsAead`, `IsCodec`, `Reads`, `IsHash` and the hypotheses on `Os` (`KeepsFiles`, `ReadsBack`,
-- `ListsFiles`). Times are nanoseconds of one clock; a timer is the time at which
-- it fires, and its callback runs when it is due. Each event of a history runs to its end before the next; where the code gives up its lock inside an operation,
-- the critical sections are functions of their own (`boot_begin` and `boot_finish`, `pause_commit`,
-- `assign_seq` and `store`) and Lifecycle/Races puts others between them. A loop that waits takes
-- the list of what it sees. Loops over indices of the ring are recursions on its contents, which
-- list the entries by the same indices. Four functions have fuel. `stop_tree`, the cascade of
-- stops, has the depth to which it goes. `expand`, the loop of `parseItem`, has four rounds more
-- than the greatest value of its field: the loop ends in fewer, since it rises by at least one and
-- a step that wraps around happens at most a few times. The loop that evicts log entries for their
-- bytes has one round for each entry, and each takes one. The digits of a number (`decimal_of`) have
-- a round for each unit of it, of which each divides it by ten.
--
-- Not modelled: the registry's lists and migrations, the router's connections, the VMM backends,
-- the harness in the guest, the API's streams of logs and output, its frames, lists and status, its
-- clients, JSON, the chat services of the gateway, and of the agent the model clients, the tools, the
-- patterns of secrets and the memories put in a prompt. A timer of a deleted instance is not
-- followed. 64-bit sequence numbers are not taken to their end. A number in a call's id is exact, as
-- it is below 2^53, and an id is no array or object, at which Go panics; the limits of a context and
-- the ports of a spawn request are not negative. The statements by which the manager saves an
-- instance succeed. A cascade that the API starts in the background is in its answer (`tasks`).
pub mod Base
pub mod Files
pub mod Config
pub mod Kits
pub mod Blob
pub mod Overlay
pub mod Image
pub mod Daemons
pub mod Lifecycle
pub mod Window
pub mod Tether
pub mod Cron
pub mod Agent
pub mod Logstore
pub mod Gateway
pub mod Router
pub mod Registry
pub mod Secrets
pub mod Api
pub mod Aegisd
pub mod Tests
