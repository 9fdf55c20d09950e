-- ===== src/Lifecycle/Boot.antt =====
-- internal/lifecycle/manager.go: `bootInstance` with `prepareImageRootfs` and `waitForRunning`. What the outside world
-- answers (image store, mkfs, VMM, the guest's reply to `run`) is the argument `BootIo`.
pub mod Endings
use aegisvm.Base.{
  ℕ, ◌+◌, ◌-◌, List, [], ◌∷◌, ◌++◌, map, Option, none, some, String, pos, Bool, true, false, not,
  ◌&&◌, ltb, leb, ltb_ℤ, if◌then◌else◌, ◌=s◌, lookup, insert,
}
use Prim.Native.String
use aegisvm.Lifecycle.Types.{
  State, stopped, starting, running, Env, HostEndpoint, Capabilities, Instance, Config, is_stopped,
  VmConfig, Effect, notify, create_vm, start_vm, stop_vm, run_rpc, demux_stop, close_channel,
  overlay_remove, Error, crash_loop, image_failed, convert_failed, create_failed, start_failed,
  run_rpc_failed, run_refused, wait_cancelled, failed_to_start, Reply, done, failed, waiting,
  Outcome, crash_window, max_crashes,
}

-- The guest's answer to the `run` call.
pub data RunReply : Type 0 where
  rpc_error : RunReply
  refused : RunReply
  accepted : String → RunReply

pub record ImageIo : Type 0 where
  pub configured : Bool
  pub pull : Option Env
  pub overlay : Option String
  pub inject_ok : Bool
  pub manifest_ok : Bool
  pub kit_inject_ok : Bool

pub record BootIo : Type 0 where
  pub image : ImageIo
  pub pre_boot : Option Env
  pub ext4_exists : Bool
  pub rootfs_is_dir : Bool
  pub mkfs_ok : Bool
  pub created : Option ℕ
  pub channel : Option ℕ
  pub endpoints : List HostEndpoint
  pub has_secret_store : Bool
  pub token_ok : Bool
  pub reply : RunReply

-- One tick of `waitForRunning`: the context ended, or the state that was seen.
pub data Poll : Type 0 where
  cancelled : Poll
  saw : State → Poll

unfoldable pub wait_for_running : List Poll → Reply
wait_for_running [] = waiting
wait_for_running (cancelled ∷ ps) = failed wait_cancelled
wait_for_running (saw running ∷ ps) = done
wait_for_running (saw stopped ∷ ps) = failed failed_to_start
wait_for_running (saw _ ∷ ps) = wait_for_running ps

-- Image variables are defaults: explicit ones win, except that PATH is put in front.
merge_image_var : String → String → Env → Env
merge_image_var k v env =
    if k =s "PATH"
    then elim (lookup "PATH" env) [
      | some existing ↦ insert "PATH" (String.◌++◌ v (String.◌++◌ ":" existing)) env
      | none ↦ insert "PATH" v env
    ]
    else elim (lookup k env) [ some _ ↦ env | none ↦ insert k v env ]

unfoldable pub merge_image_env : Env → Env → Env
unfolding merge_image_var
merge_image_env [] env = env
merge_image_env ((k, v) ∷ rest) env = merge_image_env rest (merge_image_var k v env)

-- The last part of `prepareImageRootfs`, once the overlay stands.
inject_binaries : ImageIo → Instance → String → Outcome
inject_binaries io inst overlay =
    let undone : Outcome = record {
      inst = inst;
      effects = overlay_remove ∷ [];
      reply = failed image_failed;
    } in
    let ready : Outcome = record {
      inst = record inst { rootfs_path = overlay };
      effects = [];
      reply = done;
    } in
    if not io.inject_ok
    then undone
    else if inst.spec.kit =s ""
    then ready
    else if io.manifest_ok && io.kit_inject_ok
    then ready
    else undone

on_overlay : ImageIo → Instance → Option String → Outcome
unfolding inject_binaries
on_overlay io inst none = record { inst = inst; effects = []; reply = failed image_failed }
on_overlay io inst (some dir) = inject_binaries io inst dir

on_pull : ImageIo → Instance → Option Env → Outcome
unfolding on_overlay
on_pull io inst none = record { inst = inst; effects = []; reply = failed image_failed }
on_pull io inst (some image_env) =
    on_overlay io (record inst { env = merge_image_env image_env inst.env }) io.overlay

unfoldable pub prepare_image_rootfs : ImageIo → Instance → Outcome
unfolding on_pull
prepare_image_rootfs io inst =
    if io.configured
    then on_pull io inst io.pull
    else record { inst = inst; effects = []; reply = failed image_failed }

-- The crash backoff: `none` refuses the boot.
unfoldable pub crash_gate : ℕ → Instance → Option Instance
crash_gate now inst = elim inst.last_crash_at [
  | none ↦ some inst
  | some t ↦
      if ltb 0 inst.crash_count
      then if ltb crash_window (now - t)
        then some (record inst { crash_count = 0 })
        else if leb max_crashes inst.crash_count
        then none
        else some inst
      else some inst
]

-- The first critical section of `bootInstance`, of an instance that is stopped.
unfoldable pub boot_begin : ℕ → Instance → Option Instance
unfolding crash_gate
boot_begin now inst = elim (crash_gate now inst) [
  | none ↦ none
  | some i ↦ some (record i { state = starting; stopped_at = none; updated_at = now })
]

-- Every error path of a boot ends so.
abbrev pub boot_failed : ℕ → Instance → List Effect → Error → Outcome
boot_failed now inst es e = record {
  inst = record inst { state = stopped; stopped_at = some now; updated_at = now };
  effects = es ++ (notify stopped ∷ []);
  reply = failed e;
}

unfoldable pub vm_config : Config → Instance → String → VmConfig
vm_config cfg inst rootfs = record {
  rootfs = rootfs;
  memory_mb =
      if ltb_ℤ (pos 0) inst.spec.memory_mb then inst.spec.memory_mb else cfg.default_memory_mb;
  vcpus = if ltb_ℤ (pos 0) inst.spec.vcpus then inst.spec.vcpus else cfg.default_vcpus;
  expose_ports = inst.expose_ports;
  workspace_path = inst.spec.workspace_path;
}

-- The capability token is sent where one could be made.
sends_token : BootIo → Option Capabilities → Bool
sends_token io none = false
sends_token io (some caps) = io.has_secret_store && io.token_ok

-- After the guest's answer to the `run` call: the VM is up on channel `ch`.
on_reply : Config → ℕ → BootIo → Instance → ℕ → ℕ → List Effect → RunReply → Outcome
on_reply cfg now io inst h ch es rpc_error =
    boot_failed now inst (es ++ (demux_stop ch ∷ close_channel ch ∷ stop_vm (some h) ∷ []))
      run_rpc_failed
on_reply cfg now io inst h ch es refused =
    boot_failed now inst (es ++ (demux_stop ch ∷ close_channel ch ∷ stop_vm (some h) ∷ []))
      run_refused
on_reply cfg now io inst h ch es (accepted version) = record {
  inst = record inst {
    harness_version = if version =s "" then inst.harness_version else version;
    handle = some h;
    channel = some ch;
    endpoints = io.endpoints;
    state = running;
    last_activity = now;
    demuxer = some ch;
    log_capture = true;
    idle_timer = some (now + cfg.pause_after_idle);
    updated_at = now;
  };
  effects = es ++ (notify running ∷ []);
  reply = done;
}

-- After `StartVM`.
on_channel : Config → ℕ → BootIo → Instance → ℕ → List Effect → Option ℕ → Outcome
unfolding on_reply sends_token
on_channel cfg now io inst h es none =
    boot_failed now inst (es ++ (stop_vm (some h) ∷ [])) start_failed
on_channel cfg now io inst h es (some ch) =
    on_reply cfg now io inst h ch
      (es
        ++ (run_rpc ch inst.spec.command inst.boot_env (map (λ p. p.guest_port) inst.expose_ports)
              (sends_token io inst.spec.capabilities)
            ∷ []))
      io.reply

-- After `CreateVM`.
on_created : Config → ℕ → BootIo → Instance → List Effect → Option ℕ → Outcome
unfolding on_channel
on_created cfg now io inst es none = boot_failed now inst es create_failed
on_created cfg now io inst es (some h) =
    on_channel cfg now io inst h (es ++ (start_vm (some h) ∷ [])) io.channel

create_guest : Config → ℕ → BootIo → Instance → String → List Effect → Outcome
unfolding on_created vm_config
create_guest cfg now io inst rootfs es =
    on_created cfg now io inst (es ++ (create_vm (vm_config cfg inst rootfs) ∷ [])) io.created

-- `onPreBoot`, where it is set, replaces the boot environment.
abbrev pre_boot_env : Option Env → Env → Env
pre_boot_env none env = env
pre_boot_env (some env) _ = env

-- From the pre-boot callback on: the root file system is there.
boot_prepared : Config → ℕ → BootIo → Instance → List Effect → Outcome
unfolding create_guest
boot_prepared cfg now io inst es =
    let resolved : Instance = record inst { boot_env = pre_boot_env io.pre_boot inst.boot_env } in
    let ext4 = String.◌++◌ inst.rootfs_path ".ext4" in
    if cfg.block_rootfs
    then if io.ext4_exists
      then create_guest cfg now io resolved ext4 es
      else if io.rootfs_is_dir
      then if io.mkfs_ok
        then create_guest cfg now io resolved ext4 es
        else boot_failed now resolved es convert_failed
      else create_guest cfg now io resolved inst.rootfs_path es
    else create_guest cfg now io resolved inst.rootfs_path es

-- After `prepareImageRootfs`.
boot_imaged : Config → ℕ → BootIo → Instance → List Effect → Reply → Outcome
unfolding boot_prepared
boot_imaged cfg now io inst es (failed _) = boot_failed now inst es image_failed
boot_imaged cfg now io inst es _ = boot_prepared cfg now io inst es

-- The rest of `bootInstance`, after its first critical section.
unfoldable pub boot_finish : Config → ℕ → BootIo → Instance → Outcome
unfolding boot_prepared boot_imaged prepare_image_rootfs
boot_finish cfg now io inst =
    if not (inst.spec.image_ref =s "") && inst.rootfs_path =s ""
    then boot_imaged cfg now io (prepare_image_rootfs io.image inst).inst
        (prepare_image_rootfs io.image inst).effects (prepare_image_rootfs io.image inst).reply
    else boot_prepared cfg now io inst []

-- After the first critical section; `none` is a refused boot.
on_begun : Config → ℕ → BootIo → Instance → Option Instance → Outcome
unfolding boot_finish
on_begun cfg later io inst none = record { inst = inst; effects = []; reply = failed crash_loop }
on_begun cfg later io inst (some i) = record {
  inst = (boot_finish cfg later io i).inst;
  effects = notify starting ∷ (boot_finish cfg later io i).effects;
  reply = (boot_finish cfg later io i).reply;
}

-- `bootInstance`, begun at `now` and ended at `later`; `polls` serve a second caller.
unfoldable pub boot_instance : Config → ℕ → ℕ → BootIo → List Poll → Instance → Outcome
unfolding boot_begin on_begun
boot_instance cfg now later io polls inst =
    if is_stopped inst.state
    then on_begun cfg later io inst (boot_begin now inst)
    else record { inst = inst; effects = []; reply = wait_for_running polls }
