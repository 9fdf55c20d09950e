-- ===== src/Tests/Life.antt =====
-- A concrete instance of internal/lifecycle/manager.go, and what the theorems say of it.
use aegisvm.Base.{ℕ, List, [], ◌∷◌, none, some, pos, true, false, ◌≡◌, refl, arith}
use aegisvm.Lifecycle.Types.{stopped, starting, running, paused, default, Spec, Instance, Config}
use aegisvm.Lifecycle.Boot.{ImageIo, BootIo, accepted, boot_begin}
use aegisvm.Lifecycle.Idle.{may_pause, pause_instance}
use aegisvm.Lifecycle.Wake.{WakeIo}
use aegisvm.Lifecycle.Events.{
  Event, starts, connects, closes, keeps_alive, idle_due, stop_due, lease_due, step, run,
}
use aegisvm.Lifecycle.Replay.{vm_after, told_after}
use aegisvm.Lifecycle.Invariant.{Consistent, run-Consistent}
use aegisvm.Lifecycle.Agreement.{vm_of, run-Agrees}
use aegisvm.Lifecycle.Idling.{Idling}
use aegisvm.Lifecycle.Scaling.{last_time, run-Idling, idle-scales_to_zero}
use aegisvm.Lifecycle.Backoff.{IsBackedOff, run-IsBackedOff}

abbrev pub cfg : Config
cfg = record {
  pause_after_idle = 60;
  stop_after_idle = 300;
  default_memory_mb = pos 512;
  default_vcpus = pos 1;
  persistent_pause = false;
  block_rootfs = false;
}

abbrev spec : Spec
spec = record {
  id = "inst-1";
  command = "sh" ∷ [];
  handle_alias = "web";
  image_ref = "";
  workspace_path = "/work";
  auto_workspace = false;
  memory_mb = pos 0;
  vcpus = pos 0;
  secret_keys = [];
  kit = "";
  idle_policy = default;
  parent_id = "";
  capabilities = none;
  created_at = 0;
}

abbrev pub fresh : Instance
fresh = record {
  spec = spec;
  state = stopped;
  enabled = true;
  expose_ports = [];
  handle = none;
  channel = none;
  endpoints = [];
  rootfs_path = "/rootfs";
  env = [];
  boot_env = [];
  active_conns = 0;
  idle_timer = none;
  stop_timer = none;
  last_activity = 0;
  harness_version = "";
  lease_held = false;
  lease_expiry = 0;
  lease_reason = "";
  lease_timer = none;
  demuxer = none;
  log_capture = false;
  exec_waiters = [];
  crash_count = 0;
  last_crash_at = none;
  stopped_at = none;
  updated_at = 0;
}

abbrev pub up : Instance
up = record fresh {
  state = running;
  handle = some 7;
  channel = some 3;
  demuxer = some 3;
  log_capture = true;
  idle_timer = some 70;
  last_activity = 10;
}

abbrev image_io : ImageIo
image_io = record {
  configured = false;
  pull = none;
  overlay = none;
  inject_ok = false;
  manifest_ok = false;
  kit_inject_ok = false;
}

abbrev boot_io : BootIo
boot_io = record {
  image = image_io;
  pre_boot = none;
  ext4_exists = false;
  rootfs_is_dir = true;
  mkfs_ok = false;
  created = some 7;
  channel = some 3;
  endpoints = [];
  has_secret_store = false;
  token_ok = false;
  reply = accepted "1.0";
}

abbrev pub wake_io : WakeIo
wake_io = record { later = 10; boot = boot_io; polls = []; resume_ok = true }

-- Boot, a lease that runs out, a connection, then scale to zero.
abbrev history : List (ℕ × Event)
history =
    (5, starts wake_io)
    ∷ (20, keeps_alive 1 "agent")
    ∷ (1000020, lease_due)
    ∷ (1000030, connects)
    ∷ (1000040, closes)
    ∷ (1000100, idle_due true)
    ∷ (1000400, stop_due)
    ∷ []

fresh-Consistent : Consistent fresh
fresh-Consistent = ground arith

up-Consistent : Consistent up
up-Consistent = ground arith

run-Consistent_example : Consistent (run cfg history fresh).0
run-Consistent_example = run-Consistent cfg history fresh fresh-Consistent

run-Agrees_example :
    (vm_after (run cfg history fresh).1 none ≡ vm_of (run cfg history fresh).0)
    × (told_after (run cfg history fresh).1 stopped ≡ (run cfg history fresh).0.state)
run-Agrees_example = run-Agrees cfg history fresh fresh-Consistent

fresh-Idling : Idling cfg 0 fresh
unfolding may_pause
fresh-Idling = ground arith

up-Idling : Idling cfg 10 up
unfolding may_pause
up-Idling = ground arith

run-Idling_example : Idling cfg (last_time 0 history) (run cfg history fresh).0
run-Idling_example = run-Idling cfg 0 history fresh (ground arith) fresh-Idling

pauses_up : (step cfg 70 (idle_due true) up).inst.state ≡ paused
unfolding step pause_instance
pauses_up = refl

idle-scales_to_zero_example :
    let (j, fs) = run cfg ((70, idle_due true) ∷ (370, stop_due) ∷ []) up in
    ((step cfg 70 (idle_due true) up).inst.state ≡ paused)
    × (j.state ≡ stopped)
    × (vm_after fs (some 7) ≡ none)
idle-scales_to_zero_example =
    idle-scales_to_zero cfg 10 70 370 up up-Idling refl refl refl refl (omega arith) (omega arith)

-- The instance while it boots.
abbrev booting : Instance
booting = record fresh { state = starting; updated_at = 5 }

begins : boot_begin 5 fresh ≡ some booting
unfolding boot_begin
begins = refl

pausable : may_pause up ≡ true
unfolding may_pause
pausable = refl

-- An exec that waits when the instance falls idle.
abbrev busy : Instance
busy = record up { exec_waiters = "exec-1" ∷ [] }

busy-Idling : Idling cfg 10 busy
unfolding may_pause
busy-Idling = ground arith

fresh-IsBackedOff : IsBackedOff fresh
fresh-IsBackedOff = ground arith

run-IsBackedOff_example : IsBackedOff (run cfg history fresh).0
run-IsBackedOff_example = run-IsBackedOff cfg history fresh fresh-IsBackedOff

abbrev shaky : Instance
shaky = record up { crash_count = 4; last_crash_at = some 5 }
