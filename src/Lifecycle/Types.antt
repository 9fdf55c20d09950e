-- ===== src/Lifecycle/Types.antt =====
-- internal/lifecycle/manager.go: states, the instance record, and what an operation answers.
-- `Instance` keeps the fields set at creation in `Spec`. Times are nanoseconds of one clock; the
-- zero time and nil pointers are `none`; a timer is the time at which it fires, `none` when unarmed.
use aegisvm.Base.{ℕ, List, Option, String, ℤ, Bool, true, false}

pub data State : Type 0 where
  stopped starting running paused : State

pub data IdlePolicy : Type 0 where
  default leases_only : IdlePolicy

abbrev pub Env : Type 0
Env = List (String × String)

-- What a guest may do (`CapabilityToken`); numbers are Go ints and may be negative.
pub record Capabilities : Type 0 where
  pub parent_id : String
  pub issued_at : ℤ
  pub expire_at : ℤ
  pub spawn : Bool
  pub spawn_depth : ℤ
  pub max_children : ℤ
  pub allowed_images : List String
  pub max_memory_mb : ℤ
  pub max_vcpus : ℤ
  pub allowed_secrets : List String
  pub max_expose_ports : ℤ

pub record PortExpose : Type 0 where
  pub guest_port : ℕ
  pub protocol : String

pub record HostEndpoint : Type 0 where
  pub guest_port : ℕ
  pub host_port : ℕ
  pub protocol : String
  pub backend_addr : String

pub record Spec : Type 0 where
  pub id : String
  pub command : List String
  pub handle_alias : String
  pub image_ref : String
  pub workspace_path : String
  pub auto_workspace : Bool
  pub memory_mb : ℤ
  pub vcpus : ℤ
  pub secret_keys : List String
  pub kit : String
  pub idle_policy : IdlePolicy
  pub parent_id : String
  pub capabilities : Option Capabilities
  pub created_at : ℕ

pub record Instance : Type 0 where
  pub spec : Spec
  pub state : State
  pub enabled : Bool
  pub expose_ports : List PortExpose
  pub handle : Option ℕ
  pub channel : Option ℕ
  pub endpoints : List HostEndpoint
  pub rootfs_path : String
  pub env : Env
  pub boot_env : Env
  pub active_conns : ℕ
  pub idle_timer : Option ℕ
  pub stop_timer : Option ℕ
  pub last_activity : ℕ
  pub harness_version : String
  pub lease_held : Bool
  pub lease_expiry : ℕ
  pub lease_reason : String
  pub lease_timer : Option ℕ
  pub demuxer : Option ℕ
  pub log_capture : Bool
  pub exec_waiters : List String
  pub crash_count : ℕ
  pub last_crash_at : Option ℕ
  pub stopped_at : Option ℕ
  pub updated_at : ℕ

-- The part of the configuration and of `vmm.Capabilities()` that the manager reads.
pub record Config : Type 0 where
  pub pause_after_idle : ℕ
  pub stop_after_idle : ℕ
  pub default_memory_mb : ℤ
  pub default_vcpus : ℤ
  pub persistent_pause : Bool
  pub block_rootfs : Bool

pub record VmConfig : Type 0 where
  pub rootfs : String
  pub memory_mb : ℤ
  pub vcpus : ℤ
  pub expose_ports : List PortExpose
  pub workspace_path : String

-- What an operation does outside the instance, in order.
pub data Effect : Type 0 where
  notify : State → Effect
  create_vm : VmConfig → Effect
  start_vm stop_vm pause_vm resume_vm : Option ℕ → Effect
  run_rpc : ℕ → List String → Env → List ℕ → Bool → Effect
  shutdown_rpc demux_stop close_channel : ℕ → Effect
  exec_exit : String → ℤ → Effect
  log_exit : ℤ → Effect
  overlay_remove : Effect

pub data Error : Type 0 where
  not_found disabled crash_loop image_failed convert_failed create_failed start_failed : Error
  run_rpc_failed run_refused resume_failed wait_cancelled failed_to_start : Error
  exec_stopped no_channel exec_failed : Error

-- `waiting` is a call that has not returned yet.
pub data Reply : Type 0 where
  done : Reply
  failed : Error → Reply
  waiting : Reply

pub record Outcome : Type 0 where
  pub inst : Instance
  pub effects : List Effect
  pub reply : Reply

abbrev pub is_running : State → Bool
is_running running = true
is_running _ = false

abbrev pub is_paused : State → Bool
is_paused paused = true
is_paused _ = false

abbrev pub is_stopped : State → Bool
is_stopped stopped = true
is_stopped _ = false

abbrev pub is_live : State → Bool
is_live running = true
is_live starting = true
is_live _ = false

-- 10 s and 2 min in nanoseconds.
abbrev pub crash_uptime : ℕ
crash_uptime = 10000000000

abbrev pub crash_window : ℕ
crash_window = 120000000000

abbrev pub max_crashes : ℕ
max_crashes = 5
