-- ===== src/Lifecycle/Races.antt =====
-- Interleavings inside internal/lifecycle/manager.go: `bootInstance` and `pauseInstance` give up the
-- instance's lock between their first and last critical sections.
use aegisvm.Base.{=s_iff, ℕ, ◌<◌, some, String, true, false, ◌≡◌, arith}
use aegisvm.Lifecycle.Types.{running, paused, Instance, Config, failed, disabled, done}
use aegisvm.Lifecycle.Boot.{BootIo, accepted, boot_begin, boot_finish}
use aegisvm.Lifecycle.Idle.{may_pause, pause_commit, reset_activity}
use aegisvm.Lifecycle.Stop.{disable_instance}
use aegisvm.Lifecycle.Wake.{WakeIo, ensure_instance}

-- Once `DisableInstance` has run, whatever state it found, `EnsureInstance` refuses with the disabled
-- error and changes nothing.
pub ensure_instance-disable_instance :
    (cfg : Config) (now later : ℕ) (io : WakeIo) (i : Instance)
    → let j = (disable_instance now i).inst in
      let o = ensure_instance cfg later io j in (o.reply ≡ failed disabled) × (o.inst ≡ j)
unfolding ensure_instance disable_instance
ensure_instance-disable_instance cfg now later io i = ground arith

-- A boot that is under way when `DisableInstance` runs (no image to prepare, a directory backend, and
-- a guest that accepts `run`) still ends with the instance running, and disabled.
pub boot_finish-disable_instance :
    (cfg : Config) (now mid later h ch : ℕ) (v : String) (io : BootIo) (i j : Instance)
    → boot_begin now i ≡ some j
    → i.spec.image_ref ≡ ""
    → cfg.block_rootfs ≡ false
    → io.created ≡ some h
    → io.channel ≡ some ch
    → io.reply ≡ accepted v
    → let o = boot_finish cfg later io (disable_instance mid j).inst in
      (o.inst.state ≡ running) × (o.inst.enabled ≡ false) × (o.reply ≡ done)
unfolding boot_begin disable_instance boot_finish
boot_finish-disable_instance cfg now mid later h ch v io i j b e d c k r =
    ground (arith, =s_iff i.spec.image_ref "")

-- A connection that arrives while `PauseVM` runs on an enabled instance that may be paused finds it
-- running and is answered at once, and `pauseInstance` then marks it paused under the open connection.
pub pause_commit-reset_activity :
    (cfg : Config) (now mid : ℕ) (io : WakeIo) (i : Instance)
    → may_pause i ≡ true
    → i.enabled ≡ true
    → let j = reset_activity mid i in
      ((ensure_instance cfg mid io j).reply ≡ done)
      × ((ensure_instance cfg mid io j).inst ≡ j)
      × ((pause_commit cfg now j).state ≡ paused)
      × (0 < (pause_commit cfg now j).active_conns)
unfolding may_pause pause_commit reset_activity ensure_instance
pause_commit-reset_activity cfg now mid io i m e = ground arith
