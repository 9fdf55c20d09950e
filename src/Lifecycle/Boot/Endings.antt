-- ===== src/Lifecycle/Boot/Endings.antt =====
-- The two ways in which `boot_finish` ends, as a rule for every statement about its outcome.
use aegisvm.Base.{
  ◌∙◌, ap, if_cases, refl, inl, inr, Bool-cases, ℕ, ◌+◌, List, [], ◌∷◌, ◌++◌, Option, none, some,
  String, true, false, not, ◌≡◌, arith, ◌&&◌, ◌=s◌,
}
use aegisvm.Lifecycle.Types.{
  demux_stop, close_channel, stop_vm, stopped, starting, is_stopped, crash_loop, running, Env,
  Instance, Config, Effect, notify, Error, Reply, done, failed, Outcome,
}
use aegisvm.Lifecycle.Replay.{vm_after, vm_after-append, stop_after_start}
use aegisvm.Lifecycle.Boot.{
  Poll, wait_for_running, boot_begin, boot_instance, on_begun, RunReply, rpc_error, refused,
  accepted, ImageIo, BootIo, boot_failed, on_reply, on_channel, on_created, create_guest,
  boot_prepared, boot_imaged, boot_finish, prepare_image_rootfs, pre_boot_env,
}

-- The instance as a boot prepares it: only the two environments and the root file system differ.
abbrev pub prepared : Instance → Env → String → Env → Instance
prepared i env rootfs boot_env = record i { env = env; rootfs_path = rootfs; boot_env = boot_env }

-- The outcome of a boot that succeeds.
abbrev pub booted : Config → ℕ → BootIo → Instance → ℕ → ℕ → String → List Effect → Outcome
booted cfg now io i h ch version es = record {
  inst = record i {
    harness_version = version;
    handle = some h;
    channel = some ch;
    endpoints = io.endpoints;
    state = running;
    last_activity = now;
    demuxer = some ch;
    log_capture = true;
    idle_timer = some (now + cfg.pause_after_idle);
    updated_at = now;
  };
  effects = es ++ (notify running ∷ []);
  reply = done;
}

-- Preparing an image changes the environment and the root file system alone.
prepare_image_rootfs_frame :
    (io : ImageIo) (i : Instance)
    → (prepare_image_rootfs io i).inst ≡ record i {
      env = (prepare_image_rootfs io i).inst.env;
      rootfs_path = (prepare_image_rootfs io i).inst.rootfs_path;
    }
unfolding prepare_image_rootfs
prepare_image_rootfs_frame io i = ground arith

prepare_image_rootfs_vm :
    (io : ImageIo) (i : Instance) → vm_after (prepare_image_rootfs io i).effects none ≡ none
unfolding prepare_image_rootfs vm_after
prepare_image_rootfs_vm io i = ground arith

-- A boot that fails at the `run` call takes its VM down again.
stopped_after :
    (h ch : ℕ) (es : List Effect)
    → vm_after es none ≡ some h
    → vm_after (es ++ (demux_stop ch ∷ close_channel ch ∷ stop_vm (some h) ∷ [])) none ≡ none
unfolding vm_after
stopped_after h ch es up = vm_after-append es _ none ∙ stop_after_start h _ up

module _ {ℓ} (cfg : Config) (now : ℕ) (io : BootIo) (P : Outcome → Type ℓ) where
  -- What a proof about boots from `i` supplies: the case of an error and that of success.
  abbrev pub Fails : Instance → Type ℓ
  Fails i =
      (env boot_env : Env) (rootfs : String) (es : List Effect) (e : Error)
      → vm_after es none ≡ none
      → P (boot_failed now (prepared i env rootfs boot_env) es e)

  abbrev pub Boots : Instance → Type ℓ
  Boots i =
      (env boot_env : Env) (rootfs : String) (h ch : ℕ) (version : String) (es : List Effect)
      → vm_after es none ≡ some h
      → P (booted cfg now io (prepared i env rootfs boot_env) h ch version es)

  module _ (i : Instance) (fails : Fails i) (boots : Boots i) (env boot_env : Env) where
    reply-cases :
        (r : String) (h ch : ℕ) (es : List Effect) (a : RunReply)
        → vm_after es none ≡ some h
        → P (on_reply cfg now io (prepared i env r boot_env) h ch es a)
    unfolding on_reply
    reply-cases r h ch es rpc_error up = fails env boot_env r _ _ (stopped_after h ch es up)
    reply-cases r h ch es refused up = fails env boot_env r _ _ (stopped_after h ch es up)
    reply-cases r h ch es (accepted version) up = boots env boot_env r h ch _ es up

    channel-cases :
        (r : String) (h : ℕ) (es : List Effect) (c : Option ℕ)
        → vm_after es none ≡ some h
        → P (on_channel cfg now io (prepared i env r boot_env) h es c)
    unfolding on_channel vm_after
    channel-cases r h es none up =
        fails env boot_env r _ _ (vm_after-append es _ none ∙ stop_after_start h _ up)
    channel-cases r h es (some ch) up =
        reply-cases r h ch _ io.reply (vm_after-append es _ none ∙ up)

    created-cases :
        (r : String) (es : List Effect) (c : Option ℕ)
        → vm_after es none ≡ none
        → P (on_created cfg now io (prepared i env r boot_env) es c)
    unfolding on_created vm_after
    created-cases r es none down = fails env boot_env r es _ down
    created-cases r es (some h) down = channel-cases r h _ io.channel (vm_after-append es _ none)

    create-cases :
        (r rootfs : String) (es : List Effect)
        → vm_after es none ≡ none
        → P (create_guest cfg now io (prepared i env r boot_env) rootfs es)
    unfolding create_guest vm_after
    create-cases r rootfs es down = created-cases r _ io.created (vm_after-append es _ none ∙ down)

  module _ (i : Instance) (fails : Fails i) (boots : Boots i) where
    prepared-cases :
        (env : Env) (r : String) (es : List Effect)
        → vm_after es none ≡ none
        → P (boot_prepared cfg now io (record i { env = env; rootfs_path = r }) es)
    unfolding boot_prepared
    prepared-cases env r es down =
        if_cases P cfg.block_rootfs _ _
          (if_cases P io.ext4_exists _ _ (go _) (
            if_cases P io.rootfs_is_dir _ _
              (if_cases P io.mkfs_ok _ _ (go _)
                (fails env (pre_boot_env io.pre_boot i.boot_env) r _ _ down))
              (go _)))
          (go _)
      where
        go :
            (rootfs : String)
            → P (
                create_guest cfg now io
                  (prepared i env r (pre_boot_env io.pre_boot i.boot_env))
                  rootfs
                  es)
        go rootfs =
            create-cases i fails boots env (pre_boot_env io.pre_boot i.boot_env) r rootfs es down

    imaged-cases :
        (env : Env) (r : String) (es : List Effect) (a : Reply)
        → vm_after es none ≡ none
        → P (boot_imaged cfg now io (record i { env = env; rootfs_path = r }) es a)
    unfolding boot_imaged
    imaged-cases env r es (failed _) down = fails env i.boot_env r es _ down
    imaged-cases env r es _ down = prepared-cases env r es down

    -- Whatever holds of both endings holds of the outcome of a boot.
    pub boot_finish-cases : P (boot_finish cfg now io i)
    unfolding boot_finish
    boot_finish-cases =
        if_cases P (not (i.spec.image_ref =s "") && i.rootfs_path =s "") _ _
          (rw (prepare_image_rootfs_frame io.image i)
            (imaged-cases _ _ _ _ (prepare_image_rootfs_vm io.image i)))
          (prepared-cases i.env i.rootfs_path [] (unfold vm_after in refl))

-- The instance after the first critical section; only the crash count may have changed besides.
abbrev pub begun : ℕ → Instance → ℕ → Instance
begun now i crashes = record i {
  crash_count = crashes;
  state = starting;
  stopped_at = none;
  updated_at = now;
}

pub boot_begin-begun :
    (now : ℕ) (i j : Instance) → boot_begin now i ≡ some j → j ≡ begun now i j.crash_count
unfolding boot_begin
boot_begin-begun now i j h = ground arith

-- `bootInstance` announces the start, and goes on as `boot_finish` does.
abbrev pub announced : Outcome → Outcome
announced o = record { inst = o.inst; effects = notify starting ∷ o.effects; reply = o.reply }

module _ {ℓ} (cfg : Config) (now later : ℕ) (io : BootIo) (ps : List Poll) (P : Outcome → Type ℓ)
    (i : Instance)
    (waits : is_stopped i.state ≡ false
      → P (record { inst = i; effects = []; reply = wait_for_running ps }))
    (refuses : boot_begin now i ≡ none
      → P (record { inst = i; effects = []; reply = failed crash_loop }))
    (fails : (crashes : ℕ)
      → i.state ≡ stopped
      → boot_begin now i ≡ some (begun now i crashes)
      → Fails cfg later io (λ o. P (announced o)) (begun now i crashes))
    (boots : (crashes : ℕ)
      → i.state ≡ stopped
      → boot_begin now i ≡ some (begun now i crashes)
      → Boots cfg later io (λ o. P (announced o)) (begun now i crashes)) where
  begun-cases :
      (b : Option Instance)
      → i.state ≡ stopped
      → boot_begin now i ≡ b
      → P (on_begun cfg later io i b)
  unfolding on_begun
  begun-cases none s e = refuses e
  begun-cases (some j) s e =
      let same = boot_begin-begun now i j e in
      let begins = e ∙ ap some same in
      rw same (
        boot_finish-cases cfg later io (λ o. P (announced o)) (begun now i j.crash_count)
          (fails j.crash_count s begins) (boots j.crash_count s begins))

  -- The same of `boot_instance`: it waits, refuses, fails or boots.
  pub boot_instance-cases : P (boot_instance cfg now later io ps i)
  unfolding boot_instance
  boot_instance-cases = elim (Bool-cases (is_stopped i.state)) [
    | inl s ↦ rw s (begun-cases (boot_begin now i) (ground arith) refl)
    | inr s ↦ rw s (waits s)
  ]
