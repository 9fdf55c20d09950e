-- ===== src/Lifecycle/Guest.antt =====
-- internal/lifecycle/guest.go: what a guest may ask of the manager, and `guest.spawn` in full.
pub mod Attenuation
use Prim.Native.String
use Prim.Native.Char.{code}
use text.Mathlib.Text.{starts_with}
use aegisvm.Base.{
  ℕ, zero, suc, ◌+◌, List, [], ◌∷◌, map, Option, none, some, String, ℤ, pos, Bool, true, false, not,
  ◌&&◌, ◌||◌, leb, ◌==◌, if◌then◌else◌, ◌=s◌, length, ltb_ℤ, leb_ℤ, ◌-ℤ◌, lookup,
}
use aegisvm.Lifecycle.Types.{
  State, running, default, Env, Spec, PortExpose, Capabilities, Instance, is_running,
}
use aegisvm.Lifecycle.Manager.{Manager, new_instance, create_instance, children}

pub record SpawnRequest : Type 0 where
  pub handle : String
  pub command : List String
  pub image_ref : String
  pub workspace : String
  -- Guest ports, none of them negative.
  pub exposes : List ℕ
  pub secrets : List String
  pub memory_mb : ℤ
  pub vcpus : ℤ
  pub env : Env

pub data SpawnError : Type 0 where
  not_permitted depth_exhausted no_command memory_over vcpus_over exposes_over : SpawnError
  image_not_allowed too_many_children invalid_handle : SpawnError

pub data SpawnReply : Type 0 where
  spawned : Manager → Instance → SpawnReply
  refused : SpawnError → SpawnReply

-- `x > cap && cap > 0`: a ceiling of 0 or less is none.
abbrev pub over : ℤ → ℤ → Bool
over x cap = ltb_ℤ cap x && ltb_ℤ (pos 0) cap

abbrev pub image_of : SpawnRequest → String
image_of req = if req.image_ref =s "" then "python:3.12-alpine" else req.image_ref

-- The loop over the allowed images.
unfoldable pub allows_image : List String → String → Bool
allows_image [] ref = false
allows_image (img ∷ imgs) ref = if img =s ref || img =s "*" then true else allows_image imgs ref

abbrev pub is_empty {ℓ} : {A : Type ℓ} → List A → Bool
is_empty [] = true
is_empty (_ ∷ _) = false

is_alnum : ℕ → Bool
is_alnum c = (leb b'a' c && leb c b'z') || (leb b'A' c && leb c b'Z') || (leb b'0' c && leb c b'9')

is_handle_char : ℕ → Bool
unfolding is_alnum
is_handle_char c = is_alnum c || c == b'.' || c == b'_' || c == b'-'

all_handle_chars : String → Bool
unfolding is_handle_char
all_handle_chars String.[] = true
all_handle_chars (String.◌∷◌ c s) = is_handle_char (code c) && all_handle_chars s

-- `^[a-zA-Z0-9][a-zA-Z0-9._-]*$`
unfoldable pub valid_handle : String → Bool
unfolding is_alnum all_handle_chars
valid_handle String.[] = false
valid_handle (String.◌∷◌ c s) = is_alnum (code c) && all_handle_chars s

-- The child's token: the parent's ceilings, one level less deep. (`MintChildToken` builds the same.)
unfoldable pub child_capabilities : Capabilities → Capabilities
child_capabilities token = record {
  parent_id = "";
  issued_at = pos 0;
  expire_at = pos 0;
  spawn = ltb_ℤ (pos 1) token.spawn_depth;
  spawn_depth = token.spawn_depth -ℤ pos 1;
  max_children = token.max_children;
  allowed_images = token.allowed_images;
  max_memory_mb = token.max_memory_mb;
  max_vcpus = token.max_vcpus;
  allowed_secrets = token.allowed_secrets;
  max_expose_ports = token.max_expose_ports;
}

-- A guest path under /workspace is taken to the parent's host path; any other is passed on as it is.
unfoldable pub host_workspace : String → String → String
host_workspace parent_path workspace =
    if not (parent_path =s "") && starts_with workspace "/workspace"
    then String.◌++◌ parent_path
        (String.slice workspace (String.len "/workspace") (String.len workspace))
    else workspace

-- The checks of `guestSpawn` in its order; `none` lets the spawn go on.
unfoldable pub spawn_check : Manager → String → Capabilities → SpawnRequest → Option SpawnError
spawn_check m parent token req =
    if not token.spawn
    then some not_permitted
    else if leb_ℤ token.spawn_depth (pos 0)
    then some depth_exhausted
    else if is_empty req.command
    then some no_command
    else if over req.memory_mb token.max_memory_mb
    then some memory_over
    else if over req.vcpus token.max_vcpus
    then some vcpus_over
    else if over (pos (length req.exposes)) token.max_expose_ports
    then some exposes_over
    else if not (is_empty token.allowed_images)
        && not (allows_image token.allowed_images (image_of req))
    then some image_not_allowed
    else if ltb_ℤ (pos 0) token.max_children
        && leb_ℤ token.max_children (pos (length (children parent m.instances)))
    then some too_many_children
    else if not (req.handle =s "") && not (valid_handle req.handle)
    then some invalid_handle
    else none

-- The instance that the options of `guestSpawn` describe; sizes are set only when positive.
unfoldable pub child_instance : Instance → Capabilities → SpawnRequest → String → ℕ → Instance
child_instance parent token req id now =
    new_instance
      (record {
        id = id;
        command = req.command;
        handle_alias = req.handle;
        image_ref = image_of req;
        workspace_path =
            if req.workspace =s ""
            then ""
            else host_workspace parent.spec.workspace_path req.workspace;
        auto_workspace = false;
        memory_mb = if ltb_ℤ (pos 0) req.memory_mb then req.memory_mb else pos 0;
        vcpus = if ltb_ℤ (pos 0) req.vcpus then req.vcpus else pos 0;
        secret_keys = [];
        kit = "";
        idle_policy = default;
        parent_id = parent.spec.id;
        capabilities = some (child_capabilities token);
        created_at = now;
      })
      req.env (map (λ p. record { guest_port = p; protocol = "http" }) req.exposes) true now

-- `guestSpawn` up to the boot in the background, with the id and time it draws.
unfoldable pub guest_spawn :
    Manager → Instance → Capabilities → SpawnRequest → String → ℕ → SpawnReply
guest_spawn m parent token req id now = elim (spawn_check m parent.spec.id token req) [
  | some e ↦ refused e
  | none ↦ let i = child_instance parent token req id now in spawned (create_instance m i) i
]
