-- ===== src/Api/Instances/Create.antt =====
-- internal/api/server.go: `handleCreateInstance` and `handleRestartOrConflict`. The directory of a new
-- workspace, and the default configuration files of a kit that are written there, are left out.
use aegisvm.Base.{
  ℕ, List, [], ◌∷◌, Option, none, some, String, ℤ, pos, Bool, true, false, ◌&&◌, ◌||◌, leb, ◌==◌,
  ltb_ℤ, codes, ◌=s◌, if◌then◌else◌,
}
use aegisvm.Lifecycle.Types.{default, leases_only, Env, Capabilities, Instance, is_stopped}
use aegisvm.Lifecycle.Manager.{Manager, new_instance}
use aegisvm.Lifecycle.Persist.{CapabilitiesCodec, create}
use aegisvm.Router.{Router}
use aegisvm.Registry.Rows.{Tables}
use aegisvm.Api.Environment.{merge_secret_keys}
use aegisvm.Api.Instances.{
  Server, ensures, Response, ApiIo, by_handle, plain_reply, set_keys, saved_instance,
  ensure_port_listeners, start_kit, starting_again,
}

-- `createInstanceRequest`, with the workspace that `resolveWorkspace` or the handler makes of it.
pub record CreateRequest : Type 0 where
  pub image_ref : String
  pub command : List String
  pub env : Env
  pub secrets : List String
  pub handle : String
  pub workspace : String
  pub auto_workspace : Bool
  pub memory_mb : ℤ
  pub vcpus : ℤ
  pub idle_policy : String
  pub capabilities : Option Capabilities
  pub kit : String

abbrev pub default_image : String
default_image = "python:3.12-alpine"

abbrev is_empty : List String → Bool
is_empty [] = true
is_empty (c ∷ cs) = false

abbrev if_positive : ℤ → ℤ
if_positive n = if ltb_ℤ (pos 0) n then n else pos 0

abbrev is_alphanumeric : ℕ → Bool
is_alphanumeric c =
    (leb b'a' c && leb c b'z') || ((leb b'A' c && leb c b'Z') || (leb b'0' c && leb c b'9'))

unfoldable all_in_handle : List ℕ → Bool
all_in_handle [] = true
all_in_handle (c ∷ cs) =
    (is_alphanumeric c || (c == b'.' || (c == b'_' || c == b'-'))) && all_in_handle cs

-- `validHandle`
unfoldable pub valid_handle : List ℕ → Bool
unfolding all_in_handle
valid_handle [] = false
valid_handle (c ∷ cs) = is_alphanumeric c && all_in_handle cs

module _ (io : ApiIo) where
  abbrev pub merged_keys :
      CapabilitiesCodec → ℕ → List String → Instance → Server → Instance × Server
  merged_keys codec now [] i s = (i, s)
  merged_keys codec now (k ∷ ks) i s =
      let j = set_keys io i (merge_secret_keys i.spec.secret_keys (k ∷ ks)) in
      (j, saved_instance io codec now j s)

  -- `handleRestartOrConflict`
  unfoldable pub handle_restart_or_conflict :
      CapabilitiesCodec → ℕ → List String → Server → Instance → Response
  unfolding ensure_port_listeners start_kit
  handle_restart_or_conflict codec now keys s i =
      if is_stopped i.state
      then (let (j, s1) = merged_keys codec now keys i s in
          starting_again io j (start_kit io now j (ensure_port_listeners io j s1)) [])
      else plain_reply 409 s

  abbrev pub with_new : (Manager × Router × Tables) → Server → Server
  with_new (m, r, t) s = record s { manager = m; router = r; tables = t }

  abbrev pub requested : String → ℕ → CreateRequest → Instance
  requested id now req =
      new_instance
        (record {
          id = id;
          command = req.command;
          handle_alias = req.handle;
          image_ref = if req.image_ref =s "" then default_image else req.image_ref;
          workspace_path = req.workspace;
          auto_workspace = req.auto_workspace;
          memory_mb = if_positive req.memory_mb;
          vcpus = if_positive req.vcpus;
          secret_keys = req.secrets;
          kit = req.kit;
          idle_policy = if req.idle_policy =s "leases_only" then leases_only else default;
          parent_id = "";
          capabilities = req.capabilities;
          created_at = now;
        })
        req.env [] true now

  unfoldable pub create_new : CapabilitiesCodec → ℕ → String → CreateRequest → Server → Response
  unfolding start_kit create
  create_new codec now id req s =
      let i = requested id now req in
      if is_empty req.command then plain_reply 400 s else record {
        server =
            start_kit io now i
              (with_new (create io.listen codec now i s.manager s.router s.tables) s);
        status = 201;
        effects = [];
        tasks = ensures id ∷ [];
        removed = none;
      }

  unfoldable pub create_or_restart :
      CapabilitiesCodec → ℕ → String → CreateRequest → Server → Option Instance → Response
  unfolding create_new
  create_or_restart codec now id req s none = create_new codec now id req s
  create_or_restart codec now id req s (some existing) =
      handle_restart_or_conflict codec now req.secrets s existing

  -- `handleCreateInstance`; the id is new.
  unfoldable pub handle_create_instance :
      CapabilitiesCodec → ℕ → String → CreateRequest → Server → Response
  unfolding create_or_restart valid_handle
  handle_create_instance codec now id req s =
      if req.handle =s ""
      then create_new codec now id req s
      else if valid_handle (codes req.handle)
      then create_or_restart codec now id req s (by_handle req.handle s.manager.instances)
      else plain_reply 400 s
