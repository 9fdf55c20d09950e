-- ===== src/Tests/Tables.antt =====
-- The database of the daemon at concrete rows.
use aegisvm.Base.{
  ℕ, ◌≡◌, refl, List, [], ◌∷◌, none, some, pos, true, map, last, All, String, ◌=s◌, lookup, arith,
}
use aegisvm.Tether.{zero_frame}
use aegisvm.Registry.Frames.{
  FrameRow, FrameTables, save_all, load_tether_frames, of_instance, frame_of,
}
use aegisvm.Registry.Frames.Order.{Rises, load-save_all}
use aegisvm.Registry.Rows.{InstanceRow, Tables, get_instance}
use aegisvm.Registry.Rows.Upsert.{
  RegistryOp, saves, sets_state, deletes, registry_ops, Leaves, Held, registry_ops-Held,
}

abbrev row : String → ℕ → FrameRow
row id n = record { instance_id = id; seq = n; frame = record zero_frame { seq = n } }

abbrev rows : List FrameRow
rows = row "a" 4 ∷ row "b" 2 ∷ row "a" 5 ∷ []

rows-Rises : Rises [] rows
unfolding ◌=s◌
rows-Rises = (tt, ((λ h. cc, tt), ((λ h. omega arith, (λ h. cc, tt)), tt)))

abbrev pub no_frames : FrameTables
no_frames = record { frames = []; watermarks = [] }

load-save_all_example :
    load_tether_frames 1 "a" (save_all rows no_frames)
    ≡ last 1 (map frame_of (of_instance "a" rows))
load-save_all_example = load-save_all 1 "a" rows no_frames refl rows-Rises

abbrev pub web : InstanceRow
web = record {
  id = "a";
  state = "stopped";
  command = "serve" ∷ [];
  expose_ports = pos 80 ∷ [];
  vm_id = "";
  handle = "web";
  image_ref = "alpine";
  workspace = "";
  env = [];
  secret_keys = [];
  public_ports = (pos 80, pos 9001) ∷ [];
  enabled = true;
  memory_mb = pos 512;
  vcpus = pos 1;
  parent_id = "";
  capabilities = "";
  kit = "";
  auto_workspace = true;
  stopped_at = none;
  created_at = 7;
  updated_at = some 7;
}

abbrev pub tables : Tables
tables = record { instances = ("a", web) ∷ []; secrets = [] }

abbrev later : List RegistryOp
later =
    saves 9 (record web { public_ports = []; created_at = 9 })
    ∷ sets_state "a" "running"
    ∷ deletes "b"
    ∷ []

later-Leaves : All (Leaves "a") later
unfolding ◌=s◌
later-Leaves = (λ h. refl, (tt, (refl, tt)))

tables-Held : Held "a" 7 ((pos 80, pos 9001) ∷ []) tables
unfolding get_instance lookup ◌=s◌
tables-Held = (refl, refl)

registry_ops-Held_example : Held "a" 7 ((pos 80, pos 9001) ∷ []) (registry_ops later tables)
registry_ops-Held_example =
    registry_ops-Held "a" 7 ((pos 80, pos 9001) ∷ []) later tables later-Leaves tables-Held
