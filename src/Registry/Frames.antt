-- ===== src/Registry/Frames.antt =====
-- internal/registry/tether.go: the tables of frames and watermarks. The database is a library; its
-- tables are lists of rows, and a statement that it refuses changes nothing. JSON is a library too, so
-- a row holds the frame.
pub mod Order
use aegisvm.Base.{
  ℕ, ◌+◌, List, [], ◌∷◌, ◌++◌, map, Option, none, some, String, Bool, true, false, not, ◌&&◌, leb,
  ◌==◌, ◌=s◌, if◌then◌else◌, select, last,
}
use aegisvm.Tether.{Frame}

pub record FrameRow : Type 0 where
  pub instance_id : String
  pub seq : ℕ
  pub frame : Frame

pub record Watermark : Type 0 where
  pub instance_id : String
  pub channel : String
  pub seq : ℕ

pub record FrameTables : Type 0 where
  pub frames : List FrameRow
  pub watermarks : List Watermark

unfoldable pub same_row : FrameRow → FrameRow → Bool
same_row a b = (a.instance_id =s b.instance_id) && (a.seq == b.seq)

unfoldable pub drop_row : FrameRow → List FrameRow → List FrameRow
drop_row row [] = []
drop_row row (r ∷ rs) = let rest = drop_row row rs in if same_row r row then rest else r ∷ rest

-- `SaveTetherFrame`: INSERT OR REPLACE by instance and number.
unfoldable pub save_tether_frame : FrameRow → FrameTables → FrameTables
save_tether_frame row t = record t { frames = drop_row row t.frames ++ (row ∷ []) }

unfoldable pub insert_row : FrameRow → List FrameRow → List FrameRow
insert_row row [] = row ∷ []
insert_row row (r ∷ rs) =
    let rest = insert_row row rs in if leb row.seq r.seq then row ∷ r ∷ rs else r ∷ rest

-- ORDER BY seq
unfoldable pub by_seq : List FrameRow → List FrameRow
unfolding insert_row
by_seq [] = []
by_seq (r ∷ rs) = insert_row r (by_seq rs)

abbrev pub of_instance : String → List FrameRow → List FrameRow
of_instance id rows = select (λ (r : FrameRow). r.instance_id =s id) rows

abbrev pub frame_of : FrameRow → Frame
frame_of r = r.frame

-- `LoadAllTetherFrames`, for one instance: the last of its frames, by number.
unfoldable pub load_tether_frames : ℕ → String → FrameTables → List Frame
unfolding by_seq
load_tether_frames limit id t = last limit (map frame_of (by_seq (of_instance id t.frames)))

-- `DeleteTetherFrames`
unfoldable pub delete_tether_frames : String → FrameTables → FrameTables
delete_tether_frames id t = record t {
  frames = select (λ (r : FrameRow). not (r.instance_id =s id)) t.frames;
}

abbrev same_mark : Watermark → Watermark → Bool
same_mark a b = (a.instance_id =s b.instance_id) && (a.channel =s b.channel)

-- `SaveTetherWatermark`: INSERT OR REPLACE by instance and channel.
unfoldable pub save_tether_watermark : Watermark → FrameTables → FrameTables
save_tether_watermark w t = record t {
  watermarks = select (λ v. not (same_mark v w)) t.watermarks ++ (w ∷ []);
}

find_mark : String → String → List Watermark → ℕ
find_mark id channel [] = 0
find_mark id channel (w ∷ ws) =
    if (w.instance_id =s id) && (w.channel =s channel) then w.seq else find_mark id channel ws

-- `LoadTetherWatermark`
unfoldable pub load_tether_watermark : String → String → FrameTables → ℕ
unfolding find_mark
load_tether_watermark id channel t = find_mark id channel t.watermarks

-- `DeleteTetherWatermarks`
unfoldable pub delete_tether_watermarks : String → FrameTables → FrameTables
delete_tether_watermarks id t = record t {
  watermarks = select (λ (w : Watermark). not (w.instance_id =s id)) t.watermarks;
}

unfoldable pub save_all : List FrameRow → FrameTables → FrameTables
save_all [] t = t
save_all (r ∷ rs) t = save_all rs (save_tether_frame r t)
