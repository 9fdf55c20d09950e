-- ===== src/Api/Instances/Deleted.antt =====
-- What the deletion of an instance by Api/Instances leaves.
use aegisvm.Base.{
  ℕ, ◌≡◌, refl, ap, ◌∙◌, List, [], ◌∷◌, map, none, some, String, Bool, true, false, not, ◌=s◌,
  =s_iff, =s_refl, if◌then◌else◌, if_elim, lookup, lookup-erase, select, arith,
}
use aegisvm.Lifecycle.Types.{Instance, Effect}
use aegisvm.Lifecycle.Manager.{Manager, on_found, on_instance, delete}
use aegisvm.Lifecycle.Stop.{delete_instance}
use aegisvm.Lifecycle.Persist.{notice, notices, on_state_change}
use aegisvm.Lifecycle.Persist.Notices.{notice_elim}
use aegisvm.Router.{proxies_of, free_all_ports}
use aegisvm.Router.Listeners.{or_nil-erase}
use aegisvm.Registry.Rows.{
  InstanceRow, Tables, get_instance, update, update_state, update_stopped_at,
}
use aegisvm.Registry.Rows.Lookup.{get_instance-update, get_instance-delete_instance}
use aegisvm.Registry.Frames.{
  FrameRow, Watermark, of_instance, delete_tether_frames, delete_tether_watermarks,
}
use aegisvm.Daemons.{Process, procs_of, without, stop_daemons}
use aegisvm.Api.Instances.{
  Server, Response, is_failed, emptied, find_instance, delete_found, handle_delete_instance,
}

-- Nothing of the instance is left.
pub record Gone (id : String) (s : Server) : Type 0 where
  pub instance_gone : lookup id s.manager.instances ≡ none
  pub ports_gone : proxies_of id s.router ≡ []
  pub row_gone : get_instance id s.tables ≡ none
  pub frames_gone : of_instance id s.frames.frames ≡ []
  pub marks_gone : select (λ (w : Watermark). w.instance_id =s id) s.frames.watermarks ≡ []
  pub processes_gone : procs_of id s.daemons.procs ≡ []

-- All of the instance is as it was.
pub record Untouched (j : String) (s s2 : Server) : Type 0 where
  pub instance_kept : lookup j s2.manager.instances ≡ lookup j s.manager.instances
  pub ports_kept : proxies_of j s2.router ≡ proxies_of j s.router
  pub row_kept : get_instance j s2.tables ≡ get_instance j s.tables
  pub frames_kept : of_instance j s2.frames.frames ≡ of_instance j s.frames.frames
  pub marks_kept :
      select (λ (w : Watermark). w.instance_id =s j) s2.frames.watermarks
      ≡ select (λ (w : Watermark). w.instance_id =s j) s.frames.watermarks
  pub processes_kept : procs_of j s2.daemons.procs ≡ procs_of j s.daemons.procs

module _ (id : String) where
  update-other :
      (j : String) (f : InstanceRow → InstanceRow) (t : Tables)
      → (id =s j) ≡ false
      → get_instance j (update id f t).0 ≡ get_instance j t
  update-other j f t h = get_instance-update id j f t ∙ rw h refl

  notice-other :
      (now : ℕ) (j : String) (e : Effect) (t : Tables)
      → (id =s j) ≡ false
      → get_instance j (notice now id e t) ≡ get_instance j t
  unfolding on_state_change update_state update_stopped_at
  notice-other now j e t h =
      notice_elim (λ u. get_instance j u ≡ get_instance j t) now id e t
        (λ st. update-other j _ _ h ∙ update-other j _ t h) refl

  notices-other :
      (now : ℕ) (j : String) (es : List Effect) (t : Tables)
      → (id =s j) ≡ false
      → get_instance j (notices now (map (λ e. (id, e)) es) t) ≡ get_instance j t
  unfolding notices
  notices-other now j [] t h = refl
  notices-other now j (e ∷ es) t h =
      notices-other now j es (notice now id e t) h ∙ notice-other now j e t h

  frames-dropped :
      (rows : List FrameRow)
      → of_instance id (select (λ (r : FrameRow). not (r.instance_id =s id)) rows) ≡ []
  frames-dropped [] = refl
  frames-dropped (r ∷ rows) = ground (arith, frames-dropped rows)

  frames-other :
      (j : String) (rows : List FrameRow)
      → (id =s j) ≡ false
      → of_instance j (select (λ (r : FrameRow). not (r.instance_id =s id)) rows)
        ≡ of_instance j rows
  frames-other j [] h = refl
  frames-other j (r ∷ rows) h =
      ground
        (arith, frames-other j rows h, =s_iff r.instance_id id, =s_iff r.instance_id j, =s_iff id j)

  marks-dropped :
      (ws : List Watermark)
      → select
          (λ (w : Watermark). w.instance_id =s id)
          (select (λ (w : Watermark). not (w.instance_id =s id)) ws)
        ≡ []
  marks-dropped [] = refl
  marks-dropped (w ∷ ws) = ground (arith, marks-dropped ws)

  marks-other :
      (j : String) (ws : List Watermark)
      → (id =s j) ≡ false
      → select
          (λ (w : Watermark). w.instance_id =s j)
          (select (λ (w : Watermark). not (w.instance_id =s id)) ws)
        ≡ select (λ (w : Watermark). w.instance_id =s j) ws
  marks-other j [] h = refl
  marks-other j (w ∷ ws) h =
      ground
        (arith, marks-other j ws h, =s_iff w.instance_id id, =s_iff w.instance_id j, =s_iff id j)

  procs_of-without_self : (ps : List Process) → procs_of id (without id ps) ≡ []
  unfolding procs_of without
  procs_of-without_self [] = refl
  procs_of-without_self (p ∷ ps) = ground (arith, procs_of-without_self ps)

  procs_of-without_other :
      (j : String) (ps : List Process)
      → (id =s j) ≡ false
      → procs_of j (without id ps) ≡ procs_of j ps
  unfolding procs_of without
  procs_of-without_other j [] h = refl
  procs_of-without_other j (p ∷ ps) h = ground (
    arith,
    procs_of-without_other j ps h,
    =s_iff p.instance_id id,
    =s_iff p.instance_id j,
    =s_iff id j,
  )

pub delete-reply :
    (now : ℕ) (id : String) (m : Manager) (i : Instance)
    → lookup id m.instances ≡ some i
    → is_failed (delete m id now).reply ≡ false
unfolding delete on_instance on_found delete_instance
delete-reply now id m i h = rw h refl

delete-effects :
    (now : ℕ) (id : String) (m : Manager) (i : Instance)
    → lookup id m.instances ≡ some i
    → (delete m id now).effects ≡ map (λ e. (id, e)) (delete_instance now i).effects
unfolding delete on_instance on_found
delete-effects now id m i h = rw h refl

lookup-delete :
    (now : ℕ) (id j : String) (m : Manager)
    → lookup j (delete m id now).manager.instances
      ≡ (if id =s j then none else lookup j m.instances)
unfolding delete
lookup-delete now id j m = lookup-erase id j m.instances

-- What a deletion answers and leaves.
abbrev pub Deleted : String → Server → Response → Type 0
Deleted id s r =
    (r.status ≡ 200)
    × Gone id r.server
    × ((j : String) → (id =s j) ≡ false → Untouched j s r.server)

gone : (now : ℕ) (id : String) (s : Server) → Gone id (emptied now id s)
unfolding free_all_ports stop_daemons delete_tether_frames delete_tether_watermarks
gone now id s = record {
  instance_gone = lookup-delete now id id s.manager ∙ rw (=s_refl id) refl;
  ports_gone = or_nil-erase id id s.router.port_proxies ∙ rw (=s_refl id) refl;
  row_gone = get_instance-delete_instance id id _ ∙ rw (=s_refl id) refl;
  frames_gone = frames-dropped id s.frames.frames;
  marks_gone = marks-dropped id s.frames.watermarks;
  processes_gone = procs_of-without_self id s.daemons.procs;
}

untouched :
    (now : ℕ) (id j : String) (s : Server) (i : Instance)
    → lookup id s.manager.instances ≡ some i
    → (id =s j) ≡ false
    → Untouched j s (emptied now id s)
unfolding free_all_ports stop_daemons delete_tether_frames delete_tether_watermarks
untouched now id j s i h n = record {
  instance_kept = lookup-delete now id j s.manager ∙ rw n refl;
  ports_kept = or_nil-erase id j s.router.port_proxies ∙ rw n refl;
  row_kept =
      get_instance-delete_instance id j _
      ∙ (rw n (
          ap (λ es. get_instance j (notices now es s.tables)) (delete-effects now id s.manager i h)
          ∙ notices-other id now j (delete_instance now i).effects s.tables n));
  frames_kept = frames-other id j s.frames.frames n;
  marks_kept = marks-other id j s.frames.watermarks n;
  processes_kept = procs_of-without_other id j s.daemons.procs n;
}

pub not_both : {b : Bool} → b ≡ false → b ≡ true → ⊥
not_both f t = cc

delete_found-Deleted :
    (now : ℕ) (i x : Instance) (s : Server)
    → lookup i.spec.id s.manager.instances ≡ some x
    → Deleted i.spec.id s (delete_found now i s)
unfolding delete_found
delete_found-Deleted now i x s h =
    if_elim (Deleted i.spec.id s) (is_failed (delete s.manager i.spec.id now).reply) _ _
      (λ t. absurd (not_both (delete-reply now i.spec.id s.manager x h) t))
      (λ t. (refl, gone now i.spec.id s, λ j n. untouched now i.spec.id j s x h n))

-- A deleted instance is gone from everywhere: where each instance is in the map under its own id, a
-- deletion of an instance that is found, by id or handle, answers 200, leaves nothing of it in the
-- manager, the router, the registry's rows, frames and watermarks, and the table of processes, and
-- leaves all that belongs to other instances as it was.
pub handle_delete_instance-Deleted :
    (now : ℕ) (key : String) (i x : Instance) (s : Server)
    → find_instance key s.manager ≡ some i
    → lookup i.spec.id s.manager.instances ≡ some x
    → Deleted i.spec.id s (handle_delete_instance now key s)
unfolding handle_delete_instance
handle_delete_instance-Deleted now key i x s f h = rw f (delete_found-Deleted now i x s h)
