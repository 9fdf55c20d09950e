-- ===== src/Api/Instances/Ports.antt =====
-- The public ports of an instance over being disabled and started by Api/Instances.
use aegisvm.Base.{
  ℕ, ◌<◌, ◌≡◌, refl, ap, ◌∙◌, subst, List, [], Option, none, some, String, true, false, ◌=s◌,
  =s_refl, if_cases, lookup, lookup-insert_self,
}
use aegisvm.Lifecycle.Types.{Spec, Instance, Outcome, is_stopped, Effect}
use aegisvm.Registry.Rows.{
  InstanceRow, Tables, get_instance, update, update_state, update_stopped_at, update_enabled,
}
use aegisvm.Registry.Rows.Lookup.{mapped, get_instance-update}
use aegisvm.Api.Instances.{
  Server, ApiIo, is_failed, find_instance, disable_found, handle_disable_instance,
  ensure_port_listeners, start_kit, start_found, handle_start_instance,
}
use aegisvm.Lifecycle.Manager.{Manager, on_found, on_instance}
use aegisvm.Lifecycle.Stop.{disable_instance}
use aegisvm.Lifecycle.Persist.{notices, on_state_change, saved_port, row_ports, allocate_all}
use aegisvm.Lifecycle.Expose.{has_port}
use aegisvm.Lifecycle.Persist.Notices.{notices_elim}
use aegisvm.Api.Instances.Allocation.{get_public_port-allocate_all}
use aegisvm.Router.{proxies_of, get_public_port, free_all_ports, get_all_public_ports}
use aegisvm.Router.Listeners.{or_nil-erase}

row_ports-mapped :
    (f : InstanceRow → InstanceRow) (o : Option InstanceRow)
    → ((r : InstanceRow) → (f r).public_ports ≡ r.public_ports)
    → row_ports (mapped f o) ≡ row_ports o
row_ports-mapped f none h = refl
row_ports-mapped f (some r) h = h r

row_ports-update :
    (id j : String) (f : InstanceRow → InstanceRow) (t : Tables)
    → ((r : InstanceRow) → (f r).public_ports ≡ r.public_ports)
    → row_ports (get_instance j (update id f t).0) ≡ row_ports (get_instance j t)
row_ports-update id j f t h =
    ap row_ports (get_instance-update id j f t)
    ∙ if_cases (λ o. row_ports o ≡ row_ports (get_instance j t)) (id =s j) _ _
        (row_ports-mapped f (get_instance j t) h) refl

row_ports-notices :
    (now : ℕ) (j : String) (es : List (String × Effect)) (t : Tables)
    → row_ports (get_instance j (notices now es t)) ≡ row_ports (get_instance j t)
unfolding on_state_change update_state update_stopped_at
row_ports-notices now j es t =
    notices_elim (λ u. row_ports (get_instance j u) ≡ row_ports (get_instance j t)) now
      (λ id st u k.
        row_ports-update id j _ _ (λ r. refl) ∙ (row_ports-update id j _ u (λ r. refl) ∙ k))
      es t refl

-- What a disabled instance leaves for its next start.
record Disabled (id : String) (i : Instance) (s s1 : Server) : Type 0 where
  found :
      (i1 : Instance) × (find_instance id s1.manager ≡ some i1)
      × (i1.spec ≡ i.spec)
      × (i1.expose_ports ≡ i.expose_ports)
  closed : proxies_of id s1.router ≡ []
  saved : row_ports (get_instance id s1.tables) ≡ row_ports (get_instance id s.tables)

find-lookup :
    (id : String) (m : Manager) (i : Instance)
    → lookup id m.instances ≡ some i
    → find_instance id m ≡ some i
unfolding find_instance
find-lookup id m i h = rw h refl

disable-done : (now : ℕ) (i : Instance) → is_failed (disable_instance now i).reply ≡ false
unfolding disable_instance
disable-done now i =
    if_cases (λ (o : Outcome). is_failed o.reply ≡ false) (is_stopped i.state) _ _ refl refl

pub on_instance-found :
    (id : String) (m : Manager) (now : ℕ) (i : Instance)
    → lookup id m.instances ≡ some i
    → (lookup id (on_instance m id (disable_instance now)).manager.instances
        ≡ some (disable_instance now i).inst)
      × (is_failed (on_instance m id (disable_instance now)).reply ≡ false)
unfolding on_instance on_found
on_instance-found id m now i h =
    rw h (lookup-insert_self id (disable_instance now i).inst m.instances, disable-done now i)

pub disable-keeps :
    (now : ℕ) (i : Instance)
    → ((disable_instance now i).inst.spec ≡ i.spec)
      × ((disable_instance now i).inst.expose_ports ≡ i.expose_ports)
unfolding disable_instance
disable-keeps now i =
    if_cases (λ (o : Outcome). (o.inst.spec ≡ i.spec) × (o.inst.expose_ports ≡ i.expose_ports))
      (is_stopped i.state) _ _ (refl, refl) (refl, refl)

disable_found-Disabled :
    (now : ℕ) (i : Instance) (s : Server)
    → lookup i.spec.id s.manager.instances ≡ some i
    → Disabled i.spec.id i s (disable_found now i s).server
unfolding disable_found update_enabled update_state free_all_ports
disable_found-Disabled now i s h =
    let id = i.spec.id in
    let (there, ok) = on_instance-found id s.manager now i h in
    let (same_spec, same_ports) = disable-keeps now i in
    rw ok (record {
      found = ((disable_instance now i).inst, find-lookup id _ _ there, same_spec, same_ports);
      closed = or_nil-erase id id s.router.port_proxies ∙ rw (=s_refl id) refl;
      saved =
          row_ports-update id id _ _ (λ r. refl)
          ∙ (row_ports-update id id _ _ (λ r. refl)
              ∙ row_ports-notices now id (on_instance s.manager id (disable_instance now)).effects
                  s.tables);
    })

start_found-router :
    (io : ApiIo) (now : ℕ) (i : Instance) (s : Server)
    → proxies_of i.spec.id s.router ≡ []
    → (start_found io now i s).server.router
      ≡ allocate_all io.listen i.spec.id
          (row_ports (get_instance i.spec.id s.tables))
          i.expose_ports
          s.router
unfolding start_found start_kit ensure_port_listeners get_all_public_ports
start_found-router io now i s h = rw h (
    if_cases
      (λ (x : Server).
        x.router
        ≡ allocate_all io.listen i.spec.id (row_ports (get_instance i.spec.id s.tables))
            i.expose_ports s.router)
      (i.spec.kit =s "") _ _ refl refl)

abbrev pub FreePorts : ApiIo → Type 0
FreePorts io = (guest p : ℕ) → 0 < p → io.listen guest p ≡ some p

start_found-port :
    (io : ApiIo) (later : ℕ) (i : Instance) (s : Server) (g : ℕ)
    → FreePorts io
    → has_port g i.expose_ports ≡ true
    → 0 < saved_port g (row_ports (get_instance i.spec.id s.tables))
    → proxies_of i.spec.id s.router ≡ []
    → get_public_port i.spec.id g (start_found io later i s).server.router
      ≡ some (saved_port g (row_ports (get_instance i.spec.id s.tables)))
start_found-port io later i s g free t p h =
    ap (get_public_port i.spec.id g) (start_found-router io later i s h)
    ∙ get_public_port-allocate_all io.listen i.spec.id (row_ports (get_instance i.spec.id s.tables))
        free i.expose_ports g s.router t p h

Disabled-start :
    (io : ApiIo) (later : ℕ) (i : Instance) (s s1 : Server) (g : ℕ)
    → FreePorts io
    → has_port g i.expose_ports ≡ true
    → 0 < saved_port g (row_ports (get_instance i.spec.id s.tables))
    → Disabled i.spec.id i s s1
    → get_public_port i.spec.id g (handle_start_instance io later i.spec.id s1).server.router
      ≡ some (saved_port g (row_ports (get_instance i.spec.id s.tables)))
unfolding handle_start_instance
Disabled-start io later i s s1 g free t p d =
    let (i1, f, spec, ports) = d.found in
    let same : i1.spec.id ≡ i.spec.id = ap (λ (x : Spec). x.id) spec in
    let exposes : has_port g i1.expose_ports ≡ true = ap (has_port g) ports ∙ t in
    let P : String → Type 0 = λ id.
      get_public_port id g (start_found io later i1 s1).server.router
      ≡ some (saved_port g (row_ports (get_instance id s1.tables))) in
    let had : P i1.spec.id =
      start_found-port io later i1 s1 g free exposes (rw (same, d.saved) p) (rw same d.closed) in
    rw f (subst P same had ∙ ap (λ m. some (saved_port g m)) d.saved)

-- Ports survive being disabled: where every port that is asked for by number is free, an instance that
-- is in the map under its id, and is disabled and started again through the API, has for each guest
-- port that it exposes and for which the registry has a public port that public port again.
pub get_public_port-start :
    (io : ApiIo) (now later : ℕ) (i : Instance) (s : Server) (g : ℕ)
    → FreePorts io
    → lookup i.spec.id s.manager.instances ≡ some i
    → has_port g i.expose_ports ≡ true
    → 0 < saved_port g (row_ports (get_instance i.spec.id s.tables))
    → get_public_port i.spec.id g
        (handle_start_instance io later i.spec.id
          (handle_disable_instance now i.spec.id s).server).server.router
      ≡ some (saved_port g (row_ports (get_instance i.spec.id s.tables)))
unfolding handle_disable_instance
get_public_port-start io now later i s g free h t p = rw (find-lookup i.spec.id s.manager i h) (
    Disabled-start io later i s (disable_found now i s).server g free t p
      (disable_found-Disabled now i s h))
