-- ===== src/Api/Instances/Prune.antt =====
-- internal/api/server.go: `handlePruneInstances`.
use aegisvm.Base.{
  ℕ, ◌-◌, List, [], ◌∷◌, Option, none, some, String, Bool, true, false, ◌&&◌, ltb, if◌then◌else◌,
}
use aegisvm.Lifecycle.Types.{Instance, is_stopped}
use aegisvm.Lifecycle.Manager.{delete}
use aegisvm.Router.{free_all_ports}
use aegisvm.Api.Instances.{Server, is_failed, forget_rows}

unfoldable pub is_before : Option ℕ → ℕ → Bool
is_before none cutoff = false
is_before (some t) cutoff = ltb t cutoff

unfoldable pub prune_one : ℕ → Instance → Server → Server × Bool
prune_one now i s =
    let s1 : Server = record s { router = free_all_ports i.spec.id s.router } in
    let a = delete s.manager i.spec.id now in
    if is_failed a.reply then (s1, false) else (forget_rows now i.spec.id a s1, true)

unfoldable pub prune_each : ℕ → ℕ → List (String × Instance) → Server → Server × List String
unfolding is_before prune_one
prune_each now cutoff [] s = (s, [])
prune_each now cutoff ((id, i) ∷ rest) s =
    let (s1, gone) =
      if is_stopped i.state && is_before i.stopped_at cutoff
      then prune_one now i s
      else (s, false) in
    let (s2, ids) = prune_each now cutoff rest s1 in (s2, if gone then i.spec.id ∷ ids else ids)

-- `handlePruneInstances`, for an age that parses; also the ids that were deleted.
unfoldable pub handle_prune_instances : ℕ → ℕ → Server → Server × List String
unfolding prune_each
handle_prune_instances now age s = prune_each now (now - age) s.manager.instances s
