-- ===== src/Lifecycle/Persist/Notices.antt =====
-- What the rows of the registry keep under the effects of calls, in Lifecycle/Persist.
use aegisvm.Base.{ℕ, List, [], ◌∷◌, String}
use aegisvm.Lifecycle.Types.{
  State, Effect, notify, create_vm, start_vm, stop_vm, pause_vm, resume_vm, run_rpc, shutdown_rpc,
  demux_stop, close_channel, exec_exit, log_exit, overlay_remove,
}
use aegisvm.Lifecycle.Persist.{on_state_change, notice, notices}
use aegisvm.Registry.Rows.{Tables}

-- Only a change of the state reaches the registry.
pub notice_elim {ℓ} :
    (P : Tables → Type ℓ) (now : ℕ) (id : String) (e : Effect) (t : Tables)
    → ((st : State) → P (on_state_change now id st t))
    → P t
    → P (notice now id e t)
unfolding notice
notice_elim P now id (notify st) t k h = k st
notice_elim P now id (create_vm c) t k h = h
notice_elim P now id (start_vm n) t k h = h
notice_elim P now id (stop_vm n) t k h = h
notice_elim P now id (pause_vm n) t k h = h
notice_elim P now id (resume_vm n) t k h = h
notice_elim P now id (run_rpc n c e m b) t k h = h
notice_elim P now id (shutdown_rpc n) t k h = h
notice_elim P now id (demux_stop n) t k h = h
notice_elim P now id (close_channel n) t k h = h
notice_elim P now id (exec_exit x c) t k h = h
notice_elim P now id (log_exit c) t k h = h
notice_elim P now id overlay_remove t k h = h

pub notices_elim {ℓ} :
    (P : Tables → Type ℓ) (now : ℕ)
    → ((id : String) (st : State) (t : Tables) → P t → P (on_state_change now id st t))
    → (es : List (String × Effect)) (t : Tables) → P t
    → P (notices now es t)
unfolding notices
notices_elim P now k [] t h = h
notices_elim P now k ((id, e) ∷ es) t h =
    notices_elim P now k es _ (notice_elim P now id e t (λ st. k id st t h) h)
