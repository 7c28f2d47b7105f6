-- ===== src/Bridge/System/Stopping.antt =====
-- How Run stops.

use esphome_mpubsub.Base.{ℕ, ◌<◌, ◌≡◌, true}
use esphome_mpubsub.Bridge.Retransmission.{start_indefinite, shutdown}
use esphome_mpubsub.Bridge.Retransmission.Closing.{
  cancel_indefinite_keep, shutdown_keep, shutdown_all,
}
use esphome_mpubsub.Bridge.System.Invariant.{begin-Later-IsSound}
use esphome_mpubsub.Bridge.System.{Environment, System, stopping, jobs_closed, begin}
use esphome_mpubsub.Bridge.System.Steps.{ReceiveStep, Step, Later}
use esphome_mpubsub.Bridge.System.Steps.{
  call, drop, encode, cancel, send, fail, install, schedule, done, tick, tick_failed, stop, burst,
  burst_failed, end_context, close_jobs, close_socket, disconnect, finish, go_on, leave, read,
  serve, read_failed, read_ended, handles, resends, runs, receives, here, next,
}

module _ (env : Environment) where
  -- A channel that is closed stays so.
  Step-keep :
      {st after : System} (c : ℕ)
      → Step env st after
      → st.jobs.closed c ≡ true
      → after.jobs.closed c ≡ true
  unfolding start_indefinite
  Step-keep {st} c (handles (cancel w e)) h = cancel_indefinite_keep w.topic st.jobs c h
  Step-keep {st} c (runs (close_jobs p)) h = shutdown_keep st.jobs c h
  Step-keep c (handles (call m w k s)) h = h
  Step-keep c (handles (drop m x w e)) h = h
  Step-keep c (handles (encode m pkt w e)) h = h
  Step-keep c (handles (send w e o)) h = h
  Step-keep c (handles (fail w e)) h = h
  Step-keep c (handles (install w e n)) h = h
  Step-keep c (handles (schedule w n e k l)) h = h
  Step-keep c (handles (done w n e k l)) h = h
  Step-keep c (resends (tick k d e o)) h = h
  Step-keep c (resends (tick_failed k d e)) h = h
  Step-keep c (resends (stop k d e o)) h = h
  Step-keep c (resends (burst b a d l e o)) h = h
  Step-keep c (resends (burst_failed b a d l e)) h = h
  Step-keep c (runs (end_context p)) h = h
  Step-keep c (runs (close_socket p)) h = h
  Step-keep c (runs (disconnect p)) h = h
  Step-keep c (runs (finish p r)) h = h
  Step-keep c (receives s) h = ReceiveStep-keep c s h
    where
      ReceiveStep-keep :
          {st after : System} (c : ℕ)
          → ReceiveStep env st after
          → st.jobs.closed c ≡ true
          → after.jobs.closed c ≡ true
      ReceiveStep-keep c (go_on r p) h = h
      ReceiveStep-keep c (leave r p) h = h
      ReceiveStep-keep c (read x r p) h = h
      ReceiveStep-keep c (serve x r) h = h
      ReceiveStep-keep c (read_failed r p) h = h
      ReceiveStep-keep c (read_ended r p) h = h

  Later-keep :
      {st after : System} (c : ℕ)
      → Later env st after
      → st.jobs.closed c ≡ true
      → after.jobs.closed c ≡ true
  Later-keep c here h = h
  Later-keep c (next l s) h = Step-keep c s (Later-keep c l h)

  -- Once Run has closed the jobs, the channel of every job that was started before is closed, and
  -- it stays so whatever follows.
  pub close_jobs-closed :
      (st after : System) (c : ℕ)
      → Later env begin st
      → st.phase ≡ stopping
      → Later env (record st { phase = jobs_closed; jobs = shutdown st.jobs }) after
      → c < st.jobs.made
      → after.jobs.closed c ≡ true
  close_jobs-closed st after c l p l' lt =
      let (supervised, room) = begin-Later-IsSound env st l in
      Later-keep c l' (shutdown_all st.jobs c supervised.single lt)
