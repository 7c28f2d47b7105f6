-- ===== src/Bridge/System/Ending.antt =====
-- The end of Run, and the jobs that it leaves.
use mathlib.Core.Path.{subst}
use esphome_mpubsub.Base.{some, ◌≡◌, refl, ap, sym, ◌∙◌, arith}
use esphome_mpubsub.Base.{Bytes}
use esphome_mpubsub.Bridge.Retransmission.{indefinite, Jobs, start_indefinite, shutdown}
use esphome_mpubsub.Base.Maps.{bytes_eq, beq_refl, lookup, lookup-insert}
use esphome_mpubsub.Bridge.Retransmission.Single.{IsJobs}
use esphome_mpubsub.Bridge.Retransmission.Closing.{IsBelow, shutdown-IsJobs}
use esphome_mpubsub.Bridge.Handling.Sending.{HasJob}
use esphome_mpubsub.Bridge.System.Invariant.{begin-Later-IsSound}
use esphome_mpubsub.Bridge.System.{
  Environment, looping, Work, waiting, sent, System, update, Phase, serving, stopping, jobs_closed,
  socket_closed, disconnected, finished, Receiver, checking, reading, holding, ended, is_serving,
  begin,
}
use esphome_mpubsub.Bridge.System.Steps.{Step, Later}
use esphome_mpubsub.Bridge.System.Steps.{
  install, end_context, close_jobs, close_socket, disconnect, finish, leave, serve, read_ended,
  handles, runs, receives, here, next,
}

Later-cons :
    (env : Environment) {st mid after : System}
    → Step env st mid
    → Later env mid after
    → Later env st after
Later-cons env s here = next here s
Later-cons env s (next l t) = next (Later-cons env s l) t

module _ (env : Environment) where
  -- Run can return, with the jobs as they are.
  abbrev pub CanFinish : System → Jobs → Type 0
  CanFinish st jobs =
      (after : System) × Later env st after × (after.phase ≡ finished) × (after.jobs ≡ jobs)

  prepend :
      {st mid : System} (jobs : Jobs) → Step env st mid → CanFinish mid jobs → CanFinish st jobs
  prepend jobs s (after, l, p, j) = (after, Later-cons env s l, p, j)

  -- wg.Wait: the receive loop ends, as the context has.
  disconnected_finishes : (st : System) → st.phase ≡ disconnected → CanFinish st st.jobs
  disconnected_finishes st p = go st.receiver refl
    where
      go : (r : Receiver) → st.receiver ≡ r → CanFinish st st.jobs
      go checking e = (
        _,
        next (next here (receives (leave e (ap is_serving p)))) (runs (finish p refl)),
        refl,
        refl,
      )
      go reading e = (
        _,
        next (next here (receives (read_ended e (ap is_serving p)))) (runs (finish p refl)),
        refl,
        refl,
      )
      go (holding received) e = (
        _,
        next
            (next (next here (receives (serve received e)))
              (receives (leave refl (ap is_serving p))))
            (runs (finish p refl)),
        refl,
        refl,
      )
      go ended e = (_, next here (runs (finish p e)), refl, refl)

  jobs_closed_finishes : (st : System) → st.phase ≡ jobs_closed → CanFinish st st.jobs
  jobs_closed_finishes st p =
      prepend st.jobs (runs (close_socket p))
        (prepend st.jobs (runs (disconnect refl)) (disconnected_finishes _ refl))

  -- From every state Run can get to its end, once its context ends: no step of it waits for ever.
  pub run_finishes :
      (st : System) → (after : System) × Later env st after × (after.phase ≡ finished)
  run_finishes st = go st.phase refl
    where
      forget :
          {x : System} {jobs : Jobs}
          → CanFinish x jobs
          → (after : System) × Later env x after × (after.phase ≡ finished)
      forget (after, l, p, j) = (after, l, p)

      go :
          (ph : Phase)
          → st.phase ≡ ph
          → (after : System) × Later env st after × (after.phase ≡ finished)
      go serving e = forget (
          prepend _ (runs (end_context e))
            (prepend _ (runs (close_jobs refl)) (jobs_closed_finishes _ refl)))
      go stopping e = forget (prepend _ (runs (close_jobs e)) (jobs_closed_finishes _ refl))
      go jobs_closed e = forget (jobs_closed_finishes st e)
      go socket_closed e = forget (prepend _ (runs (disconnect e)) (disconnected_finishes _ refl))
      go disconnected e = forget (disconnected_finishes st e)
      go finished e = (st, here, e)

  -- The job that is started behind the loop of Run that closes the channels.
  started_job :
      (jobs : Jobs) (topic : Bytes)
      → IsJobs jobs
      → IsBelow jobs.made jobs.jobs
      → HasJob topic (start_indefinite topic (shutdown jobs))
  unfolding start_indefinite
  started_job jobs topic single below =
      let made = (shutdown jobs).made in
      let found : lookup topic (start_indefinite topic (shutdown jobs)).jobs ≡ some made =
        lookup-insert (shutdown jobs).jobs topic topic made ∙ rw (beq_refl topic) refl in
      (made, found, omega arith, (shutdown-IsJobs jobs single below).unmade made (omega arith))

  -- Where the context of Run ends while the handler is behind a first send of an indefinite count,
  -- Run can return and leave the topic a job whose channel is open: startIndefinite comes behind the
  -- loop of Run that closes the channels.
  pub late_job :
      (st : System) (w : Work)
      → Later env begin st
      → st.phase ≡ stopping
      → st.handler ≡ sent w
      → w.count ≡ indefinite
      → (after : System) × Later env st after × (after.phase ≡ finished) × HasJob w.topic after.jobs
  late_job st w l p e n =
      let (supervised, room) = begin-Later-IsSound env st l in
      let closed : System = record st { phase = jobs_closed; jobs = shutdown st.jobs } in
      let installed : System = record closed {
        handler = waiting;
        jobs = start_indefinite w.topic closed.jobs;
        loops = update closed.loops closed.jobs.made (looping w.datagram);
      } in
      let (after, l', p', j) =
        prepend installed.jobs (runs (close_jobs p)) (
          prepend installed.jobs (handles (install w e n)) (jobs_closed_finishes installed refl)) in
      (
        after,
        l',
        p',
        subst (HasJob w.topic) (sym j)
            (started_job st.jobs w.topic supervised.single supervised.below),
      )
