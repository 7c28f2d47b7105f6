-- ===== src/Bridge/System/Invariant.antt =====
-- The channels, the map and the goroutines of the jobs, whatever the interleaving.
use mathlib.Core.Path.{subst}
use esphome_mpubsub.Base.{
  ℕ, ◌≤◌, ◌<◌, ◌≡◌, refl, ap, ◌∙◌, arith, Bool, true, false, ◌==◌, ==_iff, inl, inr, Bool-cases,
}
use esphome_mpubsub.Base.{Bytes, none}
use esphome_mpubsub.Base.Maps.{bytes_eq, lookup}
use esphome_mpubsub.Bridge.Retransmission.{Jobs, cancel_indefinite, start_indefinite, shutdown}
use esphome_mpubsub.Bridge.Retransmission.Single.{
  IsJobs, start-IsJobs, cancel_indefinite-IsJobs, start_indefinite-IsJobs,
}
use esphome_mpubsub.Bridge.Retransmission.Closing.{
  IsBelow, cancel_indefinite_made, cancel_indefinite_keep, cancel_indefinite-IsBelow,
  start_indefinite-IsBelow, shutdown_empty, shutdown_made, shutdown_keep, shutdown-IsJobs,
  shutdown-IsBelow,
}
use esphome_mpubsub.Bridge.Handling.{Datagram}
use esphome_mpubsub.Bridge.System.{
  Environment, Handler, waiting, called, encoded, cancelled, sent, Loop, unborn, looping, returned,
  System, update, begin,
}
use esphome_mpubsub.Bridge.System.Steps.{HandlerStep, ResendStep, RunStep, ReceiveStep, Step, Later}
use esphome_mpubsub.Bridge.System.Steps.{
  call, drop, encode, cancel, send, fail, install, schedule, done, tick, tick_failed, stop, burst,
  burst_failed, end_context, close_jobs, close_socket, disconnect, finish, go_on, leave, read,
  serve, read_failed, read_ended, handles, resends, runs, receives, here, next,
}

-- A goroutine of a channel that was made is in its loop, or has returned from it because the
-- channel is closed.
abbrev pub IsAlive : Loop → Bool → Type 0
IsAlive unborn closed = ⊥
IsAlive (looping d) closed = Unit {0}
IsAlive returned closed = closed ≡ true

-- Behind cancelIndefinite the handler's topic has no job.
abbrev pub HasRoom : Handler → Jobs → Type 0
HasRoom (cancelled w) jobs = lookup w.topic jobs.jobs ≡ none
HasRoom (sent w) jobs = lookup w.topic jobs.jobs ≡ none
HasRoom _ jobs = Unit {0}

-- The jobs of a bridge and their goroutines.
pub record IsSupervised (jobs : Jobs) (loops : ℕ → Loop) : Type 0 where
  pub single : IsJobs jobs
  pub below : IsBelow jobs.made jobs.jobs
  pub alive : (c : ℕ) → c < jobs.made → IsAlive (loops c) (jobs.closed c)
  pub unborn_yet : (c : ℕ) → jobs.made ≤ c → loops c ≡ unborn

abbrev pub IsSound : System → Type 0
IsSound st = IsSupervised st.jobs st.loops × HasRoom st.handler st.jobs

-- A loop stays alive where its channel stays closed.
IsAlive-keep : (l : Loop) (b c : Bool) → IsAlive l b → (b ≡ true → c ≡ true) → IsAlive l c
IsAlive-keep unborn b c h k = h
IsAlive-keep (looping d) b c h k = tt
IsAlive-keep returned b c h k = k h

-- Other jobs for the same goroutines, with no channel more and none opened again.
rejobbed :
    (jobs jobs' : Jobs) (loops : ℕ → Loop)
    → IsSupervised jobs loops
    → IsJobs jobs'
    → IsBelow jobs'.made jobs'.jobs
    → jobs'.made ≡ jobs.made
    → ((c : ℕ) → jobs.closed c ≡ true → jobs'.closed c ≡ true)
    → IsSupervised jobs' loops
rejobbed jobs jobs' loops h single below made keep = record {
  single = single;
  below = below;
  alive = λ c lt.
      IsAlive-keep (loops c) (jobs.closed c) (jobs'.closed c) (h.alive c (omega (arith, made)))
        (keep c);
  unborn_yet = λ c le. h.unborn_yet c (omega (arith, made));
}

cancel-IsSupervised :
    (t : Bytes) (jobs : Jobs) (loops : ℕ → Loop)
    → IsSupervised jobs loops
    → IsSupervised (cancel_indefinite t jobs) loops
cancel-IsSupervised t jobs loops h =
    rejobbed jobs (cancel_indefinite t jobs) loops h (cancel_indefinite-IsJobs t jobs h.single).0
      (cancel_indefinite-IsBelow t jobs h.below) (cancel_indefinite_made t jobs)
      (cancel_indefinite_keep t jobs)

shutdown-IsSupervised :
    (jobs : Jobs) (loops : ℕ → Loop) → IsSupervised jobs loops → IsSupervised (shutdown jobs) loops
shutdown-IsSupervised jobs loops h =
    rejobbed jobs (shutdown jobs) loops h (shutdown-IsJobs jobs h.single h.below)
      (shutdown-IsBelow jobs h.below) (shutdown_made jobs) (shutdown_keep jobs)

start-IsSupervised :
    (t : Bytes) (d : Datagram) (jobs : Jobs) (loops : ℕ → Loop)
    → IsSupervised jobs loops
    → lookup t jobs.jobs ≡ none
    → IsSupervised (start_indefinite t jobs) (update loops jobs.made (looping d))
unfolding start_indefinite
start-IsSupervised t d jobs loops h free = record {
  single = start_indefinite-IsJobs t jobs h.single free;
  below = start_indefinite-IsBelow t jobs h.below;
  alive = λ c lt. elim (Bool-cases (c == jobs.made)) [
    | inl new ↦ rw new tt
    | inr old ↦ rw old (h.alive c (ground (arith, ==_iff c jobs.made)))
  ];
  unborn_yet = λ c le.
      let other : (c == jobs.made) ≡ false = ground (arith, ==_iff c jobs.made) in
      rw other (h.unborn_yet c (omega arith));
}

stop-IsSupervised :
    (c : ℕ) (d : Datagram) (jobs : Jobs) (loops : ℕ → Loop)
    → IsSupervised jobs loops
    → loops c ≡ looping d
    → jobs.closed c ≡ true
    → IsSupervised jobs (update loops c returned)
stop-IsSupervised c d jobs loops h running closed = record {
  single = h.single;
  below = h.below;
  alive = λ k lt. elim (Bool-cases (k == c)) [
    | inl same ↦ rw same (ap jobs.closed ((==_iff k c).0 same) ∙ closed)
    | inr other ↦ rw other (h.alive k lt)
  ];
  unborn_yet = λ k le. elim (Bool-cases (k == c)) [
    | inl same ↦ absurd (ground (arith, h.unborn_yet k le, ap loops ((==_iff k c).0 same)))
    | inr other ↦ rw other (h.unborn_yet k le)
  ];
}

module _ (env : Environment) where
  HandlerStep-IsSound : {st after : System} → HandlerStep env st after → IsSound st → IsSound after
  HandlerStep-IsSound (call m w c s) (h, room) = (h, tt)
  HandlerStep-IsSound (drop m x w e) (h, room) = (h, tt)
  HandlerStep-IsSound (encode m pkt w e) (h, room) = (h, tt)
  HandlerStep-IsSound {st} (cancel w e) (h, room) = (
    cancel-IsSupervised w.topic st.jobs st.loops h,
    (cancel_indefinite-IsJobs w.topic st.jobs h.single).1,
  )
  HandlerStep-IsSound {st} (send w e o) (h, room) =
      (h, subst (λ (x : Handler). HasRoom x st.jobs) e room)
  HandlerStep-IsSound (fail w e) (h, room) = (h, tt)
  HandlerStep-IsSound {st} (install w e n) (h, room) = (
    start-IsSupervised w.topic w.datagram st.jobs st.loops h
        (subst (λ (x : Handler). HasRoom x st.jobs) e room),
    tt,
  )
  HandlerStep-IsSound (schedule w n e c l) (h, room) = (h, tt)
  HandlerStep-IsSound (done w n e c l) (h, room) = (h, tt)

  ResendStep-IsSound : {st after : System} → ResendStep env st after → IsSound st → IsSound after
  ResendStep-IsSound (tick c d e o) h = h
  ResendStep-IsSound (tick_failed c d e) h = h
  ResendStep-IsSound {st} (stop c d e closed) (h, room) =
      (stop-IsSupervised c d st.jobs st.loops h e closed, room)
  ResendStep-IsSound (burst b a d l e o) h = h
  ResendStep-IsSound (burst_failed b a d l e) h = h

  shutdown-HasRoom : (x : Handler) (jobs : Jobs) → HasRoom x (shutdown jobs)
  shutdown-HasRoom waiting jobs = tt
  shutdown-HasRoom (called m) jobs = tt
  shutdown-HasRoom (encoded w) jobs = tt
  shutdown-HasRoom (cancelled w) jobs = shutdown_empty jobs w.topic
  shutdown-HasRoom (sent w) jobs = shutdown_empty jobs w.topic

  RunStep-IsSound : {st after : System} → RunStep env st after → IsSound st → IsSound after
  RunStep-IsSound {st} (close_jobs p) (h, room) =
      (shutdown-IsSupervised st.jobs st.loops h, shutdown-HasRoom st.handler st.jobs)
  RunStep-IsSound (end_context p) h = h
  RunStep-IsSound (close_socket p) h = h
  RunStep-IsSound (disconnect p) h = h
  RunStep-IsSound (finish p r) h = h

  ReceiveStep-IsSound : {st after : System} → ReceiveStep env st after → IsSound st → IsSound after
  ReceiveStep-IsSound (go_on r p) h = h
  ReceiveStep-IsSound (leave r p) h = h
  ReceiveStep-IsSound (read x r p) h = h
  ReceiveStep-IsSound (serve x r) h = h
  ReceiveStep-IsSound (read_failed r p) h = h
  ReceiveStep-IsSound (read_ended r p) h = h

  pub Step-IsSound : {st after : System} → Step env st after → IsSound st → IsSound after
  Step-IsSound (handles s) h = HandlerStep-IsSound s h
  Step-IsSound (resends s) h = ResendStep-IsSound s h
  Step-IsSound (runs s) h = RunStep-IsSound s h
  Step-IsSound (receives s) h = ReceiveStep-IsSound s h

  pub Later-IsSound : {st after : System} → Later env st after → IsSound st → IsSound after
  Later-IsSound here h = h
  Later-IsSound (next l s) h = Step-IsSound s (Later-IsSound l h)

  pub begin-IsSound : IsSound begin
  unfolding lookup
  begin-IsSound = (
    record {
      single = start-IsJobs;
      below = tt;
      alive = λ c lt. absurd (omega arith);
      unborn_yet = λ c le. refl;
    },
    tt,
  )

  -- However the goroutines interleave, from the start of Run on: the channels that are made and not
  -- closed are those of the map, and each is the channel of one topic; each has its goroutine, which
  -- is in its loop; and a goroutine has returned only where its channel is closed. Between
  -- cancelIndefinite and startIndefinite the topic of the handler has no job.
  pub begin-Later-IsSound : (st : System) → Later env begin st → IsSound st
  begin-Later-IsSound st l = Later-IsSound l begin-IsSound
