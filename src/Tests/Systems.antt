-- ===== src/Tests/Systems.antt =====
-- The goroutines of the bridge at concrete inputs.
use mathlib.Core.List.{mem-cons_self}
use esphome_mpubsub.Base.{negsuc, ◌<◌, ◌≤◌, ◌≡◌, refl, arith, true}
use esphome_mpubsub.Base.{[], ◌∷◌, ◌++◌, length, All, ◌=ᵇ◌}
use esphome_mpubsub.Base.Maps.{lookup, bytes_eq}
use esphome_mpubsub.Bridge.Startup.{subscription, mpubsub_topic_of}
use esphome_mpubsub.Bridge.Retransmission.{
  indefinite, effective_retransmit_count, cancel_indefinite, start_indefinite, shutdown,
}
use esphome_mpubsub.Bridge.Handling.{count_of}
use esphome_mpubsub.Bridge.Handling.Sending.{HasJob}
use esphome_mpubsub.Bridge.System.{
  Environment, Message, Work, work_of, System, waiting, sent, looping, begin, update, on_wire,
  round, stopping, jobs_closed, finished,
}
use esphome_mpubsub.Bridge.System.Steps.{
  Later, here, next, handles, runs, receives, call, encode, cancel, send, install, end_context,
  go_on, read, serve,
}
use esphome_mpubsub.Bridge.System.Invariant.{IsSound, begin-Later-IsSound}
use esphome_mpubsub.Bridge.System.Origin.{IsMessage, begin-Later-wire}
use esphome_mpubsub.Bridge.System.Stopping.{close_jobs-closed}
use esphome_mpubsub.Bridge.System.Ending.{late_job}
use esphome_mpubsub.Bridge.System.Receiving.{IsTaken, rounds, with_held, begin-Later-published}
use esphome_mpubsub.Tests.Configs.{digest, loaded}
use esphome_mpubsub.Tests.Json.{words, lib, text}
use esphome_mpubsub.Tests.Wire.{topic}
use esphome_mpubsub.Tests.Sockets.{inward, entries, packet, clear, makes_packet}

abbrev env : Environment
env = record {
  lib = lib;
  fl = words;
  sha256 = digest;
  mqtt = loaded.mqtt;
  cfg = record clear { retransmit_count = negsuc 0 };
  scope = 2;
  bridges = entries;
}

abbrev message : Message
message = record { subscription = subscription 1 inward; topic = topic; payload = text; qos = 0 }

abbrev work : Work
work = work_of env message packet

-- The handler is behind its first send.
abbrev first_sent : System
first_sent = record (on_wire work.datagram begin) {
  handler = sent work;
  jobs = cancel_indefinite work.topic begin.jobs;
  delivered = message ∷ [];
}

first_sent-Later : Later env begin first_sent
unfolding mpubsub_topic_of ◌=ᵇ◌
first_sent-Later =
    next
      (next
        (next (next here (handles (call message refl refl (mem-cons_self {l = []}))))
          (handles (encode message packet refl makes_packet)))
        (handles (cancel work refl)))
      (handles (send work refl refl))

for_ever : work.count ≡ indefinite
unfolding effective_retransmit_count count_of
for_ever = refl

-- The handler has returned, and the topic has a job.
abbrev installed : System
installed = record first_sent {
  handler = waiting;
  jobs = start_indefinite work.topic first_sent.jobs;
  loops = update first_sent.loops first_sent.jobs.made (looping work.datagram);
}

installed-Later : Later env begin installed
installed-Later = next first_sent-Later (handles (install work refl for_ever))

begin-Later-IsSound_example : IsSound installed
begin-Later-IsSound_example = begin-Later-IsSound env installed installed-Later

wire_example :
    All (IsMessage env installed.delivered) installed.wire
    × All (λ d. length d.1 ≤ 1232) installed.wire
wire_example = begin-Later-wire env installed installed-Later

abbrev stopping_installed : System
stopping_installed = record installed { phase = stopping }

one_made : 0 < stopping_installed.jobs.made
unfolding start_indefinite cancel_indefinite lookup
one_made = omega arith

abbrev closed_installed : System
closed_installed = record stopping_installed {
  phase = jobs_closed;
  jobs = shutdown stopping_installed.jobs;
}

closed_example : closed_installed.jobs.closed 0 ≡ true
closed_example =
    close_jobs-closed env stopping_installed closed_installed 0
      (next installed-Later (runs (end_context refl))) refl here one_made

abbrev stopping_sent : System
stopping_sent = record first_sent { phase = stopping }

late_example :
    (after : System) × Later env stopping_sent after
    × (after.phase ≡ finished)
    × HasJob work.topic after.jobs
late_example =
    late_job env stopping_sent work (next first_sent-Later (runs (end_context refl))) refl refl
      for_ever

abbrev served : System
served = record begin { published = round env packet ++ []; datagrams = packet ∷ [] }

published_example :
    (with_held env served.receiver served.published ≡ rounds env served.datagrams)
    × All (IsTaken env served.datagrams) served.published
published_example = begin-Later-published env served (
    next (next (next here (receives (go_on refl refl))) (receives (read packet refl refl)))
      (receives (serve packet refl)))
