-- ===== src/Bridge/System/Receiving.antt =====
-- What the receive loop publishes while the other goroutines run.
use mathlib.Core.Path.{subst}
use mathlib.Core.List.{Mem, mem-cons_self, mem-cons_of_mem}
use esphome_mpubsub.Base.{◌≡◌, refl, ap}
use esphome_mpubsub.Base.{List, [], ◌∷◌, ◌++◌, map, Bytes, All}
use esphome_mpubsub.Bridge.{Publish, publish_of}
use esphome_mpubsub.Bridge.Handling.Across.{json_of}
use esphome_mpubsub.Bridge.Delivery.{IsForwarded, receive-IsForwarded}
use esphome_mpubsub.Bridge.System.{
  Environment, System, Receiver, checking, reading, holding, round, begin, routes_in,
}
use esphome_mpubsub.Bridge.System.Steps.{HandlerStep, ResendStep, RunStep, ReceiveStep, Later}
use esphome_mpubsub.Bridge.System.Steps.{
  call, drop, encode, cancel, send, fail, install, schedule, done, tick, tick_failed, stop, burst,
  burst_failed, end_context, close_jobs, close_socket, disconnect, finish, go_on, leave, read,
  serve, read_failed, read_ended, handles, resends, runs, receives, here, next,
}

module _ (env : Environment) where
  -- A datagram that was read, of whose packet this is a publish, with the QoS and the Retain flag of
  -- the configuration.
  pub record IsTaken (datagrams : List Bytes) (out : Publish) : Type 0 where
    pub received : Bytes
    pub was_read : Mem received datagrams
    pub forwarded :
        IsForwarded
          (json_of env.lib env.fl)
          (routes_in env)
          env.cfg.encryption_key
          received
          (out.topic, out.payload)
    pub qos : out.qos ≡ env.mqtt.qos
    pub retain : out.retain ≡ env.mqtt.retain

  -- The rounds of some datagrams.
  abbrev pub rounds : List Bytes → List Publish
  rounds [] = []
  rounds (received ∷ before) = round env received ++ rounds before

  -- What was published, and what the datagram that the receive loop holds leads to.
  abbrev pub with_held : Receiver → List Publish → List Publish
  with_held (holding received) published = round env received ++ published
  with_held _ published = published

  abbrev Held : List Bytes → Receiver → Type 0
  Held datagrams (holding received) = Mem received datagrams
  Held datagrams _ = Unit {0}

  -- The receive loop, what was read and what was published.
  abbrev IsServed : Receiver → List Bytes → List Publish → Type 0
  IsServed receiver datagrams published =
      (with_held receiver published ≡ rounds datagrams)
      × All (IsTaken datagrams) published
      × Held datagrams receiver

  IsTaken-append :
      (received : Bytes) (datagrams : List Bytes) (new : List (Bytes × Bytes)) (old : List Publish)
      → Mem received datagrams
      → All
          (IsForwarded (json_of env.lib env.fl) (routes_in env) env.cfg.encryption_key received)
          new
      → All (IsTaken datagrams) old
      → All (IsTaken datagrams) (map (publish_of env.mqtt) new ++ old)
  unfolding publish_of
  IsTaken-append received datagrams [] old was h h' = h'
  IsTaken-append received datagrams (out ∷ new) old was (h, hs) h' = (
    record { received = received; was_read = was; forwarded = h; qos = refl; retain = refl },
    IsTaken-append received datagrams new old was hs h',
  )

  IsTaken-more :
      (received : Bytes) (datagrams : List Bytes) (old : List Publish)
      → All (IsTaken datagrams) old
      → All (IsTaken (received ∷ datagrams)) old
  IsTaken-more received datagrams [] h = tt
  IsTaken-more received datagrams (out ∷ old) (h, hs) = (
    record {
      received = h.received;
      was_read = mem-cons_of_mem received h.was_read;
      forwarded = h.forwarded;
      qos = h.qos;
      retain = h.retain;
    },
    IsTaken-more received datagrams old hs,
  )

  abbrev Served : System → Type 0
  Served st = IsServed st.receiver st.datagrams st.published

  HandlerStep-Served : {st after : System} → HandlerStep env st after → Served st → Served after
  HandlerStep-Served (call m w c s) h = h
  HandlerStep-Served (drop m x w e) h = h
  HandlerStep-Served (encode m pkt w e) h = h
  HandlerStep-Served (cancel w e) h = h
  HandlerStep-Served (send w e o) h = h
  HandlerStep-Served (fail w e) h = h
  HandlerStep-Served (install w e n) h = h
  HandlerStep-Served (schedule w n e k l) h = h
  HandlerStep-Served (done w n e k l) h = h

  ResendStep-Served : {st after : System} → ResendStep env st after → Served st → Served after
  ResendStep-Served (tick c d e o) h = h
  ResendStep-Served (tick_failed c d e) h = h
  ResendStep-Served (stop c d e o) h = h
  ResendStep-Served (burst b a d l e o) h = h
  ResendStep-Served (burst_failed b a d l e) h = h

  RunStep-Served : {st after : System} → RunStep env st after → Served st → Served after
  RunStep-Served (end_context p) h = h
  RunStep-Served (close_jobs p) h = h
  RunStep-Served (close_socket p) h = h
  RunStep-Served (disconnect p) h = h
  RunStep-Served (finish p r) h = h

  -- What was published is what was read leads to, at a receiver that is known.
  published_at :
      (st : System) (x : Receiver)
      → st.receiver ≡ x
      → Served st
      → IsServed x st.datagrams st.published
  published_at st x r h = subst (λ (y : Receiver). IsServed y st.datagrams st.published) r h

  ReceiveStep-Served : {st after : System} → ReceiveStep env st after → Served st → Served after
  ReceiveStep-Served {st} (go_on r p) h = published_at st checking r h
  ReceiveStep-Served {st} (leave r p) h = published_at st checking r h
  ReceiveStep-Served {st} (read received r p) h =
      let (all, taken, held) = published_at st reading r h in
      (
        ap (λ (ps : List Publish). round env received ++ ps) all,
        IsTaken-more received st.datagrams st.published taken,
        mem-cons_self {l = st.datagrams},
      )
  ReceiveStep-Served {st} (serve received r) h =
      let (all, taken, held) = published_at st (holding received) r h in
      (
        all,
        IsTaken-append received st.datagrams _ st.published held
            (receive-IsForwarded (json_of env.lib env.fl) (routes_in env) env.cfg.encryption_key
              received)
            taken,
        tt,
      )
  ReceiveStep-Served {st} (read_failed r p) h = published_at st reading r h
  ReceiveStep-Served {st} (read_ended r p) h = published_at st reading r h

  Later-Served : {st after : System} → Later env st after → Served st → Served after
  Later-Served here h = h
  Later-Served (next l (handles s)) h = HandlerStep-Served s (Later-Served l h)
  Later-Served (next l (resends s)) h = ResendStep-Served s (Later-Served l h)
  Later-Served (next l (runs s)) h = RunStep-Served s (Later-Served l h)
  Later-Served (next l (receives s)) h = ReceiveStep-Served s (Later-Served l h)

  -- However the goroutines interleave, from the start of Run on: what was given to Publish is, round
  -- by round, what the datagrams that were read lead to, all of them but the one that the receive
  -- loop may hold. Each publish comes from one of those datagrams, which decodes with the bridge's
  -- key, and from a route for its checksum whose schema and whose demand of encryption it meets, and
  -- has the configured QoS and Retain flag.
  pub begin-Later-published :
      (st : System)
      → Later env begin st
      → (with_held st.receiver st.published ≡ rounds st.datagrams)
        × All (IsTaken st.datagrams) st.published
  begin-Later-published st l =
      let (all, taken, held) = Later-Served l (refl, tt, tt) in (all, taken)
