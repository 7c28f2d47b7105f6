-- ===== src/Bridge/System/Origin.antt =====
-- Where the datagrams on the wire come from.
use mathlib.Core.Path.{subst}
use mathlib.Core.List.{Mem, mem-cons_self, mem-cons_of_mem}
use esphome_mpubsub.Base.{ℕ, suc, ◌≤◌, ◌≡◌, refl, ◌==◌, Bool-cases, inl, inr, bind_ok}
use esphome_mpubsub.Base.{List, [], ◌∷◌, ◌++◌, Bytes, length, All, ok}
use esphome_mpubsub.Wire.Address.{topic_to_group}
use esphome_mpubsub.Wire.Packet.{encode_packet}
use esphome_mpubsub.Wire.Packet.Encoding.{length-encode_packet}
use esphome_mpubsub.Bridge.Startup.{mpubsub_topic_of}
use esphome_mpubsub.Bridge.Handling.{Datagram, encoded_ok, message_body, message_packet}
use esphome_mpubsub.Bridge.System.{
  Environment, Message, Handler, waiting, called, encoded, cancelled, sent, Loop, unborn, looping,
  returned, Burst, System, begin, work_of, subscriptions_in,
}
use esphome_mpubsub.Bridge.System.Steps.{HandlerStep, ResendStep, RunStep, ReceiveStep, Step, Later}
use esphome_mpubsub.Bridge.System.Steps.{
  call, drop, encode, cancel, send, fail, install, schedule, done, tick, tick_failed, stop, burst,
  burst_failed, end_context, close_jobs, close_socket, disconnect, finish, go_on, leave, read,
  serve, read_failed, read_ended, handles, resends, runs, receives, here, next,
}

module _ (env : Environment) where
  -- One of the messages that the broker delivered, to the handler of a subscription that Run makes:
  -- this is its packet, with the schema and the topic of the subscription's entry, on the group of
  -- that topic.
  pub record IsMessage (delivered : List Message) (d : Datagram) : Type 0 where
    pub message : Message
    pub was_delivered : Mem message delivered
    pub subscribed : Mem message.subscription (subscriptions_in env)
    pub packet :
        message_packet env.lib env.fl env.cfg.encryption_key
          (mpubsub_topic_of message.subscription.entry message.topic)
          message.subscription.entry.schema_ptr
          message.payload
        ≡ ok d.1
    pub addressed :
        d.0
        ≡ topic_to_group env.sha256
            (mpubsub_topic_of message.subscription.entry message.topic)
            env.scope

  IsMessage-more :
      (m : Message) (ds : List Message) (d : Datagram) → IsMessage ds d → IsMessage (m ∷ ds) d
  IsMessage-more m ds d h = record {
    message = h.message;
    was_delivered = mem-cons_of_mem m h.was_delivered;
    subscribed = h.subscribed;
    packet = h.packet;
    addressed = h.addressed;
  }

  abbrev AreBursts : List Message → List Burst → Type 0
  AreBursts ds bursts = All (λ b. IsMessage ds b.datagram) bursts

  bursts-more :
      (m : Message) (ds : List Message) (bs : List Burst) → AreBursts ds bs → AreBursts (m ∷ ds) bs
  bursts-more m ds [] h = tt
  bursts-more m ds (b ∷ bs) (h, hs) = (IsMessage-more m ds b.datagram h, bursts-more m ds bs hs)

  wire-more :
      (m : Message) (ds : List Message) (wire : List Datagram)
      → All (IsMessage ds) wire
      → All (IsMessage (m ∷ ds)) wire
  wire-more m ds [] h = tt
  wire-more m ds (d ∷ wire) (h, hs) = (IsMessage-more m ds d h, wire-more m ds wire hs)

  abbrev HandlerHolds : List Message → Handler → Type 0
  HandlerHolds ds waiting = Unit {0}
  HandlerHolds ds (called m) = Mem m ds × Mem m.subscription (subscriptions_in env)
  HandlerHolds ds (encoded w) = IsMessage ds w.datagram
  HandlerHolds ds (cancelled w) = IsMessage ds w.datagram
  HandlerHolds ds (sent w) = IsMessage ds w.datagram

  abbrev LoopHolds : List Message → Loop → Type 0
  LoopHolds ds (looping d) = IsMessage ds d
  LoopHolds ds _ = Unit {0}

  loop-more : (m : Message) (ds : List Message) (l : Loop) → LoopHolds ds l → LoopHolds (m ∷ ds) l
  loop-more m ds unborn h = tt
  loop-more m ds (looping d) h = IsMessage-more m ds d h
  loop-more m ds returned h = tt

  -- What the handler holds, the loops, the bursts and the wire.
  abbrev IsOriginal : System → Type 0
  IsOriginal st =
      HandlerHolds st.delivered st.handler
      × ((c : ℕ) → LoopHolds st.delivered (st.loops c))
      × AreBursts st.delivered st.bursts
      × All (IsMessage st.delivered) st.wire

  -- The bursts without one, and with it at another count.
  burst_split :
      (ds : List Message) (before after : List Burst) (b : Burst)
      → AreBursts ds (before ++ b ∷ after)
      → IsMessage ds b.datagram
        × AreBursts ds (before ++ after)
        × ((left : ℕ)
            → AreBursts ds (before ++ record { datagram = b.datagram; left = left } ∷ after))
  burst_split ds [] after b (h, hs) = (h, hs, λ left. (h, hs))
  burst_split ds (x ∷ before) after b (h, hs) =
      let (own, without, again) = burst_split ds before after b hs in
      (own, (h, without), λ left. (h, again left))

  HandlerStep-IsOriginal :
      {st after : System} → HandlerStep env st after → IsOriginal st → IsOriginal after
  HandlerStep-IsOriginal {st} (call m w c s) (held, looped, bursting, wired) = (
    (mem-cons_self {l = st.delivered}, s),
    λ c'. loop-more m st.delivered (st.loops c') (looped c'),
    bursts-more m st.delivered st.bursts bursting,
    wire-more m st.delivered st.wire wired,
  )
  HandlerStep-IsOriginal (drop m x w e) (held, loops, bursts, wire) = (tt, loops, bursts, wire)
  HandlerStep-IsOriginal {st} (encode m pkt w e) (held, loops, bursts, wire) =
      let (was, subscribed) = subst (HandlerHolds st.delivered) w held in
      let made : IsMessage st.delivered (work_of env m pkt).datagram = record {
        message = m;
        was_delivered = was;
        subscribed = subscribed;
        packet = e;
        addressed = refl;
      } in
      (made, loops, bursts, wire)
  HandlerStep-IsOriginal {st} (cancel w e) (held, loops, bursts, wire) =
      (subst (HandlerHolds st.delivered) e held, loops, bursts, wire)
  HandlerStep-IsOriginal {st} (send w e o) (held, looped, bursting, wired) =
      let own = subst (HandlerHolds st.delivered) e held in (own, looped, bursting, (own, wired))
  HandlerStep-IsOriginal (fail w e) (held, loops, bursts, wire) = (tt, loops, bursts, wire)
  HandlerStep-IsOriginal {st} (install w e n) (held, looped, bursts, wire) = (
    tt,
    λ c. elim (Bool-cases (c == st.jobs.made)) [
      | inl new ↦ rw new (subst (HandlerHolds st.delivered) e held)
      | inr old ↦ rw old (looped c)
    ],
    bursts,
    wire,
  )
  HandlerStep-IsOriginal {st} (schedule w n e c l) (held, looped, bursting, wired) =
      (tt, looped, (subst (HandlerHolds st.delivered) e held, bursting), wired)
  HandlerStep-IsOriginal (done w n e c l) (held, loops, bursts, wire) = (tt, loops, bursts, wire)

  ResendStep-IsOriginal :
      {st after : System} → ResendStep env st after → IsOriginal st → IsOriginal after
  ResendStep-IsOriginal {st} (tick c d e o) (held, looped, bursting, wired) =
      (held, looped, bursting, (subst (LoopHolds st.delivered) e (looped c), wired))
  ResendStep-IsOriginal (tick_failed c d e) h = h
  ResendStep-IsOriginal (stop c d e closed) (held, looped, bursts, wire) = (
    held,
    λ k. elim (Bool-cases (k == c)) [ inl same ↦ rw same tt | inr other ↦ rw other (looped k) ],
    bursts,
    wire,
  )
  ResendStep-IsOriginal {st} (burst b a d l e o) (held, looped, bursting, wired) =
      let (own, without, again) =
        burst_split st.delivered b a (record { datagram = d; left = suc l })
          (subst (AreBursts st.delivered) e bursting) in
      (held, looped, again l, (own, wired))
  ResendStep-IsOriginal {st} (burst_failed b a d l e) (held, looped, bursting, wired) =
      let (own, without, again) =
        burst_split st.delivered b a (record { datagram = d; left = suc l })
          (subst (AreBursts st.delivered) e bursting) in
      (held, looped, without, wired)

  RunStep-IsOriginal : {st after : System} → RunStep env st after → IsOriginal st → IsOriginal after
  RunStep-IsOriginal (end_context p) h = h
  RunStep-IsOriginal (close_jobs p) h = h
  RunStep-IsOriginal (close_socket p) h = h
  RunStep-IsOriginal (disconnect p) h = h
  RunStep-IsOriginal (finish p r) h = h

  ReceiveStep-IsOriginal :
      {st after : System} → ReceiveStep env st after → IsOriginal st → IsOriginal after
  ReceiveStep-IsOriginal (go_on r p) h = h
  ReceiveStep-IsOriginal (leave r p) h = h
  ReceiveStep-IsOriginal (read x r p) h = h
  ReceiveStep-IsOriginal (serve x r) h = h
  ReceiveStep-IsOriginal (read_failed r p) h = h
  ReceiveStep-IsOriginal (read_ended r p) h = h

  Step-IsOriginal : {st after : System} → Step env st after → IsOriginal st → IsOriginal after
  Step-IsOriginal (handles s) h = HandlerStep-IsOriginal s h
  Step-IsOriginal (resends s) h = ResendStep-IsOriginal s h
  Step-IsOriginal (runs s) h = RunStep-IsOriginal s h
  Step-IsOriginal (receives s) h = ReceiveStep-IsOriginal s h

  Later-IsOriginal : {st after : System} → Later env st after → IsOriginal st → IsOriginal after
  Later-IsOriginal here h = h
  Later-IsOriginal (next l s) h = Step-IsOriginal s (Later-IsOriginal l h)

  begin-IsOriginal : IsOriginal begin
  begin-IsOriginal = (tt, λ c. tt, tt, tt)

  message_fits :
      (topic payload pkt : Bytes) (m : Message)
      → message_packet env.lib env.fl env.cfg.encryption_key topic m.subscription.entry.schema_ptr
          payload
        ≡ ok pkt
      → length pkt ≤ 1232
  unfolding message_packet
  message_fits topic payload pkt m e =
      let (made, body, e') =
        bind_ok (message_body env.lib env.fl m.subscription.entry.schema_ptr payload) _ pkt e in
      length-encode_packet topic made.0 made.1 env.cfg.encryption_key
        (encoded_ok (encode_packet topic made.0 made.1 env.cfg.encryption_key) pkt e')

  wire_fits :
      (ms : List Message) (ds : List Datagram)
      → All (IsMessage ms) ds
      → All (λ d. length d.1 ≤ 1232) ds
  wire_fits ms [] h = tt
  wire_fits ms (d ∷ ds) (h, hs) = (
    message_fits (mpubsub_topic_of h.message.subscription.entry h.message.topic) h.message.payload
        d.1 h.message h.packet,
    wire_fits ms ds hs,
  )

  -- However the goroutines interleave, from the start of Run on: each datagram that was sent, by the
  -- handler or again, is the packet of a message that the broker delivered to one of the
  -- subscriptions that Run makes of the entries, made with the schema and the topic of that entry; it
  -- went to the group of that topic, and has at most 1232 bytes.
  pub begin-Later-wire :
      (st : System)
      → Later env begin st
      → All (IsMessage st.delivered) st.wire × All (λ d. length d.1 ≤ 1232) st.wire
  begin-Later-wire st l =
      let (held, looped, bursting, wired) = Later-IsOriginal l begin-IsOriginal in
      (wired, wire_fits st.delivered st.wire wired)
