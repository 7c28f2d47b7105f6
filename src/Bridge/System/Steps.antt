-- ===== src/Bridge/System/Steps.antt =====
-- The steps of the goroutines of bridges/mqtt-go/bridge.go, and the states that follow one another.
use mathlib.Core.List.{Mem}
use esphome_mpubsub.Base.{ℕ, suc, ◌-◌, ◌≤◌, ◌≡◌, true, false}
use esphome_mpubsub.Base.{List, ◌∷◌, ◌++◌, Bytes, ok, err}
use esphome_mpubsub.Bridge.Startup.{mpubsub_topic_of}
use esphome_mpubsub.Bridge.Retransmission.{
  times, indefinite, cancel_indefinite, start_indefinite, shutdown,
}
use esphome_mpubsub.Bridge.Handling.{Dropped, Datagram, message_packet}
use esphome_mpubsub.Bridge.System.{
  Burst, Environment, Message, System, Work, called, cancelled, checking, disconnected, encoded,
  ended, finished, holding, is_connected, is_serving, jobs_closed, looping, on_wire, reading,
  returned, round, sent, serving, socket_closed, socket_open, stopping, update, waiting, work_of,
  subscriptions_in,
}

module _ (env : Environment) where
  -- The steps of the handler. The broker delivers a message to the handler of a subscription, which
  -- works with the entry that it captured: handleMQTTMessage. startIndefinite makes the channel, enters it in the map and
  -- starts the loop.
  pub data HandlerStep (st : System) : System → Type 0 where
    call :
        (m : Message)
        → st.handler ≡ waiting
        → is_connected st.phase ≡ true
        → Mem m.subscription (subscriptions_in env)
        → HandlerStep st (record st { handler = called m; delivered = m ∷ st.delivered })
    drop :
        (m : Message) (x : Dropped)
        → st.handler ≡ called m
        → message_packet env.lib env.fl env.cfg.encryption_key
            (mpubsub_topic_of m.subscription.entry m.topic)
            m.subscription.entry.schema_ptr
            m.payload
          ≡ err x
        → HandlerStep st (record st { handler = waiting })
    encode :
        (m : Message) (pkt : Bytes)
        → st.handler ≡ called m
        → message_packet env.lib env.fl env.cfg.encryption_key
            (mpubsub_topic_of m.subscription.entry m.topic)
            m.subscription.entry.schema_ptr
            m.payload
          ≡ ok pkt
        → HandlerStep st (record st { handler = encoded (work_of env m pkt) })
    cancel :
        (w : Work)
        → st.handler ≡ encoded w
        → HandlerStep st
            (record st { handler = cancelled w; jobs = cancel_indefinite w.topic st.jobs })
    send :
        (w : Work)
        → st.handler ≡ cancelled w
        → socket_open st.phase ≡ true
        → HandlerStep st (record (on_wire w.datagram st) { handler = sent w })
    fail : (w : Work) → st.handler ≡ cancelled w → HandlerStep st (record st { handler = waiting })
    install :
        (w : Work)
        → st.handler ≡ sent w
        → w.count ≡ indefinite
        → HandlerStep st (record st {
          handler = waiting;
          jobs = start_indefinite w.topic st.jobs;
          loops = update st.loops st.jobs.made (looping w.datagram);
        })
    schedule :
        (w : Work) (n : ℕ)
        → st.handler ≡ sent w
        → w.count ≡ times n
        → 2 ≤ n
        → HandlerStep st (record st {
          handler = waiting;
          bursts = record { datagram = w.datagram; left = n - 1 } ∷ st.bursts;
        })
    done :
        (w : Work) (n : ℕ)
        → st.handler ≡ sent w
        → w.count ≡ times n
        → n ≤ 1
        → HandlerStep st (record st { handler = waiting })

  -- The steps of the goroutines that send again. Where a channel is closed and the ticker is due,
  -- `select` takes either case.
  pub data ResendStep (st : System) : System → Type 0 where
    tick :
        (c : ℕ) (d : Datagram)
        → st.loops c ≡ looping d
        → socket_open st.phase ≡ true
        → ResendStep st (on_wire d st)
    tick_failed : (c : ℕ) (d : Datagram) → st.loops c ≡ looping d → ResendStep st st
    stop :
        (c : ℕ) (d : Datagram)
        → st.loops c ≡ looping d
        → st.jobs.closed c ≡ true
        → ResendStep st (record st { loops = update st.loops c returned })
    burst :
        (before after : List Burst) (d : Datagram) (left : ℕ)
        → st.bursts ≡ before ++ record { datagram = d; left = suc left } ∷ after
        → socket_open st.phase ≡ true
        → ResendStep st (record (on_wire d st) {
          bursts = before ++ record { datagram = d; left = left } ∷ after;
        })
    burst_failed :
        (before after : List Burst) (d : Datagram) (left : ℕ)
        → st.bursts ≡ before ++ record { datagram = d; left = suc left } ∷ after
        → ResendStep st (record st { bursts = before ++ after })

  -- The steps of Run behind `<-ctx.Done()`.
  pub data RunStep (st : System) : System → Type 0 where
    end_context : st.phase ≡ serving → RunStep st (record st { phase = stopping })
    close_jobs :
        st.phase ≡ stopping
        → RunStep st (record st { phase = jobs_closed; jobs = shutdown st.jobs })
    close_socket : st.phase ≡ jobs_closed → RunStep st (record st { phase = socket_closed })
    disconnect : st.phase ≡ socket_closed → RunStep st (record st { phase = disconnected })
    finish :
        st.phase ≡ disconnected → st.receiver ≡ ended → RunStep st (record st { phase = finished })

  -- The steps of mcastReceiveLoop. `serve` adds what Publish is given at its calls. Of a RAW packet in
  -- the clear that is a slice of the buffer of `read`: these are its bytes at the call, and not those
  -- that paho finds there if it writes the publish out behind a later Read.
  pub data ReceiveStep (st : System) : System → Type 0 where
    go_on :
        st.receiver ≡ checking
        → is_serving st.phase ≡ true
        → ReceiveStep st (record st { receiver = reading })
    leave :
        st.receiver ≡ checking
        → is_serving st.phase ≡ false
        → ReceiveStep st (record st { receiver = ended })
    read :
        (received : Bytes)
        → st.receiver ≡ reading
        → socket_open st.phase ≡ true
        → ReceiveStep st
            (record st { receiver = holding received; datagrams = received ∷ st.datagrams })
    serve :
        (received : Bytes)
        → st.receiver ≡ holding received
        → ReceiveStep st
            (record st { receiver = checking; published = round env received ++ st.published })
    read_failed :
        st.receiver ≡ reading
        → is_serving st.phase ≡ true
        → ReceiveStep st (record st { receiver = checking })
    read_ended :
        st.receiver ≡ reading
        → is_serving st.phase ≡ false
        → ReceiveStep st (record st { receiver = ended })

  pub data Step (st : System) (next : System) : Type 0 where
    handles : HandlerStep st next → Step st next
    resends : ResendStep st next → Step st next
    runs : RunStep st next → Step st next
    receives : ReceiveStep st next → Step st next

  -- The states that come after one.
  pub data Later (st : System) : System → Type 0 where
    here : Later st st
    next : {mid after : System} → Later st mid → Step mid after → Later st after
