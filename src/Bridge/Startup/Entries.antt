-- ===== src/Bridge/Startup/Entries.antt =====
-- What the rounds over the entries in Run have done.
use mathlib.Core.Path.{subst}
use esphome_mpubsub.Base.{ℕ, ◌≡◌, refl, ap, ◌∙◌, sym, arith, false, Bool-cases, inl, inr}
use esphome_mpubsub.Base.{
  List, [], ◌∷◌, ◌++◌, Bytes, All, Result, ok, err, bind_ok, ok-injective, append_assoc, append-nil,
}
use esphome_mpubsub.Base.Maps.{bytes_eq}
use esphome_mpubsub.Wire.Address.{topic_to_group}
use esphome_mpubsub.Config.{
  Direction, mqtt_to_mpubsub, mpubsub_to_mqtt, unknown_direction, BridgeEntry,
}
use esphome_mpubsub.Socket.{Kernel, SocketError, MulticastSocket, join}
use esphome_mpubsub.Socket.Joining.{IsSocket, HasGroup, join-IsSocket, join-HasGroup, join_keeps}
use esphome_mpubsub.Bridge.{to_mqtt, Route, add_route, register}
use esphome_mpubsub.Bridge.Startup.{
  Broker, Subscription, Started, joined_or, subscription, subscribe, listen_to, start_way,
  start_entries,
}

-- The subscription of an entry that leads away from MQTT.
abbrev pub subscription_for : ℕ → Direction → BridgeEntry → List Subscription
subscription_for qos mqtt_to_mpubsub e = subscription qos e ∷ []
subscription_for qos d e = []

abbrev pub subscriptions_of : ℕ → List BridgeEntry → List Subscription
subscriptions_of qos [] = []
subscriptions_of qos (e ∷ es) = subscription_for qos e.direction e ++ subscriptions_of qos es

add_route_away :
    (e : BridgeEntry) (table : List (ℕ × List Route))
    → to_mqtt e.direction ≡ false
    → add_route e table ≡ table
unfolding add_route
add_route_away e table away = ground arith

module _ (k : Kernel) (broker : Broker) (sha256 : Bytes → Bytes) (scope qos : ℕ) where
  abbrev pub group_of : BridgeEntry → Bytes
  group_of e = topic_to_group sha256 e.mpubsub_topic scope

  -- JoinGroup was called, and succeeded, for the group of an entry that leads to MQTT or for one
  -- that is written alike.
  abbrev pub Hears : MulticastSocket → Direction → BridgeEntry → Type 0
  Hears m mpubsub_to_mqtt e = HasGroup k m (group_of e)
  Hears m d e = Unit {0}

  -- What the rounds over some entries have done to a state.
  pub record IsStarted (es : List BridgeEntry) (st st' : Started) : Type 0 where
    pub routes : st'.crc_to_mqtt ≡ register es st.crc_to_mqtt
    pub subscribed : st'.subscriptions ≡ st.subscriptions ++ subscriptions_of qos es
    pub socket : IsSocket k st'.socket
    pub heard : All (λ e. Hears st'.socket e.direction e) es
    pub kept : (g : Bytes) → HasGroup k st.socket g → HasGroup k st'.socket g

  -- One round.
  abbrev AfterWay : Direction → BridgeEntry → Started → Started → Type 0
  AfterWay d e st st' =
      (st'.crc_to_mqtt ≡ add_route e st.crc_to_mqtt)
      × (st'.subscriptions ≡ st.subscriptions ++ subscription_for qos d e)
      × IsSocket k st'.socket
      × Hears st'.socket d e
      × ((g : Bytes) → HasGroup k st.socket g → HasGroup k st'.socket g)

  joined_or_ok :
      (r : Result SocketError MulticastSocket) (m : MulticastSocket) → joined_or r ≡ ok m → r ≡ ok m
  joined_or_ok (ok n) m e = ground arith
  joined_or_ok (err x) m e = cc

  start_way-AfterWay :
      (d : Direction) (e : BridgeEntry) (st st' : Started)
      → e.direction ≡ d
      → IsSocket k st.socket
      → start_way k broker sha256 scope qos d e st ≡ ok st'
      → AfterWay d e st st'
  unfolding subscribe listen_to
  start_way-AfterWay mqtt_to_mpubsub e st st' is h done =
      elim (Bool-cases (broker.subscribes e.mqtt_topic qos)) [
        | inr refused ↦ absurd (ground arith)
        | inl taken ↦
            let now : Started = record {
              subscriptions = st.subscriptions ++ subscription qos e ∷ [];
              socket = st.socket;
              crc_to_mqtt = st.crc_to_mqtt;
            } in
            let same : now ≡ st' = ground arith in
            subst (AfterWay mqtt_to_mpubsub e st) same
              (sym (add_route_away e st.crc_to_mqtt (ap to_mqtt is)), refl, h, tt, λ g x. x)
      ]
  start_way-AfterWay mpubsub_to_mqtt e st st' is h done =
      let (m, joined, done') = bind_ok (joined_or (join k (group_of e) st.socket)) _ st' done in
      let joined' = joined_or_ok (join k (group_of e) st.socket) m joined in
      subst (AfterWay mpubsub_to_mqtt e st) (ok-injective done') (
        refl,
        sym (append-nil st.subscriptions),
        join-IsSocket k st.socket m (group_of e) h joined',
        join-HasGroup k st.socket m (group_of e) h joined',
        λ g x. join_keeps k st.socket m (group_of e) g x joined',
      )
  start_way-AfterWay (unknown_direction d) e st st' is h done =
      let same : st ≡ st' = ground arith in
      subst (AfterWay (unknown_direction d) e st) same (
        sym (add_route_away e st.crc_to_mqtt (ap to_mqtt is)),
        sym (append-nil st.subscriptions),
        h,
        tt,
        λ g x. x,
      )

  Hears-later :
      (m m' : MulticastSocket) (d : Direction) (e : BridgeEntry)
      → ((g : Bytes) → HasGroup k m g → HasGroup k m' g)
      → Hears m d e
      → Hears m' d e
  Hears-later m m' mqtt_to_mpubsub e keep h = tt
  Hears-later m m' mpubsub_to_mqtt e keep h = keep (group_of e) h
  Hears-later m m' (unknown_direction d) e keep h = tt

  pub start_entries-IsStarted :
      (es : List BridgeEntry) (st st' : Started)
      → IsSocket k st.socket
      → start_entries k broker sha256 scope qos es st ≡ ok st'
      → IsStarted es st st'
  unfolding start_entries register
  start_entries-IsStarted [] st st' h done =
      let same : st ≡ st' = ground arith in
      subst (IsStarted [] st) same (record {
        routes = refl;
        subscribed = sym (append-nil st.subscriptions);
        socket = h;
        heard = tt;
        kept = λ g x. x;
      })
  start_entries-IsStarted (e ∷ es) st st' h done =
      let (next, went, done') =
        bind_ok (start_way k broker sha256 scope qos e.direction e st) _ st' done in
      let (routes, subs, socket, hears, keep) =
        start_way-AfterWay e.direction e st next refl h went in
      let rest = start_entries-IsStarted es next st' socket done' in
      record {
        routes = rest.routes ∙ ap (register es) routes;
        subscribed =
            rest.subscribed
            ∙ ap (λ (l : List Subscription). l ++ subscriptions_of qos es) subs
            ∙ append_assoc st.subscriptions (subscription_for qos e.direction e)
                (subscriptions_of qos es);
        socket = rest.socket;
        heard = (Hears-later next.socket st'.socket e.direction e rest.kept hears, rest.heard);
        kept = λ g x. rest.kept g (keep g x);
      }
