-- ===== src/Node/Subscriptions/Demand.antt =====
-- A topic for which a subscriber demanded encryption.

use esphome_mpubsub.Base.{
  ℕ, ◌≡◌, refl, ap, ◌∙◌, arith, Bool, true, false, not, ◌&&◌, ◌==◌, if◌then◌else◌, Bool-cases, inl,
  inr,
}
use esphome_mpubsub.Base.{List, [], ◌∷◌, ◌++◌, Bytes, All, All-append, ◌=ᵇ◌, =ᵇ_refl, ok, length}
use esphome_mpubsub.Node.Format.{Encoding, unencrypted, DecodedPacket, decode}
use esphome_mpubsub.Node.{
  Cipher, Node, Subscription, Invocation, set_encryption_key, setup, find_subscription,
  new_subscription, find_or_create_subscription, subscribe, subscribe_typed, run_callbacks, deliver,
  dispatched, on_packet,
}
use esphome_mpubsub.Node.Subscriptions.{
  NodeStep, NodeLater, sets_up, keys, subscribes, subscribes_typed, publishes, hears, now,
  then_does, publish_keep, IsSingle, change-find,
}
use esphome_mpubsub.Node.Subscriptions.Asking.{
  Asks, IsDemanded, absent-Asks, change-IsDemanded, find-append_new, append-IsDemanded,
  changed-IsDemanded,
}
use esphome_mpubsub.Node.Subscriptions.Table.{NodeLater-IsTable}

module _ (sha256 : Bytes → Bytes) where
  find_or_create-IsDemanded :
      (topic u : Bytes) (flag : Bool) (node : Node)
      → IsDemanded topic node.subscriptions
      → IsDemanded topic (find_or_create_subscription sha256 u flag node).subscriptions
  unfolding find_or_create_subscription
  find_or_create-IsDemanded topic u flag node h =
      elim (Bool-cases (find_subscription u node.subscriptions)) [
        | inl there ↦
            rw (find_or_create_subscription, there)
              (change-IsDemanded topic u _ node.subscriptions
                (λ s. (refl, refl, refl, λ on. ground arith)) h)
        | inr new ↦
            rw (find_or_create_subscription, new)
              (append-IsDemanded topic node.subscriptions (new_subscription sha256 u flag node) new
                h)
      ]

  find_or_create-demands :
      (topic : Bytes) (node : Node)
      → IsSingle node.subscriptions
      → IsDemanded topic (find_or_create_subscription sha256 topic true node).subscriptions
  unfolding find_or_create_subscription
  find_or_create-demands topic node single =
      let subs = node.subscriptions in
      elim (Bool-cases (find_subscription topic subs)) [
        | inl there ↦
            rw (find_or_create_subscription, there)
              (
                change-find topic _ (λ s. (refl, refl, refl, λ on. refl)) topic subs ∙ there,
                changed-IsDemanded topic _ subs (λ s. (refl, refl, refl, λ on. refl)) (λ s. refl)
                    single there,
              )
        | inr new ↦
            rw (find_or_create_subscription, new)
              (
                find-append_new topic subs (new_subscription sha256 topic true node)
                    (=ᵇ_refl topic),
                All-append (Asks topic) subs _ (absent-Asks topic subs new) (λ hit. refl, tt),
              )
      ]

  NodeStep-IsDemanded :
      (cipher : Cipher) (topic : Bytes) {node after : Node}
      → NodeStep cipher sha256 node after
      → IsDemanded topic node.subscriptions
      → IsDemanded topic after.subscriptions
  unfolding subscribe subscribe_typed on_packet setup set_encryption_key
  NodeStep-IsDemanded cipher topic {node} (sets_up false bound s f) h = h
  NodeStep-IsDemanded cipher topic {node} (sets_up true false s f) h = h
  NodeStep-IsDemanded cipher topic {node} (sets_up true true s f) h = h
  NodeStep-IsDemanded cipher topic {node} (keys key) h = elim (Bool-cases (length key == 32)) [
    | inl long ↦ rw (set_encryption_key, long) h
    | inr wrong ↦ rw (set_encryption_key, wrong) h
  ]
  NodeStep-IsDemanded cipher topic {node} (subscribes u cb flag) h =
      change-IsDemanded topic u _ _ (λ s. (refl, refl, refl, λ on. on))
        (find_or_create-IsDemanded topic u flag node h)
  NodeStep-IsDemanded cipher topic {node} (subscribes_typed u cb flag) h =
      change-IsDemanded topic u _ _ (λ s. (refl, refl, refl, λ on. on))
        (find_or_create-IsDemanded topic u flag node h)
  NodeStep-IsDemanded cipher topic {node} (publishes sends u payload e) h =
      publish_keep (λ n. IsDemanded topic n.subscriptions) (λ n jobs count k. k) cipher sha256 sends
        u payload e node h
  NodeStep-IsDemanded cipher topic (hears received) h = h

  NodeLater-IsDemanded :
      (cipher : Cipher) (topic : Bytes) {node after : Node}
      → NodeLater cipher sha256 node after
      → IsDemanded topic node.subscriptions
      → IsDemanded topic after.subscriptions
  NodeLater-IsDemanded cipher topic now h = h
  NodeLater-IsDemanded cipher topic (then_does l s) h =
      NodeStep-IsDemanded cipher topic s (NodeLater-IsDemanded cipher topic l h)

-- The subscriptions of other topics.
abbrev pub others : Bytes → List Subscription → List Subscription
others topic [] = []
others topic (s ∷ subs) =
    let rest = others topic subs in if s.topic =ᵇ topic then rest else s ∷ rest

deliver-asking :
    (s : Subscription) (subs : List Subscription) (crc : ℕ) (e : Encoding) (payload : Bytes)
    → s.require_encryption ≡ true
    → deliver (s ∷ subs) crc e payload false ≡ deliver subs crc e payload false
unfolding deliver
deliver-asking s subs crc e payload asks = elim (Bool-cases (s.crc == crc)) [
  | inl same ↦ rw (deliver, same, asks) refl
  | inr other ↦ rw (deliver, other) refl
]

deliver-cons :
    (s : Subscription) (subs subs' : List Subscription) (crc : ℕ) (e : Encoding) (payload : Bytes)
    → deliver subs crc e payload false ≡ deliver subs' crc e payload false
    → deliver (s ∷ subs) crc e payload false ≡ deliver (s ∷ subs') crc e payload false
unfolding deliver
deliver-cons s subs subs' crc e payload h =
    ap
      (λ (rest : List Invocation).
        if not (s.crc == crc)
        then rest
        else if s.require_encryption && true
        then rest
        else run_callbacks s e payload ++ rest)
      h

deliver-others :
    (topic : Bytes) (subs : List Subscription) (crc : ℕ) (e : Encoding) (payload : Bytes)
    → All (Asks topic) subs
    → deliver subs crc e payload false ≡ deliver (others topic subs) crc e payload false
unfolding deliver
deliver-others topic [] crc e payload h = refl
deliver-others topic (s ∷ subs) crc e payload (own, h) =
    let rest = deliver-others topic subs crc e payload h in
    elim (Bool-cases (s.topic =ᵇ topic)) [
      | inl hit ↦ rw hit (deliver-asking s subs crc e payload (own hit) ∙ rest)
      | inr miss ↦ rw miss (deliver-cons s subs (others topic subs) crc e payload rest)
    ]

module _ (cipher : Cipher) (sha256 : Bytes → Bytes) where
  -- Once a callback was subscribed to a topic with require_encryption, whatever else the node goes
  -- through: a datagram that is not encrypted leads to no callback of that topic, also of those
  -- that asked for no encryption, and to the callbacks of the other topics as ever.
  pub subscribe-others :
      (node mid after : Node) (topic : Bytes) (cb : ℕ) (received : Bytes) (pkt : DecodedPacket)
      → node.subscriptions ≡ []
      → NodeLater cipher sha256 node mid
      → NodeLater cipher sha256 (subscribe sha256 topic cb true mid) after
      → decode received ≡ ok pkt
      → pkt.enc_mode ≡ unencrypted
      → (on_packet cipher after received).1
        ≡ deliver (others topic after.subscriptions) pkt.topic_crc pkt.encoding pkt.payload false
  unfolding on_packet dispatched subscribe
  subscribe-others node mid after topic cb received pkt empty before behind decoded clear =
      let single = (NodeLater-IsTable sha256 cipher node mid before empty).single in
      let demanded =
        change-IsDemanded topic topic _ _ (λ s. (refl, refl, refl, λ on. on))
          (find_or_create-demands sha256 topic mid single) in
      let (there, asks) = NodeLater-IsDemanded sha256 cipher topic behind demanded in
      rw (decoded, dispatched, clear)
        (deliver-others topic after.subscriptions pkt.topic_crc pkt.encoding pkt.payload asks)
