-- ===== src/Node/Subscriptions.antt =====
-- The subscriptions of a node over its life: components/mpubsub/multicast_pubsub.cpp.
pub mod Table
pub mod Asking
pub mod Demand
use mathlib.Core.List.{Mem, mem-cons_self, mem-cons_of_mem}
use esphome_mpubsub.Base.{
  ℕ, suc, ◌+◌, ◌%◌, ◌^◌, ◌≡◌, refl, ap, ◌∙◌, sym, arith, Bool, true, false, not, ◌&&◌, ◌||◌,
  if◌then◌else◌, Bool-cases, inl, inr, ◌⊎◌,
}
use esphome_mpubsub.Base.{
  List, [], ◌∷◌, ◌++◌, map, Bytes, All, All-append, ◌=ᵇ◌, =ᵇ_iff, =ᵇ_refl, none, some, Option-cases,
  length, ltb,
}
use esphome_mpubsub.Base.Maps.{bytes_eq, lookup}
use esphome_mpubsub.Node.Topic.{topic_crc32, topic_to_group}
use esphome_mpubsub.Node.Format.{Encoding}
use esphome_mpubsub.Node.{
  Cipher, Node, Subscription, TypedCallback, Outgoing, set_encryption_key, setup,
  change_subscription, find_subscription, find_or_create_subscription, subscribe, subscribe_typed,
  on_packet,
}
use esphome_mpubsub.Node.Timers.{cancel_indefinite_retransmit, schedule_retransmits, is_indefinite}
use esphome_mpubsub.Node.Sending.{Published, send_and_schedule, publish}

module _ (cipher : Cipher) (sha256 : Bytes → Bytes) where
  -- What happens to a node.
  pub data NodeStep (node : Node) : Node → Type 0 where
    sets_up :
        (created bound : Bool)
        → node.socket ≡ false
        → node.failed ≡ false
        → NodeStep node (setup created bound node)
    keys : (key : Bytes) → NodeStep node (set_encryption_key key node)
    subscribes :
        (topic : Bytes) (cb : ℕ) (flag : Bool) → NodeStep node (subscribe sha256 topic cb flag node)
    subscribes_typed :
        (topic : Bytes) (cb : TypedCallback) (flag : Bool)
        → NodeStep node (subscribe_typed sha256 topic cb flag node)
    publishes :
        (sends : Bool) (topic payload : Bytes) (e : Encoding)
        → NodeStep node (publish cipher sha256 sends topic payload e node).node
    hears : (received : Bytes) → NodeStep node (on_packet cipher node received).0

  -- The nodes that come after one.
  pub data NodeLater (node : Node) : Node → Type 0 where
    now : NodeLater node node
    then_does : {mid after : Node} → NodeLater node mid → NodeStep mid after → NodeLater node after

-- What a change of a subscription keeps.
abbrev pub Keeps : (Subscription → Subscription) → Type 0
Keeps f =
    (s : Subscription)
    → ((f s).topic ≡ s.topic)
      × ((f s).crc ≡ s.crc)
      × ((f s).group ≡ s.group)
      × (s.require_encryption ≡ true → (f s).require_encryption ≡ true)

module _ (P : Node → Type 0)
    (keep : (n : Node) (jobs : List (Bytes × Outgoing)) (count : ℕ)
      → P n
      → P (record n { indefinite_jobs = jobs; packets_sent = count })) where
  cancel_keep : (topic : Bytes) (n : Node) → P n → P (cancel_indefinite_retransmit topic n).0
  unfolding cancel_indefinite_retransmit
  cancel_keep topic n h = elim (Option-cases (lookup topic n.indefinite_jobs)) [
    | inl gone ↦ rw (cancel_indefinite_retransmit, gone) h
    | inr (job, there) ↦ rw (cancel_indefinite_retransmit, there) (keep n _ n.packets_sent h)
  ]

  schedule_keep :
      (topic : Bytes) (d : Outgoing) (n : Node) → P n → P (schedule_retransmits topic d n).0
  unfolding schedule_retransmits
  schedule_keep topic d n h =
      let cancelled = (cancel_indefinite_retransmit topic n).0 in
      let h' : P cancelled = cancel_keep topic n h in
      elim (Bool-cases (is_indefinite n.retransmit_count)) [
        | inl for_ever ↦
            rw (schedule_retransmits, for_ever) (keep cancelled _ cancelled.packets_sent h')
        | inr finite ↦ rw (schedule_retransmits, finite) h'
      ]

  send_keep :
      (sends : Bool) (topic : Bytes) (d : Outgoing) (n : Node)
      → P n
      → P (send_and_schedule sends topic d n).node
  unfolding send_and_schedule
  send_keep false topic d n h = h
  send_keep true topic d n h = schedule_keep topic d _ (keep n n.indefinite_jobs _ h)

  if_keep : (b : Bool) (x y : Published) → P x.node → P y.node → P (if b then x else y).node
  if_keep true x y hx hy = hx
  if_keep false x y hx hy = hy

  -- What no publish changes of a node.
  pub publish_keep :
      (cipher : Cipher) (sha256 : Bytes → Bytes) (sends : Bool) (topic payload : Bytes)
      (e : Encoding) (node : Node)
      → P node
      → P (publish cipher sha256 sends topic payload e node).node
  unfolding publish
  publish_keep cipher sha256 sends topic payload e node h =
      if_keep (not node.socket) _ _ h (if_keep _ _ _ h (send_keep sends topic _ node h))

-- The subscription is one for its topic.
abbrev pub IsDerived : (Bytes → Bytes) → ℕ → Subscription → Type 0
IsDerived sha256 scope s =
    (s.crc ≡ topic_crc32 s.topic) × (s.group ≡ topic_to_group sha256 s.topic scope)

-- No topic has two.
abbrev pub IsSingle : List Subscription → Type 0
IsSingle [] = Unit {0}
IsSingle (s ∷ subs) = (find_subscription s.topic subs ≡ false) × IsSingle subs

pub record IsTable (sha256 : Bytes → Bytes) (node : Node) : Type 0 where
  pub derived : All (IsDerived sha256 node.scope) node.subscriptions
  pub single : IsSingle node.subscriptions
  pub joins :
      node.socket ≡ true
      → node.failed ≡ false
      → All (λ s. Mem s.group node.joined) node.subscriptions

module _ (topic : Bytes) (f : Subscription → Subscription) (keeps : Keeps f) where
  pub change-find :
      (u : Bytes) (subs : List Subscription)
      → find_subscription u (change_subscription topic f subs) ≡ find_subscription u subs
  unfolding find_subscription change_subscription
  change-find u [] = refl
  change-find u (s ∷ subs) =
      let (same, crc, group, flag) = keeps s in
      elim (Bool-cases (s.topic =ᵇ topic)) [
        | inl hit ↦ rw (change_subscription, hit, same) refl
        | inr miss ↦
            rw (change_subscription, miss)
              (ap (λ (b : Bool). (s.topic =ᵇ u) || b) (change-find u subs))
      ]

  pub change-IsSingle :
      (subs : List Subscription) → IsSingle subs → IsSingle (change_subscription topic f subs)
  unfolding change_subscription
  change-IsSingle [] h = tt
  change-IsSingle (s ∷ subs) (new, h) =
      let (same, crc, group, flag) = keeps s in
      elim (Bool-cases (s.topic =ᵇ topic)) [
        | inl hit ↦ rw (change_subscription, hit) (rw same new, h)
        | inr miss ↦
            rw (change_subscription, miss) (change-find s.topic subs ∙ new, change-IsSingle subs h)
      ]

  pub change-All :
      (P : Subscription → Type 0) (subs : List Subscription)
      → ((s : Subscription) → P s → P (f s))
      → All P subs
      → All P (change_subscription topic f subs)
  unfolding change_subscription
  change-All P [] step h = tt
  change-All P (s ∷ subs) step (own, h) = elim (Bool-cases (s.topic =ᵇ topic)) [
    | inl hit ↦ rw (change_subscription, hit) (step s own, h)
    | inr miss ↦ rw (change_subscription, miss) (own, change-All P subs step h)
  ]
