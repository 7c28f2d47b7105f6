-- ===== src/Node/Subscriptions/Table.antt =====
-- A node's table of subscriptions over its life.
use mathlib.Core.List.{Mem, mem-cons_self, mem-cons_of_mem, mem-append_left, mem-append_right}
use mathlib.Core.Path.{subst}
use esphome_mpubsub.Base.{
  ◌≡◌, refl, ap, ◌∙◌, sym, arith, Bool, true, false, if◌then◌else◌, Bool-cases, inl, inr,
}
use esphome_mpubsub.Base.{
  List, [], ◌∷◌, ◌++◌, map, Bytes, All, All-append, ◌=ᵇ◌, =ᵇ_iff, length, ◌==◌,
}
use esphome_mpubsub.Node.Topic.{topic_crc32, topic_to_group}
use esphome_mpubsub.Node.{
  Cipher, Node, Subscription, set_encryption_key, setup, change_subscription, find_subscription,
  new_subscription, find_or_create_subscription, subscribe, subscribe_typed, on_packet,
}
use esphome_mpubsub.Node.Subscriptions.{
  NodeStep, NodeLater, sets_up, keys, subscribes, subscribes_typed, publishes, hears, now,
  then_does, Keeps, publish_keep, IsDerived, IsSingle, IsTable, change-IsSingle, change-All,
}

differ : (u v : Bytes) → (u =ᵇ v) ≡ false → (v =ᵇ u) ≡ false
differ u v h = elim (Bool-cases (v =ᵇ u)) [
  | inl same ↦
      let back : (u =ᵇ v) ≡ true = (=ᵇ_iff u v).1 (sym ((=ᵇ_iff v u).0 same)) in
      absurd (ground arith)
  | inr other ↦ other
]

find-append :
    (u : Bytes) (subs : List Subscription) (new : Subscription)
    → (new.topic =ᵇ u) ≡ false
    → find_subscription u subs ≡ false
    → find_subscription u (subs ++ new ∷ []) ≡ false
unfolding find_subscription
find-append u [] new h k = rw h refl
find-append u (s ∷ subs) new h k = ground (arith, find-append u subs new h)

append-IsSingle :
    (subs : List Subscription) (new : Subscription)
    → find_subscription new.topic subs ≡ false
    → IsSingle subs
    → IsSingle (subs ++ new ∷ [])
unfolding find_subscription
append-IsSingle [] new k h = (refl, tt)
append-IsSingle (s ∷ subs) new k (own, h) =
    let apart : (s.topic =ᵇ new.topic) ≡ false = ground arith in
    let rest : find_subscription new.topic subs ≡ false = ground arith in
    (
      find-append s.topic subs new (differ s.topic new.topic apart) own,
      append-IsSingle subs new rest h,
    )

weaken :
    (P Q : Subscription → Type 0) (subs : List Subscription)
    → ((s : Subscription) → P s → Q s)
    → All P subs
    → All Q subs
weaken P Q [] step h = tt
weaken P Q (s ∷ subs) step (own, h) = (step s own, weaken P Q subs step h)

-- The subscriptions whose group was joined.
abbrev AreJoined : List Bytes → List Subscription → Type 0
AreJoined joined subs = All (λ s. Mem s.group joined) subs

mapped-AreJoined :
    (subs : List Subscription) → AreJoined (map (λ (x : Subscription). x.group) subs) subs
mapped-AreJoined [] = tt
mapped-AreJoined (s ∷ subs) =
    (mem-cons_self, weaken _ _ subs (λ x m. mem-cons_of_mem s.group m) (mapped-AreJoined subs))

append-AreJoined :
    (joined : List Bytes) (subs : List Subscription) (new : Subscription)
    → AreJoined joined subs
    → AreJoined (joined ++ new.group ∷ []) (subs ++ new ∷ [])
append-AreJoined joined subs new h =
    All-append (λ s. Mem s.group (joined ++ new.group ∷ [])) subs (new ∷ [])
      (weaken _ _ subs (λ s m. mem-append_left (new.group ∷ []) m) h)
      (mem-append_right joined (mem-cons_self {l = []}), tt)

module _ (sha256 : Bytes → Bytes) where
  change-IsTable :
      (topic : Bytes) (f : Subscription → Subscription) (node : Node)
      → Keeps f
      → IsTable sha256 node
      → IsTable sha256
          (record node { subscriptions = change_subscription topic f node.subscriptions })
  change-IsTable topic f node keeps h = record {
    derived =
        change-All topic f keeps (IsDerived sha256 node.scope) node.subscriptions
          (λ s own.
            let (same, crc, group, flag) = keeps s in
            (
              crc ∙ own.0 ∙ ap topic_crc32 (sym same),
              group ∙ own.1 ∙ ap (λ (t : Bytes). topic_to_group sha256 t node.scope) (sym same),
            ))
          h.derived;
    single = change-IsSingle topic f keeps node.subscriptions h.single;
    joins = λ socket well.
        change-All topic f keeps (λ s. Mem s.group node.joined) node.subscriptions
          (λ s own.
            let (same, crc, group, flag) = keeps s in
            subst (λ (g : Bytes). Mem g node.joined) (sym group) own)
          (h.joins socket well);
  }

  append-IsTable :
      (topic : Bytes) (flag : Bool) (node : Node)
      → find_subscription topic node.subscriptions ≡ false
      → IsTable sha256 node
      → let sub = new_subscription sha256 topic flag node in
        IsTable sha256 (record node {
          subscriptions = node.subscriptions ++ sub ∷ [];
          joined = if node.socket then node.joined ++ sub.group ∷ [] else node.joined;
        })
  append-IsTable topic flag node new h =
      let sub = new_subscription sha256 topic flag node in
      record {
        derived =
            All-append (IsDerived sha256 node.scope) node.subscriptions (sub ∷ []) h.derived
              ((refl, refl), tt);
        single = append-IsSingle node.subscriptions sub new h.single;
        joins = λ socket well.
            subst
              (λ (b : Bool).
                AreJoined (if b then node.joined ++ sub.group ∷ [] else node.joined)
                  (node.subscriptions ++ sub ∷ []))
              (sym socket)
              (append-AreJoined node.joined node.subscriptions sub (h.joins socket well));
      }

  find_or_create-IsTable :
      (topic : Bytes) (flag : Bool) (node : Node)
      → IsTable sha256 node
      → IsTable sha256 (find_or_create_subscription sha256 topic flag node)
  unfolding find_or_create_subscription
  find_or_create-IsTable topic flag node h =
      elim (Bool-cases (find_subscription topic node.subscriptions)) [
        | inl there ↦
            rw (find_or_create_subscription, there)
              (change-IsTable topic _ node (λ s. (refl, refl, refl, λ on. ground arith)) h)
        | inr new ↦ rw (find_or_create_subscription, new) (append-IsTable topic flag node new h)
      ]

  setup-IsTable :
      (created bound : Bool) (node : Node)
      → IsTable sha256 node
      → IsTable sha256 (setup created bound node)
  unfolding setup
  setup-IsTable false bound node h = record {
    derived = h.derived;
    single = h.single;
    joins = λ socket well. absurd (ground arith);
  }
  setup-IsTable true false node h = record {
    derived = h.derived;
    single = h.single;
    joins = λ socket well. absurd (ground arith);
  }
  setup-IsTable true true node h = record {
    derived = h.derived;
    single = h.single;
    joins = λ socket well.
        weaken _ _ node.subscriptions (λ s m. mem-append_right node.joined m)
          (mapped-AreJoined node.subscriptions);
  }

  keys-IsTable :
      (key : Bytes) (node : Node)
      → IsTable sha256 node
      → IsTable sha256 (set_encryption_key key node)
  unfolding set_encryption_key
  keys-IsTable key node h = elim (Bool-cases (length key == 32)) [
    | inl long ↦
        rw (set_encryption_key, long)
          (record { derived = h.derived; single = h.single; joins = h.joins })
    | inr wrong ↦
        rw (set_encryption_key, wrong)
          (record { derived = h.derived; single = h.single; joins = h.joins })
  ]

  NodeStep-IsTable :
      (cipher : Cipher) {node after : Node}
      → NodeStep cipher sha256 node after
      → IsTable sha256 node
      → IsTable sha256 after
  unfolding subscribe subscribe_typed on_packet
  NodeStep-IsTable cipher {node} (sets_up created bound s f) h = setup-IsTable created bound node h
  NodeStep-IsTable cipher {node} (keys key) h = keys-IsTable key node h
  NodeStep-IsTable cipher {node} (subscribes topic cb flag) h =
      change-IsTable topic _ (find_or_create_subscription sha256 topic flag node)
        (λ s. (refl, refl, refl, λ on. on)) (find_or_create-IsTable topic flag node h)
  NodeStep-IsTable cipher {node} (subscribes_typed topic cb flag) h =
      change-IsTable topic _ (find_or_create_subscription sha256 topic flag node)
        (λ s. (refl, refl, refl, λ on. on)) (find_or_create-IsTable topic flag node h)
  NodeStep-IsTable cipher {node} (publishes sends topic payload e) h =
      publish_keep (IsTable sha256)
        (λ n jobs count k. record { derived = k.derived; single = k.single; joins = k.joins })
        cipher sha256 sends topic payload e node h
  NodeStep-IsTable cipher (hears received) h = record {
    derived = h.derived;
    single = h.single;
    joins = h.joins;
  }

  -- Whatever a node that has no subscriptions yet goes through: each of its subscriptions has the
  -- checksum and the group of its topic, no topic has two, and once setup has succeeded the socket
  -- was asked to join the group of each.
  pub NodeLater-IsTable :
      (cipher : Cipher) (node after : Node)
      → NodeLater cipher sha256 node after
      → node.subscriptions ≡ []
      → IsTable sha256 after
  NodeLater-IsTable cipher node _ now empty =
      let nothing = λ (P : Subscription → Type 0). subst (All P) (sym empty) tt in
      record {
        derived = nothing (IsDerived sha256 node.scope);
        single = subst IsSingle (sym empty) tt;
        joins = λ socket well. nothing (λ s. Mem s.group node.joined);
      }
  NodeLater-IsTable cipher node _ (then_does {mid} l s) empty =
      NodeStep-IsTable cipher s (NodeLater-IsTable cipher node mid l empty)
