-- ===== src/Node/Subscriptions/Asking.antt =====
-- Tables in which a topic has subscriptions that all ask for encryption.
use esphome_mpubsub.Base.{◌≡◌, refl, ap, ◌∙◌, sym, arith, true, false, Bool-cases, inl, inr}
use esphome_mpubsub.Base.{List, [], ◌∷◌, ◌++◌, Bytes, All, All-append, ◌=ᵇ◌, =ᵇ→eq}
use esphome_mpubsub.Node.{Subscription, change_subscription, find_subscription}
use esphome_mpubsub.Node.Subscriptions.{Keeps, IsSingle, change-find, change-All}

-- A subscription of the topic asks for encryption.
abbrev pub Asks : Bytes → Subscription → Type 0
Asks topic s = (s.topic =ᵇ topic) ≡ true → s.require_encryption ≡ true

-- The topic has a subscription, and all of it ask for encryption.
abbrev pub IsDemanded : Bytes → List Subscription → Type 0
IsDemanded topic subs = (find_subscription topic subs ≡ true) × All (Asks topic) subs

pub absent-Asks :
    (topic : Bytes) (subs : List Subscription)
    → find_subscription topic subs ≡ false
    → All (Asks topic) subs
unfolding find_subscription
absent-Asks topic [] h = tt
absent-Asks topic (s ∷ subs) h =
    (λ hit. absurd (ground arith), absent-Asks topic subs (ground arith))

pub change-IsDemanded :
    (topic u : Bytes) (f : Subscription → Subscription) (subs : List Subscription)
    → Keeps f
    → IsDemanded topic subs
    → IsDemanded topic (change_subscription u f subs)
change-IsDemanded topic u f subs keeps (there, asks) = (
  change-find u f keeps topic subs ∙ there,
  change-All u f keeps (Asks topic) subs
      (λ s own hit.
        let (same, crc, group, flag) = keeps s in
        flag (own (ap (λ (t : Bytes). t =ᵇ topic) (sym same) ∙ hit)))
      asks,
)

pub find-append_old :
    (topic : Bytes) (subs more : List Subscription)
    → find_subscription topic subs ≡ true
    → find_subscription topic (subs ++ more) ≡ true
unfolding find_subscription
find-append_old topic [] more h = cc
find-append_old topic (s ∷ subs) more h = ground (arith, find-append_old topic subs more)

pub find-append_new :
    (topic : Bytes) (subs : List Subscription) (new : Subscription)
    → (new.topic =ᵇ topic) ≡ true
    → find_subscription topic (subs ++ new ∷ []) ≡ true
unfolding find_subscription
find-append_new topic [] new h = rw h refl
find-append_new topic (s ∷ subs) new h = ground (arith, find-append_new topic subs new h)

pub append-IsDemanded :
    (topic : Bytes) (subs : List Subscription) (new : Subscription)
    → find_subscription new.topic subs ≡ false
    → IsDemanded topic subs
    → IsDemanded topic (subs ++ new ∷ [])
append-IsDemanded topic subs new absent (there, asks) = (
  find-append_old topic subs (new ∷ []) there,
  All-append (Asks topic) subs (new ∷ []) asks (
    λ hit.
        let same = =ᵇ→eq new.topic topic hit in
        let gone = ap (λ (t : Bytes). find_subscription t subs) (sym same) ∙ absent in
        absurd (ground arith),
    tt,
  ),
)

-- The subscription that a subscriber with a demand leaves.
pub changed-IsDemanded :
    (topic : Bytes) (f : Subscription → Subscription) (subs : List Subscription)
    → Keeps f
    → ((s : Subscription) → (f s).require_encryption ≡ true)
    → IsSingle subs
    → find_subscription topic subs ≡ true
    → All (Asks topic) (change_subscription topic f subs)
unfolding change_subscription find_subscription
changed-IsDemanded topic f [] keeps on single there = tt
changed-IsDemanded topic f (s ∷ subs) keeps on (alone, single) there =
    elim (Bool-cases (s.topic =ᵇ topic)) [
      | inl hit ↦
          let same = =ᵇ→eq s.topic topic hit in
          rw (change_subscription, hit)
            (
              λ again. on s,
              absent-Asks topic subs
                  (ap (λ (t : Bytes). find_subscription t subs) (sym same) ∙ alone),
            )
      | inr miss ↦
          rw (change_subscription, miss)
            (
              λ hit. absurd (ground arith),
              changed-IsDemanded topic f subs keeps on single (ground arith),
            )
    ]
