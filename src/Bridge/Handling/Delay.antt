-- ===== src/Bridge/Handling/Delay.antt =====
-- The delay between the sends of an indefinite job.
use esphome_mpubsub.Base.{ℕ, ℤ, pos, negsuc, ◌≤◌, ◌≡◌, arith, Bool, true, ◌⊎◌, inr, ok}
use esphome_mpubsub.Config.{Config}
use esphome_mpubsub.Config.Validation.{validate}
use esphome_mpubsub.Config.Validation.Exact.{IsCount, validate_iff}
use esphome_mpubsub.Bridge.Retransmission.{indefinite, promoted, effective_retransmit_count}
use esphome_mpubsub.Bridge.Handling.{count_of}

count_delay :
    (promote : Bool) (n : ℤ) (delay qos : ℕ)
    → IsCount n delay
    → effective_retransmit_count promote (count_of n) qos ≡ indefinite
    → ((promote ≡ true) × (2 ≤ qos)) ⊎ (1000000000 ≤ delay)
unfolding effective_retransmit_count promoted count_of
count_delay promote (pos n) delay qos h e = ground arith
count_delay promote (negsuc n) delay qos h e = inr h.1

-- In a configuration that validate accepts, a message gets the indefinite count only with
-- promote_qos and QoS 2 or above, or with a retransmit_delay of at least one second.
pub validate_delay :
    (c : Config) (qos : ℕ)
    → validate c ≡ ok tt
    → effective_retransmit_count c.mpubsub.promote_qos (count_of c.mpubsub.retransmit_count) qos
      ≡ indefinite
    → ((c.mpubsub.promote_qos ≡ true) × (2 ≤ qos)) ⊎ (1000000000 ≤ c.mpubsub.retransmit_delay)
validate_delay c qos valid e =
    let (broker, mpubsub, bridges, entries) = (validate_iff c).0 valid in
    let (scope, hops, count) = mpubsub in
    count_delay c.mpubsub.promote_qos c.mpubsub.retransmit_count c.mpubsub.retransmit_delay qos
      count e
