-- ===== src/Bridge/Handling/Sending.antt =====
-- How often handleMQTTMessage sends a packet.
use esphome_mpubsub.Base.{
  ℕ, zero, suc, ◌+◌, ◌-◌, ◌<◌, ◌≡◌, refl, ap, ◌∙◌, sym, arith, ltb, Bool, true, false,
  if◌then◌else◌, Bool-cases, inl, inr,
}
use esphome_mpubsub.Base.{List, [], ◌∷◌, Bytes, replicate, Option, none, some, ok}
use esphome_mpubsub.Base.Maps.{bytes_eq, beq_refl, lookup, lookup-insert}
use esphome_mpubsub.Schema.{Schema}
use esphome_mpubsub.Proto.Value.{Floats}
use esphome_mpubsub.Json.{JsonLib}
use esphome_mpubsub.Config.{MpubsubConfig}
use esphome_mpubsub.Bridge.Retransmission.{
  Count, times, indefinite, effective_retransmit_count, Jobs, cancel_indefinite, start_indefinite,
  publish, Reached, published,
}
use esphome_mpubsub.Bridge.Retransmission.Single.{Reached-IsJobs, cancel_indefinite-IsJobs}
use esphome_mpubsub.Bridge.Handling.{
  Datagram, Handled, count_of, message_packet, retransmits_from, schedule_finite_retransmits,
  later_sends, send_packet, handle_mqtt_message,
}

-- The number of attempts out of `left` that start at attempt `i`: up to the first that fails.
abbrev pub attempts_from : (ℕ → Bool) → ℕ → ℕ → ℕ
attempts_from sends i zero = 0
attempts_from sends i (suc left) =
    let rest = attempts_from sends (i + 1) left in if sends i then suc rest else 1

-- A packet is sent at least once.
abbrev pub at_least_once : ℕ → ℕ
at_least_once n = if ltb 1 n then n else 1

retransmits_from_lem :
    (sends : ℕ → Bool) (d : Datagram) (i left : ℕ)
    → retransmits_from sends d i left ≡ replicate (attempts_from sends i left) d
unfolding retransmits_from
retransmits_from_lem sends d i zero = refl
retransmits_from_lem sends d i (suc left) = elim (Bool-cases (sends i)) [
  | inl fine ↦
      rw (retransmits_from, fine)
        (ap (λ (l : List Datagram). d ∷ l) (retransmits_from_lem sends d (i + 1) left))
  | inr failed ↦ rw (retransmits_from, failed) refl
]

send_packet_attempts :
    (sends : ℕ → Bool) (topic : Bytes) (d : Datagram) (n : ℕ) (st : Jobs)
    → (send_packet sends topic d (times n) st).attempts
      ≡ replicate (attempts_from sends 0 (at_least_once n)) d
unfolding send_packet later_sends schedule_finite_retransmits
send_packet_attempts sends topic d zero st = ground arith
send_packet_attempts sends topic d (suc zero) st = ground arith
send_packet_attempts sends topic d (suc (suc m)) st =
    let less : suc (suc m) - 1 ≡ suc m = omega arith in
    let several : ltb 1 (suc (suc m)) ≡ true = ground arith in
    elim (Bool-cases (sends 0)) [
      | inr failed ↦
          rw (send_packet, failed, several)
            (ap (λ (b : Bool). replicate (if b then suc (attempts_from sends 1 (suc m)) else 1) d)
              (sym failed))
      | inl fine ↦
          rw (send_packet, fine, several, less)
            (ap (λ (l : List Datagram). d ∷ l) (retransmits_from_lem sends d 1 (suc m))
              ∙ ap
                  (λ (b : Bool). replicate (if b then suc (attempts_from sends 1 (suc m)) else 1) d)
                  (sym fine))
    ]

-- The job of a topic that has one: its channel is made and not closed.
abbrev pub HasJob : Bytes → Jobs → Type 0
HasJob topic st =
    (ch : ℕ) × (lookup topic st.jobs ≡ some ch) × (ch < st.made) × (st.closed ch ≡ false)

-- The job of a topic once a packet with a count was handled.
abbrev pub JobFor : Bytes → Bool → Count → Jobs → Type 0
JobFor topic true indefinite st = HasJob topic st
JobFor topic sent count st = lookup topic st.jobs ≡ none

publish-JobFor :
    (topic : Bytes) (sent : Bool) (count : Count) (st : Jobs)
    → Reached st
    → JobFor topic sent count (publish topic sent count st)
unfolding publish start_indefinite
publish-JobFor topic false count st r = (cancel_indefinite-IsJobs topic st (Reached-IsJobs st r)).1
publish-JobFor topic true (times n) st r =
    (cancel_indefinite-IsJobs topic st (Reached-IsJobs st r)).1
publish-JobFor topic true indefinite st r =
    let after =
      Reached-IsJobs (publish topic true indefinite st) (published topic true indefinite st r) in
    let st' = cancel_indefinite topic st in
    let found = lookup-insert st'.jobs topic topic st'.made ∙ rw (beq_refl topic) refl in
    let (made, opened) = after.listed_open topic st'.made found in (st'.made, found, made, opened)

-- What becomes of a packet with a count.
abbrev pub IsCarried : (ℕ → Bool) → Bytes → Datagram → Count → Handled → Type 0
IsCarried sends topic d (times n) out =
    (out.attempts ≡ replicate (attempts_from sends 0 (at_least_once n)) d)
    × (lookup topic out.jobs.jobs ≡ none)
IsCarried sends topic d indefinite out =
    (out.attempts ≡ d ∷ []) × JobFor topic (sends 0) indefinite out.jobs

send_packet-IsCarried :
    (sends : ℕ → Bool) (topic : Bytes) (d : Datagram) (count : Count) (st : Jobs)
    → Reached st
    → IsCarried sends topic d count (send_packet sends topic d count st)
unfolding send_packet later_sends
send_packet-IsCarried sends topic d (times n) st r = (
  send_packet_attempts sends topic d n st,
  elim (Bool-cases (sends 0)) [
    | inl fine ↦ rw (send_packet, fine) (publish-JobFor topic true (times n) st r)
    | inr failed ↦ rw (send_packet, failed) (publish-JobFor topic false (times n) st r)
  ],
)
send_packet-IsCarried sends topic d indefinite st r = elim (Bool-cases (sends 0)) [
  | inl fine ↦ rw (send_packet, fine) (refl, publish-JobFor topic true indefinite st r)
  | inr failed ↦ rw (send_packet, failed) (refl, publish-JobFor topic false indefinite st r)
]

-- In any state that publishes lead to, a message whose packet is encoded is carried on: with a finite
-- count its datagram is sent that often, and at least once, up to the first send that fails, and
-- its topic has no job; with the indefinite count it is sent once here, and its topic has a job
-- whose channel is open, or none where that send fails.
pub handle_mqtt_message-IsCarried :
    (lib : JsonLib) (fl : Floats) (cfg : MpubsubConfig) (sends : ℕ → Bool)
    (topic group payload pkt : Bytes) (qos : ℕ) (schema : Option Schema) (st : Jobs)
    → Reached st
    → message_packet lib fl cfg.encryption_key topic schema payload ≡ ok pkt
    → IsCarried sends topic
        (group, pkt)
        (effective_retransmit_count cfg.promote_qos (count_of cfg.retransmit_count) qos)
        (handle_mqtt_message lib fl cfg sends topic group payload qos schema st)
unfolding handle_mqtt_message
handle_mqtt_message-IsCarried lib fl cfg sends topic group payload pkt qos schema st r made =
    rw (handle_mqtt_message, made)
      (send_packet-IsCarried sends topic (group, pkt)
        (effective_retransmit_count cfg.promote_qos (count_of cfg.retransmit_count) qos) st r)
