-- ===== src/Node/Timers.antt =====
-- cancel_indefinite_retransmit_ and schedule_retransmits_ of components/mpubsub/multicast_pubsub.cpp,
-- with the calls of ESPHome's scheduler that they make.
use esphome_mpubsub.Base.{ℕ, zero, suc, ℤ, pos, negsuc, ◌+◌, ◌-◌, ◌*◌, ◌%◌, ◌^◌}
use esphome_mpubsub.Base.{
  Bool, true, false, if◌then◌else◌, List, [], ◌∷◌, ◌++◌, Bytes, none, some, map, Option,
}
use esphome_mpubsub.Base.Maps.{bytes_eq, lookup, insert, remove}
use esphome_mpubsub.Node.Topic.{topic_crc32}
use esphome_mpubsub.Node.{Node, Outgoing}

-- A timeout without a name or with one, its delay and the datagram that it sends.
pub data TimerCall : Type 0 where
  set_timeout : ℕ → Outgoing → TimerCall
  set_named_timeout : ℕ → ℕ → Outgoing → TimerCall
  cancel_timeout : ℕ → TimerCall

unfoldable pub cancel_indefinite_retransmit : Bytes → Node → Node × List TimerCall
cancel_indefinite_retransmit topic node = elim (lookup topic node.indefinite_jobs) [
  | none ↦ (node, [])
  | some job ↦ (
    record node { indefinite_jobs = remove topic node.indefinite_jobs },
    cancel_timeout (topic_crc32 topic) ∷ [],
  )
]

-- The timeouts of the attempts from `i` on, with `left` of them. The product is one of uint32.
unfoldable pub timeouts_from : ℕ → Outgoing → ℕ → ℕ → List TimerCall
timeouts_from delay d i zero = []
timeouts_from delay d i (suc left) =
    set_timeout (delay * i % 2 ^ 32) d ∷ timeouts_from delay d (i + 1) left

-- The loop of the finite counts. A count below -1 makes no round of it.
unfoldable pub finite_timeouts : ℤ → ℕ → Outgoing → List TimerCall
finite_timeouts (pos n) delay d = timeouts_from delay d 1 (n - 1)
finite_timeouts (negsuc n) delay d = []

abbrev pub is_indefinite : ℤ → Bool
is_indefinite (negsuc zero) = true
is_indefinite _ = false

unfoldable pub schedule_retransmits : Bytes → Outgoing → Node → Node × List TimerCall
schedule_retransmits topic d node =
    let (cancelled, calls) = cancel_indefinite_retransmit topic node in
    if is_indefinite node.retransmit_count
    then (
      record cancelled { indefinite_jobs = insert topic d cancelled.indefinite_jobs },
      calls ++ set_named_timeout (topic_crc32 topic) node.retransmit_delay_ms d ∷ [],
    )
    else (cancelled, calls ++ finite_timeouts node.retransmit_count node.retransmit_delay_ms d)

-- The function of an indefinite timeout, behind its send.
unfoldable pub chain : ℕ → Bytes → Node → List TimerCall
chain delay topic node = elim (lookup topic node.indefinite_jobs) [
  | none ↦ []
  | some job ↦ set_named_timeout (topic_crc32 topic) delay job ∷ []
]

-- The number of sends that a finite count asks for behind the first one.
abbrev pub later_count : ℤ → ℕ
later_count (pos n) = n - 1
later_count (negsuc n) = 0

-- The numbers of the attempts from `i` on.
abbrev pub attempts : ℕ → ℕ → List ℕ
attempts i zero = []
attempts i (suc left) = i ∷ attempts (i + 1) left

-- The timeouts that a count asks for: at -1 the one with the name of the topic, else one for each
-- attempt from 1 to the count, the attempt's number times the delay from now.
abbrev pub later_calls : ℤ → ℕ → Bytes → Outgoing → List TimerCall
later_calls count delay topic d =
    if is_indefinite count
    then set_named_timeout (topic_crc32 topic) delay d ∷ []
    else map (λ (i : ℕ). set_timeout (delay * i % 2 ^ 32) d) (attempts 1 (later_count count))

-- The timeout of the topic's job, where it has one, is cancelled first.
abbrev pub cancels : ℕ → Option Outgoing → List TimerCall
cancels crc none = []
cancels crc (some _) = cancel_timeout crc ∷ []

abbrev pub superseded_calls : Bytes → Node → List TimerCall
superseded_calls topic node = cancels (topic_crc32 topic) (lookup topic node.indefinite_jobs)
