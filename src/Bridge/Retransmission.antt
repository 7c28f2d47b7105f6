-- ===== src/Bridge/Retransmission.antt =====
-- The publish path of bridges/mqtt-go/bridge.go: effectiveRetransmitCount, and the jobs that send a
-- datagram again until they are cancelled. A channel is the number of those made before it.
pub mod Single
pub mod Closing
use esphome_mpubsub.Base.{
  ℕ, suc, ◌+◌, ◌≤◌, ◌<◌, ◌≡◌, ◌≢◌, refl, ap, ◌∙◌, sym, arith, Bool, true, false, not, ◌||◌, ◌&&◌,
  ◌==◌, ltb, leb, if◌then◌else◌, Bool-cases, Option-cases, inl, inr, ◌⊎◌,
}
use esphome_mpubsub.Base.{List, [], ◌∷◌, Bytes, ◌=ᵇ◌, =ᵇ_iff, Option, none, some}
use esphome_mpubsub.Base.Maps.{
  bytes_eq, lookup, insert, remove, lookup-insert, lookup-remove, beq_refl,
}

-- A retransmit_count: `indefinite` is the -1 of the program.
pub data Count : Type 0 where
  times : ℕ → Count
  indefinite : Count

unfoldable pub promoted : ℕ → Count → Count
promoted qos base =
    if qos == 0
    then base
    else if qos == 1
    then elim base [ indefinite ↦ indefinite | times n ↦ if ltb n 3 then times 3 else times n ]
    else indefinite

unfoldable pub effective_retransmit_count : Bool → Count → ℕ → Count
effective_retransmit_count promote base qos = if not promote then base else promoted qos base

-- The map of cancel channels, how many channels were made, and which of them are closed.
pub record Jobs : Type 0 where
  pub jobs : List (Bytes × ℕ)
  pub made : ℕ
  pub closed : ℕ → Bool

unfoldable pub cancel_indefinite : Bytes → Jobs → Jobs
cancel_indefinite topic st = elim (lookup topic st.jobs) [
  | none ↦ st
  | some ch ↦ record {
    jobs = remove topic st.jobs;
    made = st.made;
    closed = λ (c : ℕ). (c == ch) || st.closed c;
  }
]

unfoldable pub start_indefinite : Bytes → Jobs → Jobs
start_indefinite topic st = record {
  jobs = insert topic st.made st.jobs;
  made = st.made + 1;
  closed = st.closed;
}

-- What handleMQTTMessage does with the jobs once the packet is encoded; `sent` is whether the first
-- send succeeds.
unfoldable pub publish : Bytes → Bool → Count → Jobs → Jobs
publish topic sent count st =
    let st' = cancel_indefinite topic st in
    if not sent then st' else elim count [ indefinite ↦ start_indefinite topic st' | times n ↦ st' ]

-- The loop of Run over the map as it shuts down.
unfoldable pub close_entries : List (Bytes × ℕ) → Jobs → Jobs
close_entries [] st = st
close_entries ((topic, ch) ∷ rest) st = close_entries rest (record {
  jobs = remove topic st.jobs;
  made = st.made;
  closed = λ (c : ℕ). (c == ch) || st.closed c;
})

unfoldable pub shutdown : Jobs → Jobs
shutdown st = close_entries st.jobs st

abbrev pub start : Jobs
start = record { jobs = []; made = 0; closed = λ (c : ℕ). false }

-- The states that a sequence of publishes leads to.
pub data Reached : Jobs → Type 0 where
  started : Reached start
  published :
      (topic : Bytes) (sent : Bool) (count : Count) (st : Jobs)
      → Reached st
      → Reached (publish topic sent count st)

-- The greater of two counts, and the least count for a quality of service.
abbrev pub max_count : Count → Count → Count
max_count (times n) (times m) = if ltb n m then times m else times n
max_count _ _ = indefinite

abbrev pub least_count : ℕ → Count
least_count qos = if qos == 0 then times 0 else if qos == 1 then times 3 else indefinite

-- With promote_qos the count is the greater of the configured one and 3 at QoS 1, and indefinite
-- at QoS 2 and above; at QoS 0 and without promote_qos it is the configured one.
pub effective_retransmit_count_lem :
    (promote : Bool) (base : Count) (qos : ℕ)
    → effective_retransmit_count promote base qos
      ≡ (if promote then max_count base (least_count qos) else base)
unfolding effective_retransmit_count promoted
effective_retransmit_count_lem promote (times n) qos = ground arith
effective_retransmit_count_lem promote indefinite qos = ground arith
