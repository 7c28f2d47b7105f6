-- ===== src/Bridge/Retransmission/Single.antt =====
-- The channels of the indefinite jobs against the map that holds them.
use esphome_mpubsub.Base.{
  ℕ, ◌+◌, ◌≤◌, ◌<◌, ◌≡◌, ◌≢◌, refl, ap, ◌∙◌, arith, Bool, true, false, ◌||◌, ◌==◌, Bool-cases,
  Option-cases, inl, inr, ◌⊎◌,
}
use esphome_mpubsub.Base.{List, [], ◌∷◌, Bytes, ◌=ᵇ◌, =ᵇ_iff, none, some}
use esphome_mpubsub.Base.Maps.{bytes_eq, lookup, remove, lookup-insert, lookup-remove, beq_refl}
use esphome_mpubsub.Bridge.Retransmission.{
  Count, times, indefinite, Jobs, cancel_indefinite, start_indefinite, publish, close_entries,
  shutdown, start, Reached, started, published,
}

-- The channels that are made and not closed are those of the map, one for each topic at most.
pub record IsJobs (st : Jobs) : Type 0 where
  pub listed_open :
      (t : Bytes) (c : ℕ) → lookup t st.jobs ≡ some c → (c < st.made) × (st.closed c ≡ false)
  pub one_topic :
      (t u : Bytes) (c : ℕ) → lookup t st.jobs ≡ some c → lookup u st.jobs ≡ some c → t ≡ u
  pub open_listed :
      (c : ℕ) → c < st.made → st.closed c ≡ false → (t : Bytes) × (lookup t st.jobs ≡ some c)
  pub unmade : (c : ℕ) → st.made ≤ c → st.closed c ≡ false

split_lt : (c n : ℕ) → c < n + 1 → (c < n) ⊎ (c ≡ n)
split_lt c n h = ground arith

pub start_indefinite-IsJobs :
    (topic : Bytes) (st : Jobs)
    → IsJobs st
    → lookup topic st.jobs ≡ none
    → IsJobs (start_indefinite topic st)
unfolding start_indefinite
start_indefinite-IsJobs topic st h free =
    let now = λ (t : Bytes). lookup-insert st.jobs topic t st.made in
    record {
      listed_open = λ t c e. ground (arith, now t, h.listed_open t c, h.unmade st.made);
      one_topic = λ t u c e e'. ground (
        arith,
        now t,
        now u,
        h.one_topic t u c,
        h.listed_open t c,
        h.listed_open u c,
        =ᵇ_iff topic t,
        =ᵇ_iff topic u,
      );
      open_listed = λ c lt o. elim (split_lt c st.made lt) [
        | inl old ↦
            let (t, e) = h.open_listed c old o in
            (t, ground (arith, now t, =ᵇ_iff topic t, ap (λ (n : Bytes). lookup n st.jobs)))
        | inr new ↦ (topic, ground (arith, now topic, beq_refl topic))
      ];
      unmade = λ c le. h.unmade c (omega arith);
    }

-- The jobs once the channel of a topic is closed and taken out.
without : Bytes → ℕ → Jobs → Jobs
without topic ch st = record {
  jobs = remove topic st.jobs;
  made = st.made;
  closed = λ (c : ℕ). (c == ch) || st.closed c;
}

without-IsJobs :
    (topic : Bytes) (ch : ℕ) (st : Jobs)
    → IsJobs st
    → lookup topic st.jobs ≡ some ch
    → IsJobs (without topic ch st)
unfolding without
without-IsJobs topic ch st h here =
    let now = λ (t : Bytes). lookup-remove st.jobs topic t in
    record {
      listed_open =
          λ t c e. ground (arith, now t, h.listed_open t c, h.one_topic topic t ch, =ᵇ_iff topic t);
      one_topic = λ t u c e e'. ground (arith, now t, now u, h.one_topic t u c);
      open_listed = λ c lt o.
          let (t, e) = h.open_listed c lt (ground arith) in
          (t, ground (arith, now t, =ᵇ_iff topic t, ap (λ (n : Bytes). lookup n st.jobs)));
      unmade = λ c le. ground (arith, h.unmade c le, h.listed_open topic ch here);
    }

pub cancel_indefinite-IsJobs :
    (topic : Bytes) (st : Jobs)
    → IsJobs st
    → IsJobs (cancel_indefinite topic st) × (lookup topic (cancel_indefinite topic st).jobs ≡ none)
unfolding cancel_indefinite without
cancel_indefinite-IsJobs topic st h = elim (Option-cases (lookup topic st.jobs)) [
  | inl e ↦ rw (cancel_indefinite, e) (h, e)
  | inr (ch, e) ↦
      rw (cancel_indefinite, e)
        (
          without-IsJobs topic ch st h e,
          lookup-remove st.jobs topic topic ∙ rw (beq_refl topic) refl,
        )
]

publish-IsJobs :
    (topic : Bytes) (sent : Bool) (count : Count) (st : Jobs)
    → IsJobs st
    → IsJobs (publish topic sent count st)
unfolding publish
publish-IsJobs topic false count st h = (cancel_indefinite-IsJobs topic st h).0
publish-IsJobs topic true (times n) st h = (cancel_indefinite-IsJobs topic st h).0
publish-IsJobs topic true indefinite st h =
    let (kept, free) = cancel_indefinite-IsJobs topic st h in
    start_indefinite-IsJobs topic (cancel_indefinite topic st) kept free

pub start-IsJobs : IsJobs start
unfolding lookup
start-IsJobs = record {
  listed_open = λ t c e. cc;
  one_topic = λ t u c e e'. cc;
  open_listed = λ c lt o. absurd (omega arith);
  unmade = λ c le. refl;
}

-- In every state that publishes lead to, one after another, the channels that are made and not
-- closed are those of the map, and each is the channel of one topic.
pub Reached-IsJobs : (st : Jobs) → Reached st → IsJobs st
Reached-IsJobs _ started = start-IsJobs
Reached-IsJobs _ (published topic sent count st r) =
    publish-IsJobs topic sent count st (Reached-IsJobs st r)

pub close_entries_keep :
    (es : List (Bytes × ℕ)) (st : Jobs) (c : ℕ)
    → st.closed c ≡ true
    → (close_entries es st).closed c ≡ true
unfolding close_entries without
close_entries_keep [] st c h = h
close_entries_keep ((t, ch) ∷ es) st c h = close_entries_keep es (without t ch st) c (ground arith)

pub close_entries_listed :
    (es : List (Bytes × ℕ)) (st : Jobs) (t : Bytes) (c : ℕ)
    → lookup t es ≡ some c
    → (close_entries es st).closed c ≡ true
unfolding close_entries lookup without
close_entries_listed [] st t c h = cc
close_entries_listed ((u, ch) ∷ es) st t c h = elim (Bool-cases (u =ᵇ t)) [
  | inl hit ↦ close_entries_keep es (without u ch st) c (ground arith)
  | inr miss ↦ close_entries_listed es (without u ch st) t c (ground arith)
]

-- Once Run has shut down, in any state that publishes lead to, every channel that was made is
-- closed, so that no job goes on.
pub shutdown-closed : (st : Jobs) (c : ℕ) → Reached st → c < st.made → (shutdown st).closed c ≡ true
unfolding shutdown
shutdown-closed st c r lt = elim (Bool-cases (st.closed c)) [
  | inl done ↦ close_entries_keep st.jobs st c done
  | inr running ↦
      let (t, e) = (Reached-IsJobs st r).open_listed c lt running in
      close_entries_listed st.jobs st t c e
]

-- The channel of the topic is closed and no other one.
cancel_supersedes :
    (topic other : Bytes) (st : Jobs) (ch : ℕ)
    → lookup topic st.jobs ≡ some ch
    → other ≢ topic
    → ((cancel_indefinite topic st).closed ch ≡ true)
      × ((c : ℕ) → c ≢ ch → (cancel_indefinite topic st).closed c ≡ st.closed c)
      × (lookup other (cancel_indefinite topic st).jobs ≡ lookup other st.jobs)
unfolding cancel_indefinite
cancel_supersedes topic other st ch e ne =
    rw (cancel_indefinite, e)
      (
        ground arith,
        λ c apart. ground arith,
        ground (arith, lookup-remove st.jobs topic other, =ᵇ_iff topic other),
      )

-- A publish for a topic that has a job, of any count, closes its channel, also where the send
-- fails. Every other channel stays open or closed as it was, and the map has the jobs of the other
-- topics as it had them.
pub publish_supersedes :
    (topic other : Bytes) (sent : Bool) (count : Count) (st : Jobs) (ch : ℕ)
    → lookup topic st.jobs ≡ some ch
    → other ≢ topic
    → ((publish topic sent count st).closed ch ≡ true)
      × ((c : ℕ) → c ≢ ch → (publish topic sent count st).closed c ≡ st.closed c)
      × (lookup other (publish topic sent count st).jobs ≡ lookup other st.jobs)
unfolding publish start_indefinite
publish_supersedes topic other false count st ch e ne = cancel_supersedes topic other st ch e ne
publish_supersedes topic other true (times n) st ch e ne = cancel_supersedes topic other st ch e ne
publish_supersedes topic other true indefinite st ch e ne =
    let (done, apart, same) = cancel_supersedes topic other st ch e ne in
    let st' = cancel_indefinite topic st in
    (
      done,
      apart,
      ground (arith, lookup-insert st'.jobs topic other st'.made, same, =ᵇ_iff topic other),
    )
