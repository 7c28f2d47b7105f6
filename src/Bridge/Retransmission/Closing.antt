-- ===== src/Bridge/Retransmission/Closing.antt =====
-- The map of the indefinite jobs once Run has closed its channels.
use esphome_mpubsub.Base.{
  ℕ, ◌+◌, ◌≤◌, ◌<◌, ◌≡◌, refl, ◌∙◌, arith, true, false, ◌||◌, ◌==◌, Bool-cases, Option-cases, inl,
  inr,
}
use esphome_mpubsub.Base.{List, [], ◌∷◌, Bytes, All, ◌=ᵇ◌, none, some}
use esphome_mpubsub.Base.Maps.{bytes_eq, lookup, insert, remove, lookup-remove}
use esphome_mpubsub.Bridge.Retransmission.{
  Jobs, cancel_indefinite, start_indefinite, close_entries, shutdown,
}
use esphome_mpubsub.Bridge.Retransmission.Single.{IsJobs, close_entries_keep, close_entries_listed}

-- The channels of a map are numbers below another.
abbrev pub IsBelow : ℕ → List (Bytes × ℕ) → Type 0
IsBelow n es = All (λ e. e.1 < n) es

IsBelow-later : (n : ℕ) (es : List (Bytes × ℕ)) → IsBelow n es → IsBelow (n + 1) es
IsBelow-later n [] h = tt
IsBelow-later n ((t, c) ∷ es) (h, hs) = (omega arith, IsBelow-later n es hs)

insert-IsBelow :
    (n c : ℕ) (t : Bytes) (es : List (Bytes × ℕ)) → c < n → IsBelow n es → IsBelow n (insert t c es)
unfolding insert
insert-IsBelow n c t [] lt h = (lt, tt)
insert-IsBelow n c t ((u, k) ∷ es) lt (h, hs) = elim (Bool-cases (u =ᵇ t)) [
  | inl hit ↦ rw (insert, hit) (lt, hs)
  | inr miss ↦ rw (insert, miss) (h, insert-IsBelow n c t es lt hs)
]

remove-IsBelow :
    (n : ℕ) (t : Bytes) (es : List (Bytes × ℕ)) → IsBelow n es → IsBelow n (remove t es)
unfolding remove
remove-IsBelow n t [] h = tt
remove-IsBelow n t ((u, k) ∷ es) (h, hs) = elim (Bool-cases (u =ᵇ t)) [
  | inl hit ↦ rw (remove, hit) (remove-IsBelow n t es hs)
  | inr miss ↦ rw (remove, miss) (h, remove-IsBelow n t es hs)
]

pub cancel_indefinite_made : (t : Bytes) (st : Jobs) → (cancel_indefinite t st).made ≡ st.made
unfolding cancel_indefinite
cancel_indefinite_made t st = elim (Option-cases (lookup t st.jobs)) [
  | inl e ↦ rw (cancel_indefinite, e) refl
  | inr (ch, e) ↦ rw (cancel_indefinite, e) refl
]

-- A channel that is closed stays so.
pub cancel_indefinite_keep :
    (t : Bytes) (st : Jobs) (c : ℕ) → st.closed c ≡ true → (cancel_indefinite t st).closed c ≡ true
unfolding cancel_indefinite
cancel_indefinite_keep t st c h = elim (Option-cases (lookup t st.jobs)) [
  | inl e ↦ rw (cancel_indefinite, e) h
  | inr (ch, e) ↦ rw (cancel_indefinite, e) (ground arith)
]

pub cancel_indefinite-IsBelow :
    (t : Bytes) (st : Jobs)
    → IsBelow st.made st.jobs
    → IsBelow (cancel_indefinite t st).made (cancel_indefinite t st).jobs
unfolding cancel_indefinite
cancel_indefinite-IsBelow t st h = elim (Option-cases (lookup t st.jobs)) [
  | inl e ↦ rw (cancel_indefinite, e) h
  | inr (ch, e) ↦ rw (cancel_indefinite, e) (remove-IsBelow st.made t st.jobs h)
]

pub start_indefinite-IsBelow :
    (t : Bytes) (st : Jobs)
    → IsBelow st.made st.jobs
    → IsBelow (start_indefinite t st).made (start_indefinite t st).jobs
unfolding start_indefinite
start_indefinite-IsBelow t st h =
    insert-IsBelow (st.made + 1) st.made t st.jobs (omega arith) (IsBelow-later st.made st.jobs h)

-- The jobs once one entry is closed and taken out.
abbrev closed_entry : Bytes → ℕ → Jobs → Jobs
closed_entry t ch st = record {
  jobs = remove t st.jobs;
  made = st.made;
  closed = λ (c : ℕ). (c == ch) || st.closed c;
}

close_entries_made : (es : List (Bytes × ℕ)) (st : Jobs) → (close_entries es st).made ≡ st.made
unfolding close_entries
close_entries_made [] st = refl
close_entries_made ((t, ch) ∷ es) st = close_entries_made es (closed_entry t ch st)

close_entries_absent :
    (es : List (Bytes × ℕ)) (st : Jobs) (u : Bytes)
    → lookup u st.jobs ≡ none
    → lookup u (close_entries es st).jobs ≡ none
unfolding close_entries
close_entries_absent [] st u h = h
close_entries_absent ((t, ch) ∷ es) st u h =
    close_entries_absent es (closed_entry t ch st) u (ground (arith, lookup-remove st.jobs t u))

close_entries_taken :
    (es : List (Bytes × ℕ)) (st : Jobs) (u : Bytes) (c : ℕ)
    → lookup u es ≡ some c
    → lookup u (close_entries es st).jobs ≡ none
unfolding close_entries lookup
close_entries_taken [] st u c h = cc
close_entries_taken ((t, ch) ∷ es) st u c h = elim (Bool-cases (t =ᵇ u)) [
  | inl hit ↦
      close_entries_absent es (closed_entry t ch st) u (lookup-remove st.jobs t u ∙ rw hit refl)
  | inr miss ↦ close_entries_taken es (closed_entry t ch st) u c (ground arith)
]

close_entries_unmade :
    (es : List (Bytes × ℕ)) (st : Jobs) (n c : ℕ)
    → IsBelow n es
    → n ≤ c
    → st.closed c ≡ false
    → (close_entries es st).closed c ≡ false
unfolding close_entries
close_entries_unmade [] st n c b le h = h
close_entries_unmade ((t, ch) ∷ es) st n c (lt, b) le h =
    close_entries_unmade es (closed_entry t ch st) n c b le (ground arith)

pub shutdown_empty : (st : Jobs) (u : Bytes) → lookup u (shutdown st).jobs ≡ none
unfolding shutdown
shutdown_empty st u = elim (Option-cases (lookup u st.jobs)) [
  | inl gone ↦ close_entries_absent st.jobs st u gone
  | inr (c, there) ↦ close_entries_taken st.jobs st u c there
]

pub shutdown_made : (st : Jobs) → (shutdown st).made ≡ st.made
unfolding shutdown
shutdown_made st = close_entries_made st.jobs st

pub shutdown_keep : (st : Jobs) (c : ℕ) → st.closed c ≡ true → (shutdown st).closed c ≡ true
unfolding shutdown
shutdown_keep st c h = close_entries_keep st.jobs st c h

-- Every channel that was made is closed.
pub shutdown_all : (st : Jobs) (c : ℕ) → IsJobs st → c < st.made → (shutdown st).closed c ≡ true
unfolding shutdown
shutdown_all st c h lt = elim (Bool-cases (st.closed c)) [
  | inl closed ↦ close_entries_keep st.jobs st c closed
  | inr running ↦ let (t, e) = h.open_listed c lt running in close_entries_listed st.jobs st t c e
]

close_entries-IsBelow :
    (es : List (Bytes × ℕ)) (st : Jobs) (n : ℕ)
    → IsBelow n st.jobs
    → IsBelow n (close_entries es st).jobs
unfolding close_entries
close_entries-IsBelow [] st n h = h
close_entries-IsBelow ((t, ch) ∷ es) st n h =
    close_entries-IsBelow es (closed_entry t ch st) n (remove-IsBelow n t st.jobs h)

pub shutdown-IsBelow :
    (st : Jobs) → IsBelow st.made st.jobs → IsBelow (shutdown st).made (shutdown st).jobs
unfolding shutdown
shutdown-IsBelow st h =
    rw (close_entries_made st.jobs st) (close_entries-IsBelow st.jobs st st.made h)

pub shutdown-IsJobs : (st : Jobs) → IsJobs st → IsBelow st.made st.jobs → IsJobs (shutdown st)
shutdown-IsJobs st h b = record {
  listed_open = λ t c e. ground (arith, shutdown_empty st t);
  one_topic = λ t u c e e'. ground (arith, shutdown_empty st t);
  open_listed = λ c lt o. absurd (ground (arith, shutdown_made st, shutdown_all st c h));
  unmade = λ c le.
      unfold shutdown in
      close_entries_unmade st.jobs st st.made c b (omega (arith, shutdown_made st))
        (h.unmade c (omega (arith, shutdown_made st)));
}
