-- ===== src/Socket/Joining.antt =====
-- The groups that a socket has joined.
use mathlib.Core.Path.{subst}
use mathlib.Core.List.{Mem, mem-cons_self, mem-cons_of_mem}
use esphome_mpubsub.Base.{
  ◌≡◌, ◌≢◌, refl, ap, ◌∙◌, arith, true, ◌⊎◌, Bool-cases, Option-cases, inl, inr,
}
use esphome_mpubsub.Base.{List, [], ◌∷◌, Bytes, All, ◌=ᵇ◌, =ᵇ_iff, none, some, ok}
use esphome_mpubsub.Base.Maps.{bytes_eq, beq_refl, lookup, insert, lookup-insert}
use esphome_mpubsub.Socket.{Kernel, MulticastSocket, join}

module _ (k : Kernel) where
  abbrev pub IsNewGroup : Bytes → List Bytes → Type 0
  IsNewGroup g cs = All (λ c. k.text c ≢ k.text g) cs

  abbrev pub IsOnce : List Bytes → Type 0
  IsOnce [] = Unit {0}
  IsOnce (g ∷ cs) = IsNewGroup g cs × IsOnce cs

  abbrev pub IsListed : MulticastSocket → Bytes → Type 0
  IsListed m g = lookup (k.text g) m.joined ≡ some g

  -- JoinGroup was called for a group and succeeded.
  abbrev pub WasJoined : MulticastSocket → Bytes → Type 0
  WasJoined m g = Mem g m.calls × (k.joins m.iface g ≡ true)

  -- The groups that JoinGroup joined are in the table, and no two of them are written alike. The
  -- table has no other groups, and each under its own text.
  pub record IsSocket (m : MulticastSocket) : Type 0 where
    pub listed : All (IsListed m) m.calls
    pub once : IsOnce m.calls
    pub called : (t g : Bytes) → lookup t m.joined ≡ some g → WasJoined m g × (k.text g ≡ t)

  -- JoinGroup was called, and succeeded, for this group or one that is written alike.
  abbrev pub HasGroup : MulticastSocket → Bytes → Type 0
  HasGroup m group = (g : Bytes) × WasJoined m g × (k.text g ≡ k.text group)

  new_group :
      (m : MulticastSocket) (g : Bytes) (cs : List Bytes)
      → lookup (k.text g) m.joined ≡ none
      → All (IsListed m) cs
      → IsNewGroup g cs
  new_group m g [] e h = tt
  new_group m g (c ∷ cs) e (h, hs) =
      (λ same. ground (arith, ap (λ (x : Bytes). lookup x m.joined) same), new_group m g cs e hs)

  -- The socket once a group was joined that is not in the table.
  abbrev joined_now : Bytes → MulticastSocket → MulticastSocket
  joined_now group m = record {
    iface = m.iface;
    port = m.port;
    joined = insert (k.text group) group m.joined;
    calls = group ∷ m.calls;
  }

  still-IsListed :
      (m : MulticastSocket) (g : Bytes) (cs : List Bytes)
      → IsNewGroup g cs
      → All (IsListed m) cs
      → All (IsListed (joined_now g m)) cs
  still-IsListed m g [] new h = tt
  still-IsListed m g (c ∷ cs) (new, news) (h, hs) = (
    ground (arith, lookup-insert m.joined (k.text g) (k.text c) g, =ᵇ_iff (k.text g) (k.text c)),
    still-IsListed m g cs news hs,
  )

  IsListed-now : (m : MulticastSocket) (g : Bytes) → IsListed (joined_now g m) g
  IsListed-now m g = lookup-insert m.joined (k.text g) (k.text g) g ∙ rw (beq_refl (k.text g)) refl

  called-now :
      (m : MulticastSocket) (group : Bytes)
      → IsSocket m
      → k.joins m.iface group ≡ true
      → (t g : Bytes) → lookup t (joined_now group m).joined ≡ some g
      → WasJoined (joined_now group m) g × (k.text g ≡ t)
  called-now m group h done t g there =
      let after = lookup-insert m.joined (k.text group) t group in
      elim (Bool-cases (k.text group =ᵇ t)) [
        | inl hit ↦
            let same : group ≡ g = ground arith in
            subst (λ (x : Bytes). WasJoined (joined_now group m) x × (k.text x ≡ t)) same
              ((mem-cons_self {l = m.calls}, done), (=ᵇ_iff (k.text group) t).0 hit)
        | inr miss ↦
            let (was, written) = h.called t g (ground arith) in
            ((mem-cons_of_mem group was.0, was.1), written)
      ]

  join_cases :
      (m m' : MulticastSocket) (group : Bytes)
      → join k group m ≡ ok m'
      → ((m ≡ m') × ((g : Bytes) × (lookup (k.text group) m.joined ≡ some g)))
        ⊎ ((joined_now group m ≡ m')
            × (lookup (k.text group) m.joined ≡ none)
            × (k.joins m.iface group ≡ true))
  unfolding join
  join_cases m m' group e = elim (Option-cases (lookup (k.text group) m.joined)) [
    | inr (g, there) ↦ inl (ground arith, (g, there))
    | inl free ↦ elim (Bool-cases (k.joins m.iface group)) [
      | inl done ↦ inr (ground arith, free, done)
      | inr refused ↦ absurd (ground arith)
    ]
  ]

  pub join-IsSocket :
      (m m' : MulticastSocket) (group : Bytes) → IsSocket m → join k group m ≡ ok m' → IsSocket m'
  join-IsSocket m m' group h e = elim (join_cases m m' group e) [
    | inl (same, there) ↦ subst IsSocket same h
    | inr (same, free, done) ↦
        let new = new_group m group m.calls free h.listed in
        subst IsSocket same (record {
          listed = (IsListed-now m group, still-IsListed m group m.calls new h.listed);
          once = (new, h.once);
          called = called-now m group h done;
        })
  ]

  pub join-HasGroup :
      (m m' : MulticastSocket) (group : Bytes)
      → IsSocket m
      → join k group m ≡ ok m'
      → HasGroup m' group
  join-HasGroup m m' group h e = elim (join_cases m m' group e) [
    | inl (same, (g, there)) ↦
        let (was, written) = h.called (k.text group) g there in
        subst (λ (n : MulticastSocket). HasGroup n group) same (g, was, written)
    | inr (same, free, done) ↦
        subst (λ (n : MulticastSocket). HasGroup n group) same
          (group, (mem-cons_self {l = m.calls}, done), refl)
  ]

  pub join_keeps :
      (m m' : MulticastSocket) (group other : Bytes)
      → HasGroup m other
      → join k group m ≡ ok m'
      → HasGroup m' other
  join_keeps m m' group other (g, was, written) e = elim (join_cases m m' group e) [
    | inl (same, there) ↦ subst (λ (n : MulticastSocket). HasGroup n other) same (g, was, written)
    | inr (same, free, done) ↦
        subst (λ (n : MulticastSocket). HasGroup n other) same
          (g, (mem-cons_of_mem group was.0, was.1), written)
  ]
