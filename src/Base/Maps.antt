-- ===== src/Base/Maps.antt =====
-- Go maps as association lists with one entry a key. The program looks up and assigns; where it
-- ranges over a map, the order of the list stands for the order that Go picks.
use mathlib.Core.Bool.{Bool, true}
use mathlib.Core.List.{List, [], ◌∷◌}
use mathlib.Core.Logic.{◌↔◌}
use mathlib.Core.Option.{Option, none, some}
use mathlib.Core.Path.{◌≡◌, refl}
use Prim.Native.Nat.{ℕ}
use native.Mathlib.Omega.{arith}
use esphome_mpubsub.Base.Tests.{◌==◌, ==_iff, if◌then◌else◌}
use esphome_mpubsub.Base.Lists.{Bytes, ◌=ᵇ◌, =ᵇ_iff}

-- What a key type has: Go's `==`.
pub record Eq {ℓ} (K : Type ℓ) : Type ℓ where
  pub beq : K → K → Bool
  pub beq_iff : (a b : K) → (beq a b ≡ true) ↔ (a ≡ b)

instance abbrev pub nat_eq : Eq ℕ
nat_eq = record { beq = ◌==◌; beq_iff = ==_iff }

instance abbrev pub bytes_eq : Eq Bytes
bytes_eq = record { beq = ◌=ᵇ◌; beq_iff = =ᵇ_iff }

module _ {ℓ κ} {K : Type ℓ} {V : Type κ} ⦃e : Eq K⦄ where
  -- `m[k]` with its `ok`.
  unfoldable pub lookup : K → List (K × V) → Option V
  lookup key [] = none
  lookup key ((k', val) ∷ rest) = if e.beq k' key then some val else lookup key rest

  -- `m[k] = v`
  unfoldable pub insert : K → V → List (K × V) → List (K × V)
  insert key new [] = (key, new) ∷ []
  insert key new ((k', val) ∷ rest) =
      if e.beq k' key then (k', new) ∷ rest else (k', val) ∷ insert key new rest

  -- `delete(m, k)`
  unfoldable pub remove : K → List (K × V) → List (K × V)
  remove key [] = []
  remove key ((k', val) ∷ rest) =
      let rest' = remove key rest in if e.beq k' key then rest' else (k', val) ∷ rest'

  -- The entry that is met first answers, before and after an assignment.
  pub lookup-insert :
      (m : List (K × V)) (key other : K) (new : V)
      → lookup other (insert key new m) ≡ (if e.beq key other then some new else lookup other m)
  unfolding lookup insert
  lookup-insert [] key other new = refl
  lookup-insert ((k', val) ∷ rest) key other new = ground (
    arith,
    lookup-insert rest key other new,
    e.beq_iff k' key,
    e.beq_iff k' other,
    e.beq_iff key other,
  )

  pub lookup-remove :
      (m : List (K × V)) (key other : K)
      → lookup other (remove key m) ≡ (if e.beq key other then none else lookup other m)
  unfolding lookup remove
  lookup-remove [] key other = ground arith
  lookup-remove ((k', val) ∷ rest) key other = ground (
    arith,
    lookup-remove rest key other,
    e.beq_iff k' key,
    e.beq_iff k' other,
    e.beq_iff key other,
  )

pub beq_refl {ℓ} : {K : Type ℓ} ⦃e : Eq K⦄ (k : K) → e.beq k k ≡ true
beq_refl ⦃e⦄ k = (e.beq_iff k k).1 refl
