-- ===== src/Config/Loading/Translated.antt =====
-- The schemas of the entries, once applyDefaults has resolved them.
use mathlib.Core.Path.{subst}
use esphome_mpubsub.Base.{◌≡◌, ◌⊎◌, refl, arith, true}
use esphome_mpubsub.Base.{
  List, [], ◌∷◌, map, All, none, ok, Bool-cases, bind_ok, ok-injective, inl, inr,
}
use esphome_mpubsub.Base.Maps.{bytes_eq, lookup}
use esphome_mpubsub.Config.{SchemaConfig, Config}
use esphome_mpubsub.Config.Defaults.{
  build_schemas, resolve_entries, gate_entries, gate_schemas, gate, resolve, resolve_schemas,
}
use esphome_mpubsub.Config.Loading.Resolved.{
  IsLinked, unlinked, build_schemas-IsMade, resolve_entries-IsLinked, gate_entries-unnamed,
}

-- What the YAML parser leaves unset: the fields that no YAML name leads to.
abbrev pub IsUnset : Config → Type 0
IsUnset c = (c.mpubsub.encryption_key ≡ none) × All (λ b. b.schema_ptr ≡ none) c.bridges

-- JSON translation is on, or nothing asks for it.
abbrev pub IsGated : Config → Type 0
IsGated c = (c.json_translation ≡ true) ⊎ ((c.schemas ≡ []) × All (λ b. b.schema ≡ []) c.bridges)

-- The schemas of the entries of `c`, declared by `raw`.
pub record IsTranslated (raw c : Config) : Type 0 where
  pub same_entries : raw.bridges ≡ map unlinked c.bridges
  pub linked : All (IsLinked c.schemas) c.bridges
  pub gated : IsGated c
  pub kept : (c.mqtt ≡ raw.mqtt) × (c.mpubsub ≡ raw.mpubsub) × (c.schemas ≡ raw.schemas)

no_schemas : (l : List SchemaConfig) → gate_schemas l ≡ ok tt → l ≡ []
no_schemas [] e = refl
no_schemas (s ∷ rest) e = cc

gate-IsTranslated :
    (raw c : Config)
    → All (λ b. b.schema_ptr ≡ none) raw.bridges
    → gate raw ≡ ok c
    → IsTranslated raw c
unfolding gate
gate-IsTranslated raw c u e =
    let (_, empty, e') = bind_ok (gate_schemas raw.schemas) _ c e in
    let (_, unnamed, e'') = bind_ok (gate_entries 0 raw.bridges) _ c e' in
    let (names, linked, same) = gate_entries-unnamed raw.schemas raw.bridges 0 u unnamed in
    subst (IsTranslated raw) (ok-injective e'') (record {
      same_entries = same;
      linked = linked;
      gated = inr (no_schemas raw.schemas empty, names);
      kept = (refl, refl, refl);
    })

resolve-IsTranslated :
    (raw c : Config)
    → All (λ b. b.schema_ptr ≡ none) raw.bridges
    → raw.json_translation ≡ true
    → resolve raw ≡ ok c
    → IsTranslated raw c
unfolding resolve lookup
resolve-IsTranslated raw c u on e =
    let (made, built, e') = bind_ok (build_schemas 0 raw.schemas []) _ c e in
    let (entries, done, e'') = bind_ok (resolve_entries 0 made raw.bridges) _ c e' in
    let all_made =
      build_schemas-IsMade raw.schemas raw.schemas 0 [] made (λ x m. m) (λ id s f. cc) built in
    let (linked, same) =
      resolve_entries-IsLinked raw.schemas made raw.bridges 0 entries all_made u done in
    subst (IsTranslated raw) (ok-injective e'')
      (record { same_entries = same; linked = linked; gated = inl on; kept = (refl, refl, refl) })

pub resolve_schemas-IsTranslated :
    (raw c : Config)
    → All (λ b. b.schema_ptr ≡ none) raw.bridges
    → resolve_schemas raw ≡ ok c
    → IsTranslated raw c
unfolding resolve_schemas
resolve_schemas-IsTranslated raw c u e = elim (Bool-cases raw.json_translation) [
  | inl on ↦ resolve-IsTranslated raw c u on (ground arith)
  | inr off ↦ gate-IsTranslated raw c u (ground arith)
]
