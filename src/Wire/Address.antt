-- ===== src/Wire/Address.antt =====
-- ParseScope, DeriveKey and TopicToGroup of wire.go. SHA-256 is a parameter: a function into 32 bytes.
use esphome_mpubsub.Base.{ℕ, ◌+◌, ◌*◌, ◌^◌, ◌%◌, ◌≡◌, refl, ap, ◌∙◌, sym, ◌⊎◌, arith}
use esphome_mpubsub.Base.{
  bit_and, bit_or, [], ◌∷◌, Bytes, length, take, drop, length-take_le, get_or, lit, ◌=ᵇ◌,
}
use esphome_mpubsub.Base.{◌||◌, if◌then◌else◌, Result, ok, err, ◌↔◌}
use esphome_mpubsub.Base.Bits.{bit_or_fields, bit_and_mask}
use esphome_mpubsub.Wire.Packet.{WireError, unknown_scope}

abbrev pub scope_link_local : ℕ
scope_link_local = 0x2

abbrev pub scope_site_local : ℕ
scope_site_local = 0x5

abbrev pub scope_org_local : ℕ
scope_org_local = 0x8

unfoldable pub parse_scope : Bytes → Result WireError ℕ
parse_scope s =
    if s =ᵇ lit "link-local" || s =ᵇ []
    then ok scope_link_local
    else if s =ᵇ lit "site-local"
    then ok scope_site_local
    else if s =ᵇ lit "organization-local" || s =ᵇ lit "org-local"
    then ok scope_org_local
    else err (unknown_scope s)

-- Every scope that is parsed is one of the three, and names a nibble.
pub parse_scope_known :
    (s : Bytes) {scope : ℕ} → parse_scope s ≡ ok scope → ((scope ≡ 2) ⊎ (scope ≡ 5) ⊎ (scope ≡ 8))
unfolding parse_scope
parse_scope_known s h = ground arith

module _ (sha256 : Bytes → Bytes) where
  unfoldable pub derive_key : Bytes → Bytes
  derive_key passphrase = sha256 passphrase

  unfoldable pub topic_to_group : Bytes → ℕ → Bytes
  topic_to_group topic scope =
      0xFF ∷ bit_or (0x1 * 2 ^ 4) (bit_and scope 0x0F) ∷ take 14 (sha256 topic)

  module _ (digest_len : (m : Bytes) → length (sha256 m) ≡ 32) where
    length-take_digest : (m : Bytes) → length (take 14 (sha256 m)) ≡ 14
    length-take_digest m = length-take_le 14 (sha256 m) (omega (arith, digest_len m))

    -- A group is an IPv6 address of 16 bytes: FF, the transient flag with the scope's nibble, and
    -- the first 112 bits of the digest.
    pub topic_to_group_shape :
        (topic : Bytes) (scope : ℕ)
        → let g = topic_to_group topic scope in
          (length g ≡ 16)
          × (get_or g 0 0 ≡ 0xFF)
          × (get_or g 1 0 ≡ 16 + scope % 16)
          × (drop 2 g ≡ take 14 (sha256 topic))
    unfolding topic_to_group
    topic_to_group_shape topic scope = (
      omega (arith, length-take_digest topic),
      refl,
      rw (bit_and_mask 4 scope) (bit_or_fields 4 1 (scope % 16) (omega arith)),
      refl,
    )

    -- Two topics share a group in two scopes exactly where the scopes have one nibble and the
    -- digests agree in their first 14 bytes.
    pub topic_to_group_iff :
        (t u : Bytes) (s r : ℕ)
        → (topic_to_group t s ≡ topic_to_group u r)
          ↔ ((s % 16 ≡ r % 16) × (take 14 (sha256 t) ≡ take 14 (sha256 u)))
    topic_to_group_iff t u s r =
        let (lt, zt, nt, dt) = topic_to_group_shape t s in
        let (lu, zu, nu, du) = topic_to_group_shape u r in
        (
          λ e. (
            omega (arith, nt, nu, ap (λ (g : Bytes). get_or g 1 0) e),
            sym dt ∙ ap (λ (g : Bytes). drop 2 g) e ∙ du,
          ),
          λ h. unfold topic_to_group in rw (bit_and_mask 4 s, bit_and_mask 4 r, h.0, h.1) refl,
        )
