-- ===== src/Bridge/Routing.antt =====
-- The routes that Run registers for a checksum.
use esphome_mpubsub.Base.{
  ℕ, ◌≡◌, refl, ap, ◌∙◌, sym, Bool, ◌&&◌, Bool-cases, inl, inr, ◌==◌, if◌then◌else◌, List, [], ◌∷◌,
  ◌++◌, append_assoc, append-nil, arith,
}
use esphome_mpubsub.Base.Maps.{nat_eq, lookup, insert, lookup-insert}
use esphome_mpubsub.Wire.Packet.{topic_crc32}
use esphome_mpubsub.Config.{BridgeEntry}
use esphome_mpubsub.Bridge.{to_mqtt, Route, route_of, routes_for, add_route, register}

-- Whether an entry leads from the topics of a checksum to MQTT.
abbrev pub is_for : ℕ → BridgeEntry → Bool
is_for crc e = to_mqtt e.direction && (topic_crc32 e.mpubsub_topic == crc)

-- The routes of the entries towards MQTT whose topic has the checksum, in their order.
unfoldable pub routes_of : ℕ → List BridgeEntry → List Route
routes_of crc [] = []
routes_of crc (e ∷ es) =
    let rest = routes_of crc es in if is_for crc e then route_of e ∷ rest else rest

routes_for-insert :
    (table : List (ℕ × List Route)) (crc other : ℕ) (rs : List Route)
    → routes_for other (insert crc rs table) ≡ (if crc == other then rs else routes_for other table)
unfolding routes_for
routes_for-insert table crc other rs = ground (arith, lookup-insert table crc other rs)

add_route_lem :
    (e : BridgeEntry) (table : List (ℕ × List Route)) (crc : ℕ)
    → routes_for crc (add_route e table)
      ≡ (if is_for crc e then routes_for crc table ++ route_of e ∷ [] else routes_for crc table)
unfolding add_route
add_route_lem e table crc =
    let own = topic_crc32 e.mpubsub_topic in
    ground (
      arith,
      routes_for-insert table own crc (routes_for own table ++ route_of e ∷ []),
      ap (λ (n : ℕ). routes_for n table),
    )

register_routes :
    (es : List BridgeEntry) (table : List (ℕ × List Route)) (crc : ℕ)
    → routes_for crc (register es table) ≡ routes_for crc table ++ routes_of crc es
unfolding register routes_of
register_routes [] table crc = sym (append-nil (routes_for crc table))
register_routes (e ∷ es) table crc =
    register_routes es (add_route e table) crc ∙ elim (Bool-cases (is_for crc e)) [
      | inl yes_for ↦
          rw (add_route_lem e table crc, yes_for)
            (append_assoc (routes_for crc table) (route_of e ∷ []) (routes_of crc es))
      | inr not_for ↦ rw (add_route_lem e table crc, not_for) refl
    ]

-- After Run has registered its entries, the routes of a checksum are those of the entries towards
-- MQTT whose topic has it, in the order of the configuration.
pub routes_for-register :
    (es : List BridgeEntry) (crc : ℕ) → routes_for crc (register es []) ≡ routes_of crc es
unfolding routes_for lookup
routes_for-register es crc = register_routes es [] crc
