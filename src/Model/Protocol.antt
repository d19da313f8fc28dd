-- ===== src/Model/Protocol.antt =====
-- ProtocolPort and IsSupportProtocol of pkg/model/asset.go. Texts are ASCII where their case is folded.
use gojump.Prelude.{
  ◌+◌, Str, List, [], ◌∷◌, map, Bool, false, ◌&&◌, Option, none, some, if◌then◌else◌, leb, contains,
  split, any, ◌≡◌, refl, arith,
}
use gojump.Prelude.Int.{ℤ, pos}
use gojump.Prelude.Atoi.{atoi}
use gojump.Model.{Asset}

unfoldable pub to_lower : Str → Str
to_lower = map (λ c. if leb b'A' c && leb c b'Z' then c + 32 else c)

unfoldable pub supports : Str → Str → Bool
unfolding to_lower
supports item protocol = contains (to_lower item) (to_lower protocol)

-- The port of `name/port`, if the item has that form.
port_of : List Str → Option ℤ
port_of (name ∷ port ∷ []) = atoi port
port_of _ = none

protocol_port_from : List Str → Str → ℤ
protocol_port_from [] protocol = pos 0
protocol_port_from (item ∷ items) protocol =
    let rest = protocol_port_from items protocol in
    if supports item protocol
    then elim (port_of (split item b'/')) [ none ↦ rest | some port ↦ port ]
    else rest

unfoldable pub protocol_port : Asset → Str → ℤ
unfolding supports port_of protocol_port_from
protocol_port a protocol = protocol_port_from a.protocols protocol

unfoldable pub is_support_protocol : Asset → Str → Bool
unfolding supports
is_support_protocol a protocol = any (λ item. supports item protocol) a.protocols

no_port :
    (items : List Str) (protocol : Str)
    → any (λ i. supports i protocol) items ≡ false
    → protocol_port_from items protocol ≡ pos 0
unfolding protocol_port_from
no_port [] protocol h = refl
no_port (i ∷ is') protocol h = ground (arith, no_port is' protocol)

-- For a protocol that the asset does not support, the port is 0: another port is only ever given for
-- a protocol that it supports.
pub protocol_port-is_support_protocol :
    (a : Asset) (protocol : Str)
    → is_support_protocol a protocol ≡ false
    → protocol_port a protocol ≡ pos 0
unfolding protocol_port is_support_protocol
protocol_port-is_support_protocol a protocol h = no_port a.protocols protocol h
