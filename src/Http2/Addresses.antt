-- ===== src/Http2/Addresses.antt =====
-- The address that the eBPF programs key a connection's state with (beeper/src/http2/mod.rs). The
-- octets of an address are read as on a little-endian machine.
use beeper.Prelude.{ℕ, ◌+◌, ◌*◌, ◌<◌, ◌≡◌, ap, arith, List}
use beeper.Run.{Run, returns, panics, no_ipv6}
use beeper.Http2.Connections.{Ip4Addr}

-- `Ipv4Addr::octets`
pub record Octets : Type 0 where
  pub a : ℕ
  pub b : ℕ
  pub c : ℕ
  pub d : ℕ

pub data SocketAddr : Type 0 where
  v4 : Octets → ℕ → SocketAddr
  v6 : List ℕ → ℕ → SocketAddr

-- `u32::from_ne_bytes`
unfoldable pub from_ne_bytes : Octets → ℕ
from_ne_bytes o = o.a + 256 * (o.b + 256 * (o.c + 256 * o.d))

-- `From<SocketAddr> for ip4_addr`
unfoldable pub ip4_addr_of : SocketAddr → Run Ip4Addr
unfolding from_ne_bytes
ip4_addr_of (v4 ip port) = returns (record { ip4 = from_ne_bytes ip; port = port })
ip4_addr_of (v6 ip port) = panics no_ipv6

abbrev pub AreOctets : Octets → Type 0
AreOctets o = (o.a < 256) × (o.b < 256) × (o.c < 256) × (o.d < 256)

from_ne_bytes-injective :
    (o p : Octets) → AreOctets o → AreOctets p → from_ne_bytes o ≡ from_ne_bytes p → o ≡ p
unfolding from_ne_bytes
from_ne_bytes-injective o p ho hp h =
    let ea : o.a ≡ p.a = omega (arith, ho.0, hp.0) in
    let eb : o.b ≡ p.b = omega (arith, ho.1, hp.1) in
    let ec : o.c ≡ p.c = omega (arith, ho.2, hp.2) in
    let ed : o.d ≡ p.d = omega (arith, ho.3, hp.3) in cc

returns-injective : {x y : Ip4Addr} → returns x ≡ returns y → x ≡ y
returns-injective h = cc

-- The conversion loses nothing: two IPv4 socket addresses, their octets below 256, that convert to the
-- same address have the same octets and the same port.
pub ip4_addr_of-injective :
    (o p : Octets) (port port' : ℕ)
    → AreOctets o
    → AreOctets p
    → ip4_addr_of (v4 o port) ≡ ip4_addr_of (v4 p port')
    → (o ≡ p) × (port ≡ port')
unfolding ip4_addr_of
ip4_addr_of-injective o p port port' ho hp h =
    let same : record { ip4 = from_ne_bytes o; port = port }
        ≡ record { ip4 = from_ne_bytes p; port = port' } =
      returns-injective h in
    (
      from_ne_bytes-injective o p ho hp (ap (λ (x : Ip4Addr). x.ip4) same),
      ap (λ (x : Ip4Addr). x.port) same,
    )
