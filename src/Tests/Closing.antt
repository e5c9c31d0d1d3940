-- ===== src/Tests/Closing.antt =====
-- The theorem on `forget_closed` of utils/src/bin/conformance/main.rs at two ends of a connection.
use beeper.Prelude.{◌≡◌, refl, true, false, none, List, [], ◌∷◌, arith}
use mathlib.Core.List.Memᴰ
use beeper.Run.{Run, returns}
use beeper.Error.{Result, ok}
use beeper.Http2.Addresses.{SocketAddr, v4, ip4_addr_of, from_ne_bytes}
use beeper.Http2.Connections.{
  and_then, delete_if_present, forget_entries, forget_table, forget_found, forget_conn,
}
use beeper.Conformance.Following.{End}
use beeper.Conformance.Session.{client_of, conn_of, conn_of_end, then_forget, forget_closed}
use beeper.Conformance.Closing.{forget_closed-Forgets}
use beeper.Tests.Maps.{
  State, maps, entry, info, maps-AreMaps, conn, two_entries, mirrored, loopback,
}

abbrev server : SocketAddr
server = v4 loopback 8080

-- the client at port 54321 as the client and as the server saw it
abbrev closed : List End
closed = (54321, false) ∷ (54321, true) ∷ []

abbrev after_closed : Run (Result State) → State
after_closed (returns (ok s)) = s
after_closed _ = mirrored

abbrev left : State
left = after_closed (forget_closed maps server closed mirrored)

left_run : forget_closed maps server closed mirrored ≡ returns (ok left)
unfolding forget_closed conn_of_end conn_of client_of ip4_addr_of from_ne_bytes then_forget
    forget_conn forget_found forget_table forget_entries delete_if_present and_then
left_run = refl

seen : conn_of_end server (54321, true) ≡ returns conn
unfolding conn_of_end conn_of client_of ip4_addr_of from_ne_bytes
seen = refl

forget_closed-Forgets_example : (info conn left ≡ none) × (entry conn 64 left ≡ none)
forget_closed-Forgets_example =
    forget_closed-Forgets maps entry info maps-AreMaps server closed mirrored left (54321, true)
      conn two_entries two_entries 64 left_run (Memᴰ.tail (Memᴰ.head refl)) seen refl refl
      (omega arith) (omega arith) (omega arith)
