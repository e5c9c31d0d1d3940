-- ===== src/Http2/Forgetting.antt =====
-- Which connections `forget_conn` of beeper/src/http2/parser.rs leaves alone, and what it leaves of the
-- one that it forgets.
use beeper.Prelude.{
  ℕ, ◌+◌, ◌-◌, ◌%◌, ◌≡◌, ◌≢◌, refl, ◌∙◌, ◌↔◌, Bool, true, ◌&&◌, ◌==◌, nat_eq, Bool-cases, ◌⊎◌,
  ==_refl, zero, suc, inl, inr, Option, none, some, arith,
}
use mathlib.Core.Path.{subst}
use beeper.Error.{ok}
use beeper.Http2.{dynamic_table_base}
use beeper.Http2.Connections.{
  Ip4Addr, Ip4Conn, DynamicTableInfo, Deletion, gone, not_found, failed, Maps, AreMaps, u32_mod,
  delete_if_present, and_then-ok, forget_entries, forget_table, forget_found, forget_conn,
}

abbrev pub conn_beq : Ip4Conn → Ip4Conn → Bool
conn_beq a b =
    (a.local.ip4 == b.local.ip4 && a.local.port == b.local.port)
    && (a.remote.ip4 == b.remote.ip4 && a.remote.port == b.remote.port)

addr-eq : (a b : Ip4Addr) → a.ip4 ≡ b.ip4 → a.port ≡ b.port → a ≡ b
addr-eq a b i p = cc

conn-eq : (a b : Ip4Conn) → a.local ≡ b.local → a.remote ≡ b.remote → a ≡ b
conn-eq a b l r = cc

pub conn_beq_iff : (a b : Ip4Conn) → (conn_beq a b ≡ true) ↔ (a ≡ b)
conn_beq_iff a b = (
  λ h.
      conn-eq a b (addr-eq a.local b.local (ground arith) (ground arith))
        (addr-eq a.remote b.remote (ground arith) (ground arith)),
  λ h.
      rw (h, ==_refl b.local.ip4, ==_refl b.local.port, ==_refl b.remote.ip4, ==_refl b.remote.port)
        refl,
)

pub conn-cases : (a b : Ip4Conn) → (a ≡ b) ⊎ (a ≢ b)
conn-cases a b = elim (Bool-cases (conn_beq a b)) [
  | inl same ↦ inl ((conn_beq_iff a b).0 same)
  | inr other ↦ inr (λ h. absurd (cc (other, (conn_beq_iff a b).1 h)))
]

module _ {S V : Type 0} (maps : Maps S V) (entry : Ip4Conn → ℕ → S → Option V)
    (info : Ip4Conn → S → Option V) where
  -- Nothing comes back, and what is read of connections other than `c` stays.
  pub record Leaves (c : Ip4Conn) (s s' : S) : Type 0 where
    pub entries : (d : Ip4Conn) (j : ℕ) → entry d j s ≡ none → entry d j s' ≡ none
    pub infos : (d : Ip4Conn) → info d s ≡ none → info d s' ≡ none
    pub others : (d : Ip4Conn) → c ≢ d → maps.lookup_info d s' ≡ maps.lookup_info d s

  Leaves-refl : (c : Ip4Conn) (s : S) → Leaves c s s
  Leaves-refl c s = record { entries = λ d j h. h; infos = λ d h. h; others = λ d n. refl }

  Leaves-trans : (c : Ip4Conn) (s t u : S) → Leaves c s t → Leaves c t u → Leaves c s u
  Leaves-trans c s t u a b = record {
    entries = λ d j h. b.entries d j (a.entries d j h);
    infos = λ d h. b.infos d (a.infos d h);
    others = λ d n. b.others d n ∙ a.others d n;
  }

  module _ (m : AreMaps maps entry info) (c : Ip4Conn) where
    delete_entry-Leaves :
        (i : ℕ) (s s' : S) (r : Deletion S)
        → maps.delete_entry c i s ≡ r
        → delete_if_present r s ≡ ok s'
        → Leaves c s s'
    unfolding delete_if_present
    delete_entry-Leaves i s s' (gone s₁) e h =
        let same : s₁ ≡ s' = cc in
        let e' : maps.delete_entry c i s ≡ gone s' = rw same at e in
        record {
          entries = λ d j none_there. m.entry_kept c d i j s s' e' none_there;
          infos = λ d none_there. (m.entry_other c d i s s' e').1 none_there;
          others = λ d n. (m.entry_other c d i s s' e').0;
        }
    delete_entry-Leaves i s s' not_found e h =
        let same : s ≡ s' = cc in subst (λ (t : S). Leaves c s t) same (Leaves-refl c s)
    delete_entry-Leaves i s s' (failed x) e h = absurd (cc h)

    delete_info-Leaves :
        (s s' : S) (r : Deletion S)
        → maps.delete_info c s ≡ r
        → delete_if_present r s ≡ ok s'
        → Leaves c s s' × (info c s' ≡ none)
    unfolding delete_if_present
    delete_info-Leaves s s' (gone s₁) e h =
        let same : s₁ ≡ s' = cc in
        let e' : maps.delete_info c s ≡ gone s' = rw same at e in
        (
          record {
            entries = λ d j none_there. m.info_kept c d j s s' e' none_there;
            infos = λ d none_there. (m.info_other c d s s' e').1 none_there;
            others = λ d n. (m.info_other c d s s' e').0 n;
          },
          m.info_gone c s s' e',
        )
    delete_info-Leaves s s' not_found e h =
        let same : s ≡ s' = cc in
        (
          subst (λ (t : S). Leaves c s t) same (Leaves-refl c s),
          subst (λ (t : S). info c t ≡ none) same (m.info_not_found c s e),
        )
    delete_info-Leaves s s' (failed x) e h = absurd (cc h)

    forget_entries-Leaves :
        (first count : ℕ) (s s' : S) → forget_entries maps c first count s ≡ ok s' → Leaves c s s'
    unfolding forget_entries
    forget_entries-Leaves first zero s s' h =
        let same : s ≡ s' = cc in subst (λ (t : S). Leaves c s t) same (Leaves-refl c s)
    forget_entries-Leaves first (suc count) s s' h =
        let (s₁, one, rest) =
          and_then-ok (delete_if_present (maps.delete_entry c first s) s)
            (forget_entries maps c (first + 1) count) s' h in
        Leaves-trans c s s₁ s'
          (delete_entry-Leaves first s s₁ (maps.delete_entry c first s) refl one)
          (forget_entries-Leaves (first + 1) count s₁ s' rest)

    forget_table-Leaves :
        (table : DynamicTableInfo) (s s' : S)
        → forget_table maps c table s ≡ ok s'
        → Leaves c s s' × (info c s' ≡ none)
    unfolding forget_table
    forget_table-Leaves table s s' h =
        let first : ℕ = (dynamic_table_base + table.deleted) % u32_mod in
        let count : ℕ = (first + table.count) % u32_mod - first in
        let (s₁, loop, last) =
          and_then-ok (forget_entries maps c first count s)
            (λ t. delete_if_present (maps.delete_info c t) t) s' h in
        let (left, none_there) = delete_info-Leaves s₁ s' (maps.delete_info c s₁) refl last in
        (Leaves-trans c s s₁ s' (forget_entries-Leaves first count s s₁ loop) left, none_there)

    forget_found-Leaves :
        (o : Option V) (s s' : S)
        → info c s ≡ o
        → forget_found maps c s o ≡ ok s'
        → Leaves c s s' × (info c s' ≡ none)
    unfolding forget_found
    forget_found-Leaves none s s' h run =
        let same : s ≡ s' = cc in
        (
          subst (λ (t : S). Leaves c s t) same (Leaves-refl c s),
          subst (λ (t : S). info c t ≡ none) same h,
        )
    forget_found-Leaves (some val) s s' h run =
        let (table, bytes, rest) = and_then-ok (maps.from_bytes val) _ s' run in
        forget_table-Leaves table s s' rest

    -- If forgetting a connection succeeds, it has no table any more, nothing comes back, and the tables
    -- of other connections read as before.
    pub forget_conn-Leaves :
        (s s' : S) → forget_conn maps c s ≡ ok s' → Leaves c s s' × (info c s' ≡ none)
    unfolding forget_conn
    forget_conn-Leaves s s' run =
        let (o, found, rest) = and_then-ok (maps.lookup_info c s) _ s' run in
        forget_found-Leaves o s s' (m.read c s o found) rest
