-- ===== src/Conformance/Closing.antt =====
-- What `forget_closed` of utils/src/bin/conformance/main.rs leaves of the connections that were closed.
use beeper.Prelude.{
  ℕ, ◌+◌, ◌≤◌, ◌<◌, ◌≡◌, refl, sym, ap, ◌∙◌, inl, inr, Option, none, some, List, [], ◌∷◌,
}
use mathlib.Core.List.{Memᴰ}
use mathlib.Core.List.Memᴰ
use beeper.Run.{Run, returns, >>=-eq-returns, returns-eq}
use beeper.Error.{Result, ok, err}
use beeper.Http2.{dynamic_table_base}
use beeper.Http2.Addresses.{SocketAddr}
use beeper.Http2.Connections.{
  Ip4Conn, DynamicTableInfo, Maps, AreMaps, u32_mod, forget_conn, forget_conn-Forgets,
}
use beeper.Http2.Forgetting.{conn-cases, forget_conn-Leaves}
use beeper.Conformance.Following.{End}
use beeper.Conformance.Session.{conn_of_end, then_forget, forget_closed}

module _ {S V : Type 0} (maps : Maps S V) (entry : Ip4Conn → ℕ → S → Option V)
    (info : Ip4Conn → S → Option V) (m : AreMaps maps entry info) (server : SocketAddr) where
  then_forget-ok :
      (rest : S → Run (Result S)) (r : Result S) (s' : S)
      → then_forget maps rest r ≡ returns (ok s')
      → (s₁ : S) × (r ≡ ok s₁) × (rest s₁ ≡ returns (ok s'))
  unfolding then_forget
  then_forget-ok rest (err e) s' h = absurd (cc h)
  then_forget-ok rest (ok s₁) s' h = (s₁, refl, h)

  -- the first turn of the loop
  forget_closed-first :
      (e : End) (closed : List End) (s s' : S)
      → forget_closed maps server (e ∷ closed) s ≡ returns (ok s')
      → (c : Ip4Conn) × (s₁ : S) × (conn_of_end server e ≡ returns c)
        × (forget_conn maps c s ≡ ok s₁)
        × (forget_closed maps server closed s₁ ≡ returns (ok s'))
  unfolding forget_closed
  forget_closed-first e closed s s' run =
      let (c, conn, then) = >>=-eq-returns (conn_of_end server e) _ run in
      let (s₁, forgot, rest) =
        then_forget-ok (forget_closed maps server closed) (forget_conn maps c s) s' then in
      (c, s₁, conn, forgot, rest)

  forget_closed-Keeps :
      (closed : List End) (s s' : S)
      → forget_closed maps server closed s ≡ returns (ok s')
      → ((d : Ip4Conn) → info d s ≡ none → info d s' ≡ none)
        × ((d : Ip4Conn) (j : ℕ) → entry d j s ≡ none → entry d j s' ≡ none)
  unfolding forget_closed
  forget_closed-Keeps [] s s' run =
      let same : s ≡ s' = cc in (λ d h. rw same at h, λ d j h. rw same at h)
  forget_closed-Keeps (e ∷ closed) s s' run =
      let (c, s₁, conn, forgot, rest) = forget_closed-first e closed s s' run in
      let (left, _) = forget_conn-Leaves maps entry info m c s s₁ forgot in
      let (infos, entries) = forget_closed-Keeps closed s₁ s' rest in
      (λ d h. infos d (left.infos d h), λ d j h. entries d j (left.entries d j h))

  -- For kernel maps that delete what they are told to and nothing else: if `forget_closed` succeeds, then
  -- a connection that an end among the closed ones saw, which has a table, has none any more, and
  -- no entry under any index that its table told of, provided that the count of the entries ever added to it
  -- fits into 32 bits. It does not matter which other connections are forgotten before or after it.
  pub forget_closed-Forgets :
      (closed : List End) (s s' : S) (e : End) (c : Ip4Conn) (val : V) (table : DynamicTableInfo)
      (j : ℕ)
      → forget_closed maps server closed s ≡ returns (ok s')
      → Memᴰ e closed
      → conn_of_end server e ≡ returns c
      → maps.lookup_info c s ≡ ok (some val)
      → maps.from_bytes val ≡ ok table
      → dynamic_table_base + table.deleted + table.count < u32_mod
      → dynamic_table_base + table.deleted ≤ j
      → j < dynamic_table_base + table.deleted + table.count
      → (info c s' ≡ none) × (entry c j s' ≡ none)
  forget_closed-Forgets [] s s' e c val table j run listed conn there read fits lo hi =
      absurd (Memᴰ.not-nil listed)
  forget_closed-Forgets (e₀ ∷ closed) s s' e c val table j run listed conn there read fits lo hi =
      let (c₀, s₁, conn₀, forgot, rest) = forget_closed-first e₀ closed s s' run in
      let (infos, entries) = forget_closed-Keeps closed s₁ s' rest in
      let now : c₀ ≡ c → (info c s' ≡ none) × (entry c j s' ≡ none) = λ same.
        let (no_table, no_entry) =
          forget_conn-Forgets maps entry info m c s s₁ val table j there read fits
            (rw same at forgot) lo hi in
        (infos c no_table, entries c j no_entry) in
      elim (conn-cases c₀ c) [
        | inl same ↦ now same
        | inr other ↦ elim (Memᴰ.cases_cons listed) [
          | inl first ↦ now (returns-eq (sym conn₀ ∙ ap (conn_of_end server) (sym first) ∙ conn))
          | inr later ↦
              forget_closed-Forgets closed s₁ s' e c val table j rest later conn
                ((forget_conn-Leaves maps entry info m c₀ s s₁ forgot).0.others c other ∙ there)
                read fits lo hi
        ]
      ]
