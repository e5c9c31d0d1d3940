-- ===== src/Http2/Connections.antt =====
-- The attached HTTP/2 parser (beeper/src/http2/parser.rs): the dynamic tables that it reads and
-- deletes. The kernel maps are the parameter `Maps`, and so is the reading of an entry's bytes. A
-- `u32` sum wraps around, as in a release build.
use mathlib.Core.Path.{subst}
use beeper.Prelude.{
  ℕ, zero, suc, ◌+◌, ◌-◌, ◌%◌, ◌^◌, ◌≤◌, ◌<◌, ◌≡◌, ◌≢◌, refl, nat_beq_iff, ◌⊎◌, inl, inr, Option,
  none, some, arith,
}
use beeper.Error.{Error, Result, ok, err}
use beeper.Http2.{dynamic_table_base}

-- `struct ip4_addr` and `struct ip4_conn`
pub record Ip4Addr : Type 0 where
  pub ip4 : ℕ
  pub port : ℕ

pub record Ip4Conn : Type 0 where
  pub local : Ip4Addr
  pub remote : Ip4Addr

pub record DynamicTableInfo : Type 0 where
  pub count : ℕ
  pub size : ℕ
  pub max_size : ℕ
  pub deleted : ℕ
  pub dirty : ℕ

-- What the deletion of a key answers.
pub data Deletion (S : Type 0) : Type 0 where
  gone : S → Deletion S
  not_found : Deletion S
  failed : Error → Deletion S

-- The two kernel maps: `S` is their state, `V` the bytes of an entry.
pub record Maps (S V : Type 0) : Type 0 where
  pub lookup_info : Ip4Conn → S → Result (Option V)
  pub from_bytes : V → Result DynamicTableInfo
  pub delete_info : Ip4Conn → S → Deletion S
  pub delete_entry : Ip4Conn → ℕ → S → Deletion S

abbrev pub u32_mod : ℕ
u32_mod = 2 ^ 32

nat_beq-cases : (a b : ℕ) → (a ≡ b) ⊎ (a ≢ b)
nat_beq-cases a b = ground (arith, nat_beq_iff a b)

unfoldable pub delete_if_present : {S : Type 0} → Deletion S → S → Result S
delete_if_present (gone s') s = ok s'
delete_if_present not_found s = ok s
delete_if_present (failed e) s = err e

-- `?`
unfoldable pub and_then : {A B : Type 0} → Result A → (A → Result B) → Result B
and_then (err e) f = err e
and_then (ok a) f = f a

pub and_then-ok :
    {A B : Type 0} (r : Result A) (f : A → Result B) (b : B)
    → and_then r f ≡ ok b
    → (a : A) × (r ≡ ok a) × (f a ≡ ok b)
unfolding and_then
and_then-ok (err e) f b h = absurd (cc h)
and_then-ok (ok a) f b h = (a, refl, h)

module _ {S V : Type 0} where
  module _ (maps : Maps S V) where
    -- the loop of `forget_conn`
    unfoldable pub forget_entries : Ip4Conn → ℕ → ℕ → S → Result S
    unfolding delete_if_present and_then
    forget_entries conn first zero s = ok s
    forget_entries conn first (suc count) s =
        and_then (delete_if_present (maps.delete_entry conn first s) s)
          (forget_entries conn (first + 1) count)

    unfoldable pub forget_table : Ip4Conn → DynamicTableInfo → S → Result S
    unfolding forget_entries
    forget_table conn info s =
        let first = (dynamic_table_base + info.deleted) % u32_mod in
        let last = (first + info.count) % u32_mod in
        and_then (forget_entries conn first (last - first) s)
          (λ s'. delete_if_present (maps.delete_info conn s') s')

    unfoldable pub forget_found : Ip4Conn → S → Option V → Result S
    unfolding forget_table
    forget_found conn s none = ok s
    forget_found conn s (some val) =
        and_then (maps.from_bytes val) (λ info. forget_table conn info s)

    unfoldable pub forget_conn : Ip4Conn → S → Result S
    unfolding forget_found
    forget_conn conn s = and_then (maps.lookup_info conn s) (forget_found conn s)

    -- `val?` inside a function that returns an option gives up on a missing value.
    unfoldable pub info_of : Result (Option V) → Option (Result DynamicTableInfo)
    info_of (err e) = some (err e)
    info_of (ok none) = none
    info_of (ok (some val)) = some (maps.from_bytes val)

    unfoldable pub dynamic_table_info : Ip4Conn → S → Option (Result DynamicTableInfo)
    unfolding info_of
    dynamic_table_info conn s = info_of (maps.lookup_info conn s)

    -- How the kernel's maps behave: `entry` and `info` tell what they hold. A deletion that succeeds
    -- or finds nothing leaves nothing under the key and brings nothing back elsewhere, and what is
    -- read of other connections stays the same.
    pub record AreMaps (entry : Ip4Conn → ℕ → S → Option V) (info : Ip4Conn → S → Option V)
        : Type 0 where
      pub entry_gone :
          (c : Ip4Conn) (i : ℕ) (s s' : S) → maps.delete_entry c i s ≡ gone s' → entry c i s' ≡ none
      pub entry_not_found :
          (c : Ip4Conn) (i : ℕ) (s : S) → maps.delete_entry c i s ≡ not_found → entry c i s ≡ none
      pub entry_kept :
          (c d : Ip4Conn) (i j : ℕ) (s s' : S)
          → maps.delete_entry c i s ≡ gone s'
          → entry d j s ≡ none
          → entry d j s' ≡ none
      pub info_gone : (c : Ip4Conn) (s s' : S) → maps.delete_info c s ≡ gone s' → info c s' ≡ none
      pub info_not_found :
          (c : Ip4Conn) (s : S) → maps.delete_info c s ≡ not_found → info c s ≡ none
      pub info_kept :
          (c d : Ip4Conn) (j : ℕ) (s s' : S)
          → maps.delete_info c s ≡ gone s'
          → entry d j s ≡ none
          → entry d j s' ≡ none
      pub entry_other :
          (c d : Ip4Conn) (i : ℕ) (s s' : S)
          → maps.delete_entry c i s ≡ gone s'
          → (maps.lookup_info d s' ≡ maps.lookup_info d s) × (info d s ≡ none → info d s' ≡ none)
      pub info_other :
          (c d : Ip4Conn) (s s' : S)
          → maps.delete_info c s ≡ gone s'
          → (c ≢ d → maps.lookup_info d s' ≡ maps.lookup_info d s)
            × (info d s ≡ none → info d s' ≡ none)
      pub read : (c : Ip4Conn) (s : S) (o : Option V) → maps.lookup_info c s ≡ ok o → info c s ≡ o

    module _ (entry : Ip4Conn → ℕ → S → Option V) (info : Ip4Conn → S → Option V)
        (m : AreMaps entry info) (c : Ip4Conn) where
      delete_entry-Gone :
          (i : ℕ) (s s' : S) (r : Deletion S)
          → maps.delete_entry c i s ≡ r
          → delete_if_present r s ≡ ok s'
          → (entry c i s' ≡ none) × ((j : ℕ) → entry c j s ≡ none → entry c j s' ≡ none)
      unfolding delete_if_present
      delete_entry-Gone i s s' (gone s₁) e h =
          let same : s₁ ≡ s' = cc in
          (m.entry_gone c i s s' (rw same at e), λ j k. m.entry_kept c c i j s s' (rw same at e) k)
      delete_entry-Gone i s s' not_found e h =
          let same : s ≡ s' = cc in (rw same at (m.entry_not_found c i s e), λ j k. rw same at k)
      delete_entry-Gone i s s' (failed x) e h = absurd (cc h)

      delete_info-Gone :
          (s s' : S) (r : Deletion S)
          → maps.delete_info c s ≡ r
          → delete_if_present r s ≡ ok s'
          → (info c s' ≡ none) × ((j : ℕ) → entry c j s ≡ none → entry c j s' ≡ none)
      unfolding delete_if_present
      delete_info-Gone s s' (gone s₁) e h =
          let same : s₁ ≡ s' = cc in
          (m.info_gone c s s' (rw same at e), λ j k. m.info_kept c c j s s' (rw same at e) k)
      delete_info-Gone s s' not_found e h =
          let same : s ≡ s' = cc in (rw same at (m.info_not_found c s e), λ j k. rw same at k)
      delete_info-Gone s s' (failed x) e h = absurd (cc h)

      forget_entries-Gone :
          (first count : ℕ) (s s' : S)
          → forget_entries c first count s ≡ ok s'
          → ((i : ℕ) → first ≤ i → i < first + count → entry c i s' ≡ none)
            × ((j : ℕ) → entry c j s ≡ none → entry c j s' ≡ none)
      unfolding forget_entries
      forget_entries-Gone first zero s s' h =
          let same : s ≡ s' = cc in (λ i lo hi. absurd (omega arith), λ j k. rw same at k)
      forget_entries-Gone first (suc count) s s' h =
          let (s₁, one, rest) =
            and_then-ok (delete_if_present (maps.delete_entry c first s) s)
              (forget_entries c (first + 1) count) s' h in
          let (here, kept) = delete_entry-Gone first s s₁ (maps.delete_entry c first s) refl one in
          let (later, kept') = forget_entries-Gone (first + 1) count s₁ s' rest in
          (
            λ i lo hi. elim (nat_beq-cases first i) [
              | inl same ↦ kept' i (subst (λ k. entry c k s₁ ≡ none) same here)
              | inr other ↦ later i (omega arith) (omega arith)
            ],
            λ j k. kept' j (kept j k),
          )

      -- For kernel maps that delete what they are told to: if forgetting a connection that has a
      -- table succeeds, and the count of the entries ever added fits into 32 bits, the connection has no
      -- table any more, and no entry under any index that its table told of.
      pub forget_conn-Forgets :
          (s s' : S) (val : V) (table : DynamicTableInfo) (j : ℕ)
          → maps.lookup_info c s ≡ ok (some val)
          → maps.from_bytes val ≡ ok table
          → dynamic_table_base + table.deleted + table.count < u32_mod
          → forget_conn c s ≡ ok s'
          → dynamic_table_base + table.deleted ≤ j
          → j < dynamic_table_base + table.deleted + table.count
          → (info c s' ≡ none) × (entry c j s' ≡ none)
      unfolding forget_conn forget_found forget_table and_then
      forget_conn-Forgets s s' val table j there read fits run lo hi =
          let first : ℕ = dynamic_table_base + table.deleted in
          let low : first % u32_mod ≡ first = omega arith in
          let high : (first + table.count) % u32_mod ≡ first + table.count = omega arith in
          let steps : and_then (forget_entries c first (first + table.count - first) s)
                (λ s₁. delete_if_present (maps.delete_info c s₁) s₁)
              ≡ ok s' =
            rw (low, high) at (rw read at (rw there at run)) in
          let (s₁, loop, last) = and_then-ok _ _ s' steps in
          let (none_there, kept) = delete_info-Gone s₁ s' (maps.delete_info c s₁) refl last in
          (
            none_there,
            kept j (
                (forget_entries-Gone first (first + table.count - first) s s₁ loop).0 j lo
                  (omega arith)),
          )
