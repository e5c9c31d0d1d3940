-- ===== src/Http2/Populate.antt =====
-- `populate_static_table` of beeper/src/http2/parser.rs. The kernel map is a parameter, and so is
-- `huffman::encode`.
use beeper.Prelude.{
  ℕ, zero, suc, ◌%◌, ◌≡◌, refl, ◌∙◌, Bool, true, false, not, ◌&&◌, ◌||◌, Option, none, some, List,
  [], ◌∷◌, ◌++◌, ◌-◌, ap, sym, nat_eq, ◌==◌, arith, length, inl, inr, bytes_eq,
}
use mathlib.Core.List.{Memᴰ}
use mathlib.Core.List.Memᴰ
use beeper.Utils.{take}
use beeper.Map.{insert}
use beeper.Error.{invalid_encoding, Result, ok, err}
use beeper.Http2.Connections.{and_then, and_then-ok}
use beeper.Http2.StaticTable.{
  StaticEntry, static_entries, collect, headers_without_values, headers_with_values, value_entries,
  field_entries, key_entries,
}
use beeper.Http2.AppendixA.{appendix_a, numbered, static_entries-AppendixA}

-- `struct http2_hdr_field` of beeper/include/beeper/http2.h
pub record HdrField : Type 0 where
  pub key : List ℕ
  pub key_len : ℕ
  pub val : List ℕ
  pub val_len : ℕ
  pub key_huff : ℕ
  pub val_huff : ℕ

-- `Vec::resize` with zeros
unfoldable pub resize : List ℕ → ℕ → List ℕ
resize xs zero = []
resize [] (suc n) = 0 ∷ resize [] n
resize (x ∷ xs) (suc n) = x ∷ resize xs n

unfoldable pub zeros : ℕ → List ℕ
zeros zero = []
zeros (suc n) = 0 ∷ zeros n

resize-nil : (n : ℕ) → resize [] n ≡ zeros n
unfolding resize zeros
resize-nil zero = refl
resize-nil (suc n) = ap (λ (xs : List ℕ). 0 ∷ xs) (resize-nil n)

resize-take : (xs : List ℕ) (n : ℕ) → resize xs n ≡ take n xs ++ zeros (n - length xs)
unfolding resize take zeros
resize-take xs zero = let none_left : 0 - length xs ≡ 0 = omega arith in rw none_left refl
resize-take [] (suc n) = let same : suc n - 0 ≡ suc n = omega arith in rw same (resize-nil (suc n))
resize-take (x ∷ xs) (suc n) =
    let same : suc n - suc (length xs) ≡ n - length xs = omega arith in
    rw same (ap (λ (ys : List ℕ). x ∷ ys) (resize-take xs n))

-- How a text that is coded as `code` lies in a field of the kernel map.
pub record IsLaidOut (code bytes : List ℕ) (len huff : ℕ) : Type 0 where
  pub content : bytes ≡ take 128 code ++ zeros (128 - length code)
  pub size : len ≡ length code % 256
  pub coded : huff ≡ 1

ok-eq : {A : Type 0} {a b : A} → ok a ≡ ok b → a ≡ b
ok-eq h = cc

module _ (huffman : List ℕ → Option (List ℕ)) where
  -- `huffman::encode(…)?`
  unfoldable pub encoded : List ℕ → Result (List ℕ)
  encoded text = elim (huffman text) [ none ↦ err invalid_encoding | some coded ↦ ok coded ]

  -- `hf_val`, which stays empty without a value
  unfoldable pub encoded_val : Option (List ℕ) → Result (List ℕ)
  unfolding encoded
  encoded_val none = ok []
  encoded_val (some val) = encoded val

  -- what `insert` writes for an entry
  unfoldable pub static_field : StaticEntry → Result HdrField
  unfolding encoded_val and_then resize
  static_field a = and_then (encoded a.key) (λ hf_key. and_then (encoded_val a.val) (λ hf_val.
      ok (record {
        key = resize hf_key 128;
        key_len = length hf_key % 256;
        val = resize hf_val 128;
        val_len = length hf_val % 256;
        key_huff = 1;
        val_huff = 1;
      })))

  -- The code of a value, and that of none.
  abbrev pub IsCodeOf : Option (List ℕ) → List ℕ → Type 0
  IsCodeOf none code = code ≡ []
  IsCodeOf (some text) code = huffman text ≡ some code

  -- A field of the kernel map is that of a row.
  abbrev pub IsCoded : StaticEntry → HdrField → Type 0
  IsCoded a f =
      (key val : List ℕ) × (huffman a.key ≡ some key)
      × IsCodeOf a.val val
      × IsLaidOut key f.key f.key_len f.key_huff
      × IsLaidOut val f.val f.val_len f.val_huff

  -- The table holds the row.
  abbrev pub Holds : {S : Type 0} → (S → ℕ → Option HdrField) → S → StaticEntry → Type 0
  Holds read s a = (f : HdrField) × IsCoded a f × (read s a.idx ≡ some f)

  encoded-ok :
      (text code : List ℕ) (o : Option (List ℕ))
      → huffman text ≡ o
      → encoded text ≡ ok code
      → huffman text ≡ some code
  unfolding encoded
  encoded-ok text code none e run = absurd (cc (rw (encoded, e) at run))
  encoded-ok text code (some c) e run =
      let same : ok c ≡ ok code = rw (encoded, e) at run in e ∙ ap some (ok-eq same)

  encoded_val-IsCodeOf :
      (o : Option (List ℕ)) (code : List ℕ) → encoded_val o ≡ ok code → IsCodeOf o code
  unfolding encoded_val
  encoded_val-IsCodeOf none code run = cc
  encoded_val-IsCodeOf (some text) code run = encoded-ok text code (huffman text) refl run

  static_field-IsCoded : (a : StaticEntry) (f : HdrField) → static_field a ≡ ok f → IsCoded a f
  unfolding static_field
  static_field-IsCoded a f run =
      let (key, coded_key, run₁) = and_then-ok (encoded a.key) _ f run in
      let (val, coded_val, same) = and_then-ok (encoded_val a.val) _ f run₁ in
      let e = ok-eq same in
      (
        key,
        val,
        encoded-ok a.key key (huffman a.key) refl coded_key,
        encoded_val-IsCodeOf a.val val coded_val,
        record {
          content = sym (ap (λ (x : HdrField). x.key) e) ∙ resize-take key 128;
          size = sym (ap (λ (x : HdrField). x.key_len) e);
          coded = sym (ap (λ (x : HdrField). x.key_huff) e);
        },
        record {
          content = sym (ap (λ (x : HdrField). x.val) e) ∙ resize-take val 128;
          size = sym (ap (λ (x : HdrField). x.val_len) e);
          coded = sym (ap (λ (x : HdrField). x.val_huff) e);
        },
      )

  module _ {S : Type 0} (update : ℕ → HdrField → S → Result S) (freeze : S → Result S) where
    unfoldable pub insert_entries : List StaticEntry → S → Result S
    unfolding static_field and_then
    insert_entries [] s = ok s
    insert_entries (a ∷ rest) s =
        and_then (static_field a) (λ f. and_then (update a.idx f s) (insert_entries rest))

    unfoldable pub populate_static_table : S → Result S
    unfolding insert_entries static_entries
    populate_static_table s = and_then (insert_entries static_entries s) freeze

    -- How the kernel's map behaves, when `read` tells what it holds.
    pub record IsTable (read : S → ℕ → Option HdrField) : Type 0 where
      pub written : (i : ℕ) (f : HdrField) (s s' : S) → update i f s ≡ ok s' → read s' i ≡ some f
      pub kept :
          (i j : ℕ) (f : HdrField) (s s' : S)
          → (i == j) ≡ false
          → update i f s ≡ ok s'
          → read s' j ≡ read s j
      pub frozen : (s s' : S) (j : ℕ) → freeze s ≡ ok s' → read s' j ≡ read s j

    unfoldable has_idx : ℕ → List StaticEntry → Bool
    has_idx i [] = false
    has_idx i (a ∷ rest) = a.idx == i || has_idx i rest

    unfoldable are_distinct : List StaticEntry → Bool
    unfolding has_idx
    are_distinct [] = true
    are_distinct (a ∷ rest) = not (has_idx a.idx rest) && are_distinct rest

    module _ (read : S → ℕ → Option HdrField) (t : IsTable read) where
      insert_entries-Holds :
          (es : List StaticEntry) (s s' : S)
          → are_distinct es ≡ true
          → insert_entries es s ≡ ok s'
          → ((a : StaticEntry) → Memᴰ a es → Holds read s' a)
            × ((j : ℕ) → has_idx j es ≡ false → read s' j ≡ read s j)
      unfolding insert_entries are_distinct has_idx
      insert_entries-Holds [] s s' d h =
          let same : s ≡ s' = cc in (λ a m. absurd (Memᴰ.not-nil m), λ j k. rw same refl)
      insert_entries-Holds (a ∷ rest) s s' d h =
          let (f, field, h₁) = and_then-ok (static_field a) _ s' h in
          let (s₁, wrote, h₂) = and_then-ok (update a.idx f s) (insert_entries rest) s' h₁ in
          let (there, kept) = insert_entries-Holds rest s₁ s' (ground arith) h₂ in
          (
            λ b m. elim (Memᴰ.cases_cons m) [
              | inl first ↦ rw first (
                f,
                static_field-IsCoded a f field,
                kept a.idx (ground arith) ∙ t.written a.idx f s s₁ wrote,
              )
              | inr later ↦ there b later
            ],
            λ j k. kept j (ground arith) ∙ t.kept a.idx j f s s₁ (ground arith) wrote,
          )

      static_entries-distinct : are_distinct static_entries ≡ true
      unfolding are_distinct has_idx static_entries field_entries key_entries value_entries
          headers_with_values headers_without_values collect insert
      static_entries-distinct = refl

      -- For a kernel map that keeps what it is told to write: if filling the static table succeeds, then
      -- under the number of every row of appendix A of RFC 7541 it holds a field with the Huffman
      -- code of the name of that row and of its value, or no bytes where the row has no value: the
      -- first 128 bytes of each, filled up with zeros, its length modulo 256, and the mark that it is
      -- Huffman coded.
      pub populate_static_table-Holds :
          (s s' : S) (a : StaticEntry)
          → populate_static_table s ≡ ok s'
          → Memᴰ a (numbered 1 appendix_a)
          → Holds read s' a
      unfolding populate_static_table
      populate_static_table-Holds s s' a run row =
          let (s₁, filled, done) = and_then-ok (insert_entries static_entries s) freeze s' run in
          let (f, coded, there) =
            (insert_entries-Holds static_entries s s₁ static_entries-distinct filled).0 a
              ((static_entries-AppendixA a).0.1 row) in
          (f, coded, t.frozen s₁ s' a.idx done ∙ there)
