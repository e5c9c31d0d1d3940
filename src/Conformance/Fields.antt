-- ===== src/Conformance/Fields.antt =====
-- The fields that the conformance harness expects of a request and of the server's answer to it
-- (`expected_fields` and `response_fields` in utils/src/bin/conformance/main.rs).
use beeper.Prelude.{
  ℕ, ◌≡◌, refl, true, false, ◌||◌, Option, none, some, List, [], ◌∷◌, ◌++◌, All, codes, nat_eq,
  bytes_eq, ◌==◌, ==_refl, if◌then◌else◌, Bool-cases, inl, inr,
}
use beeper.Map.{Map, lookup, insert, lookup-insert}
use beeper.Conformance.{
  Value, str, raw_bytes, authority, dummy, Expected, value, expected, starts_with,
}

-- A header field, by name and value.
abbrev pub Field : Type 0
Field = List ℕ × Value

abbrev pub Fields : Type 0
Fields = Map (List ℕ) Expected

unfoldable pub collect_fields : Fields → List Field → List ℕ → Fields
collect_fields m [] addr = m
collect_fields m ((name, v) ∷ block) addr =
    collect_fields (insert name (expected v addr) m) block addr

unfoldable pub expected_fields : List Field → List ℕ → Fields
unfolding collect_fields
expected_fields block addr = collect_fields [] block addr

unfoldable pub method_of_field : Field → Option (List ℕ)
method_of_field (name, str s) = if name == codes ":method" then some s else none
method_of_field (name, raw_bytes bytes) = none
method_of_field (name, authority) = none
method_of_field (name, dummy) = none

unfoldable pub or_else : Option (List ℕ) → Option (List ℕ) → Option (List ℕ)
or_else (some m) other = some m
or_else none other = other

-- the method that stands last
unfoldable pub last_method : List Field → Option (List ℕ)
unfolding method_of_field or_else
last_method [] = none
last_method (f ∷ block) = or_else (last_method block) (method_of_field f)

-- A field whose name does not start with `:` is echoed.
unfoldable pub echo : List ℕ → Fields → Field → Fields
unfolding starts_with
echo addr m (name, v) = if starts_with name (codes ":") then m else insert name (expected v addr) m

unfoldable pub echo_fields : Fields → List Field → List ℕ → Fields
unfolding echo
echo_fields m [] addr = m
echo_fields m (f ∷ block) addr = echo_fields (echo addr m f) block addr

unfoldable pub answered : Fields
answered = insert (codes "content-length") (value (codes "6")) (
    insert (codes "content-type") (value (codes "text/plain; charset=utf-8"))
      (insert (codes ":status") (value (codes "200")) []))

unfoldable pub not_allowed : Fields
not_allowed = insert (codes "content-length") (value (codes "0")) (
    insert (codes "allow") (value (codes "GET,HEAD"))
      (insert (codes ":status") (value (codes "405")) []))

unfoldable pub answer : List Field → List ℕ → Option (List ℕ) → Option Fields
unfolding echo_fields answered not_allowed
answer block addr none = none
answer block addr (some method) =
    if method == codes "GET" || method == codes "HEAD"
    then some (echo_fields answered block addr)
    else some not_allowed

unfoldable pub response_fields : List Field → List ℕ → Option Fields
unfolding answer last_method
response_fields block addr = answer block addr (last_method block)

-- No field of the block has this name.
abbrev pub IsAbsent : List ℕ → List Field → Type 0
IsAbsent name = All (λ (f : Field). (f.0 == name) ≡ false)

module _ (addr name : List ℕ) where
  collect_fields-absent :
      (m : Fields) (block : List Field)
      → IsAbsent name block
      → lookup name (collect_fields m block addr) ≡ lookup name m
  unfolding collect_fields
  collect_fields-absent m [] h = refl
  collect_fields-absent m ((other, v) ∷ block) h =
      rw
        (
          collect_fields-absent (insert other (expected v addr) m) block h.1,
          lookup-insert other name (expected v addr) m,
          h.0,
        )
        refl

  collect_fields-last :
      (m : Fields) (before after : List Field) (v : Value)
      → IsAbsent name after
      → lookup name (collect_fields m (before ++ (name, v) ∷ after) addr) ≡ some (expected v addr)
  unfolding collect_fields
  collect_fields-last m [] after v h =
      rw
        (
          collect_fields-absent (insert name (expected v addr) m) after h,
          lookup-insert name name (expected v addr) m,
          ==_refl name,
        )
        refl
  collect_fields-last m ((other, w) ∷ before) after v h =
      collect_fields-last (insert other (expected w addr) m) before after v h

  names-differ :
      (other : List ℕ)
      → starts_with name (codes ":") ≡ true
      → starts_with other (codes ":") ≡ false
      → (other == name) ≡ false
  names-differ other h f = elim (Bool-cases (other == name)) [
    | inr d ↦ d
    | inl same ↦
        let p : other ≡ name = (bytes_eq.beq_iff other name).0 same in
        let q : starts_with name (codes ":") ≡ false = rw p at f in absurd (cc)
  ]

  echo-pseudo :
      (m : Fields) (f : Field)
      → starts_with name (codes ":") ≡ true
      → lookup name (echo addr m f) ≡ lookup name m
  unfolding echo
  echo-pseudo m (other, v) h = elim (Bool-cases (starts_with other (codes ":"))) [
    | inl skip ↦ rw skip refl
    | inr f ↦ rw (f, lookup-insert other name (expected v addr) m, names-differ other h f) refl
  ]

  echo-regular :
      (m : Fields) (other : List ℕ) (v : Value)
      → starts_with name (codes ":") ≡ false
      → lookup name (echo addr m (other, v)) ≡ lookup name (insert other (expected v addr) m)
  unfolding echo
  echo-regular m other v h = elim (Bool-cases (starts_with other (codes ":"))) [
    | inr f ↦ rw f refl
    | inl skip ↦ elim (Bool-cases (other == name)) [
      | inr d ↦ rw (skip, lookup-insert other name (expected v addr) m, d) refl
      | inl same ↦
          let p : other ≡ name = (bytes_eq.beq_iff other name).0 same in
          let q : starts_with name (codes ":") ≡ true = rw p at skip in absurd (cc)
    ]
  ]

  insert-same :
      (m m' : Fields) (other : List ℕ) (x : Expected)
      → lookup name m ≡ lookup name m'
      → lookup name (insert other x m) ≡ lookup name (insert other x m')
  insert-same m m' other x e =
      rw (lookup-insert other name x m, lookup-insert other name x m', e) refl

  -- The echo of a request leaves a pseudo-header field of the answer alone.
  echo_fields-pseudo :
      (m : Fields) (block : List Field)
      → starts_with name (codes ":") ≡ true
      → lookup name (echo_fields m block addr) ≡ lookup name m
  unfolding echo_fields
  echo_fields-pseudo m [] h = refl
  echo_fields-pseudo m ((other, v) ∷ block) h =
      rw (echo_fields-pseudo (echo addr m (other, v)) block h) (echo-pseudo m (other, v) h)

  echo_fields-collects :
      (m m' : Fields) (block : List Field)
      → starts_with name (codes ":") ≡ false
      → lookup name m ≡ lookup name m'
      → lookup name (echo_fields m block addr) ≡ lookup name (collect_fields m' block addr)
  unfolding echo_fields collect_fields
  echo_fields-collects m m' [] h e = e
  echo_fields-collects m m' ((other, v) ∷ block) h e =
      echo_fields-collects (echo addr m (other, v)) (insert other (expected v addr) m') block h
        (rw (echo-regular m other v h) (insert-same m m' other (expected v addr) e))

answered-status : lookup (codes ":status") answered ≡ some (value (codes "200"))
unfolding answered insert lookup
answered-status = refl

status-pseudo : starts_with (codes ":status") (codes ":") ≡ true
unfolding starts_with
status-pseudo = refl

-- The name of a regular field does not start with `:`, and a request is answered if its last method is
-- GET or HEAD. Such a request has expected fields of its answer; of a regular field that the request
-- sends, both the answer and the request are expected to carry the last value sent, whatever the
-- server would otherwise put there; and the status of the answer is 200, whatever the request sends.
pub response_fields-Echoes :
    (addr name : List ℕ) (before after : List Field) (v : Value) (method : List ℕ)
    → starts_with name (codes ":") ≡ false
    → IsAbsent name after
    → last_method (before ++ (name, v) ∷ after) ≡ some method
    → (method == codes "GET" || method == codes "HEAD") ≡ true
    → (fields : Fields) × (response_fields (before ++ (name, v) ∷ after) addr ≡ some fields)
      × (lookup name fields ≡ some (expected v addr))
      × (lookup name (expected_fields (before ++ (name, v) ∷ after) addr) ≡ some (expected v addr))
      × (lookup (codes ":status") fields ≡ some (value (codes "200")))
unfolding response_fields expected_fields answer
response_fields-Echoes addr name before after v method regular last sent get =
    let block : List Field = before ++ (name, v) ∷ after in
    (
      echo_fields answered block addr,
      rw (sent, get) refl,
      rw (echo_fields-collects addr name answered answered block regular refl)
          (collect_fields-last addr name answered before after v last),
      collect_fields-last addr name [] before after v last,
      rw (echo_fields-pseudo addr (codes ":status") answered block status-pseudo) answered-status,
    )
