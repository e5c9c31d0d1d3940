-- ===== src/Attach/Linking.antt =====
-- The links that `attach` makes (beeper/src/http1/parser.rs and beeper/src/http2/parser.rs).
use mathlib.Core.Path.{subst}
use beeper.Prelude.{
  ℕ, ◌≡◌, refl, sym, Bool-cases, ◌==◌, Option, none, some, List, [], ◌∷◌, ◌++◌, if◌then◌else◌, inl,
  inr,
}
use mathlib.Core.Logic.{◌⊎◌}
use mathlib.Core.List.{Memᴰ}
use mathlib.Core.List.Memᴰ
use beeper.Error.{buffer_eq, ok}
use beeper.Http2.Connections.{and_then-ok}
use beeper.Attach.{
  Program, program_eq, program_beq_iff, matched, get_dt_entry, Skel, Config, parse_programs,
  get_programs, option_program, link_each, link_all,
}
use beeper.Attach.Replaced.{replaced, configured}

module _ {S L K T : Type 0} (skel : Skel S L K T) where
  -- One of the links is that of `q`.
  abbrev pub IsLinked : Program → L → List K → Type 0
  IsLinked q l ks = (k : K) × Memᴰ k ks × (skel.link q l ≡ ok k)

  link_each-IsLinked :
      (q : Program) (func : List ℕ) (progs : List (Program × List ℕ)) (o : Option (List ℕ)) (l : L)
      (ks : List K)
      → link_each skel progs l ≡ ok ks
      → replaced q progs o ≡ some func
      → IsLinked q l ks ⊎ (o ≡ some func)
  unfolding link_each replaced
  link_each-IsLinked q func [] o l ks run h = inr h
  link_each-IsLinked q func ((prog, f) ∷ progs) o l ks run h =
      let (k, one, run₁) = and_then-ok (skel.link prog l) _ ks run in
      let (ks₁, rest, same) = and_then-ok (link_each skel progs l) _ ks run₁ in
      let e : k ∷ ks₁ ≡ ks = cc in
      elim (link_each-IsLinked q func progs (if prog == q then some f else o) l ks₁ rest h) [
        | inl (j, there, linked) ↦ inl (j, (rw (sym e) (Memᴰ.tail there)), linked)
        | inr before ↦ elim (Bool-cases (prog == q)) [
          | inl here ↦
              let p : prog ≡ q = (program_beq_iff prog q).0 here in
              inl (k, (rw (sym e) (Memᴰ.head refl)), (rw (sym p) one))
          | inr other ↦ inr (rw other at before)
        ]
      ]

  pub link_all-IsLinked :
      (q : Program) (func : List ℕ) (c : Config) (l : L) (ks : List K)
      → link_all skel c l ≡ ok ks
      → configured c q ≡ some func
      → IsLinked q l ks
  unfolding link_all configured
  link_all-IsLinked q func c l ks run h =
      let (ks₁, parse, run₁) =
        and_then-ok (link_each skel (parse_programs c.parse_fns) l) _ ks run in
      let (ks₂, match, run₂) =
        and_then-ok (link_each skel (option_program matched c.matched_fn) l) _ ks run₁ in
      let (ks₃, get, run₃) = and_then-ok (link_each skel (get_programs c.get_fns) l) _ ks run₂ in
      let (ks₄, entry, same) =
        and_then-ok (link_each skel (option_program get_dt_entry c.get_dynamic_table_entry_fn) l) _
          ks run₃ in
      let e : ks₁ ++ (ks₂ ++ (ks₃ ++ ks₄)) ≡ ks = cc in
      subst (IsLinked q l) e
        (elim (link_each-IsLinked q func (option_program get_dt_entry c.get_dynamic_table_entry_fn)
          _ l ks₄ entry h) [
            | inl (k, there, linked) ↦ (
              k,
              Memᴰ.append_right ks₁ (Memᴰ.append_right ks₂ (Memᴰ.append_right ks₃ there)),
              linked,
            )
            | inr h₃ ↦ elim (link_each-IsLinked q func (get_programs c.get_fns) _ l ks₃ get h₃) [
              | inl (k, there, linked) ↦ (
                k,
                Memᴰ.append_right ks₁ (Memᴰ.append_right ks₂ (Memᴰ.append_left ks₄ there)),
                linked,
              )
              | inr h₂ ↦
                  elim (link_each-IsLinked q func (option_program matched c.matched_fn) _ l ks₂
                    match h₂) [
                      | inl (k, there, linked) ↦
                          (k, Memᴰ.append_right ks₁ (Memᴰ.append_left (ks₃ ++ ks₄) there), linked)
                      | inr h₁ ↦
                          elim (link_each-IsLinked q func (parse_programs c.parse_fns) none l ks₁
                            parse h₁) [
                              | inl (k, there, linked) ↦
                                  (k, Memᴰ.append_left (ks₂ ++ (ks₃ ++ ks₄)) there, linked)
                              | inr nothing ↦ absurd (cc nothing)
                            ]
                    ]
            ]
          ])
