-- ===== src/Attach/Objects.antt =====
-- How `attach` sets an opened object up for loading (beeper/src/http1/parser.rs and
-- beeper/src/http2/parser.rs), and what it relies on in libbpf.
use beeper.Prelude.{
  ℕ, ◌≡◌, sym, ◌∙◌, Bool, true, false, Bool-cases, ◌==◌, ==_refl, ap, Option, none, some, List, [],
  ◌∷◌, if◌then◌else◌, inl, inr,
}
use mathlib.Core.List.{Memᴰ}
use mathlib.Core.List.Memᴰ
use beeper.Error.{buffer_eq, ok}
use beeper.Http2.Connections.{and_then-ok}
use beeper.Attach.{
  Program, program_eq, program_beq_iff, matched, get_dt_entry, Skel, Config, parse_programs,
  get_programs, option_program, disable, replace, replace_each, configure,
}
use beeper.Attach.Replaced.{replaced, configured}

-- How an opened object behaves, when `autoload` and `target_of` tell what it holds: each call changes
-- what it is called for, and nothing else.
pub record IsObject {S L K T : Type 0} (skel : Skel S L K T) (autoload : Program → S → Bool)
    (target_of : Program → S → Option (ℕ × List ℕ)) : Type 0 where
  pub turned :
      (prog : Program) (on : Bool) (s : S) → autoload prog (skel.set_autoload prog on s) ≡ on
  pub turned_other :
      (prog other : Program) (on : Bool) (s : S)
      → (prog == other) ≡ false
      → autoload other (skel.set_autoload prog on s) ≡ autoload other s
  pub turned_target :
      (prog other : Program) (on : Bool) (s : S)
      → target_of other (skel.set_autoload prog on s) ≡ target_of other s
  pub aimed :
      (prog : Program) (target : ℕ) (func : List ℕ) (s s' : S)
      → skel.set_attach_target prog target func s ≡ ok s'
      → target_of prog s' ≡ some (target, func)
  pub aimed_other :
      (prog other : Program) (target : ℕ) (func : List ℕ) (s s' : S)
      → skel.set_attach_target prog target func s ≡ ok s'
      → (prog == other) ≡ false
      → target_of other s' ≡ target_of other s
  pub aimed_autoload :
      (prog other : Program) (target : ℕ) (func : List ℕ) (s s' : S)
      → skel.set_attach_target prog target func s ≡ ok s'
      → autoload other s' ≡ autoload other s
  pub written_autoload :
      (other : Program) (tables : T) (s : S)
      → autoload other (skel.write tables s) ≡ autoload other s
  pub written_target :
      (other : Program) (tables : T) (s : S)
      → target_of other (skel.write tables s) ≡ target_of other s

abbrev pub is_some : Option (List ℕ) → Bool
is_some none = false
is_some (some func) = true

module _ {S : Type 0} (autoload : Program → S → Bool)
    (target_of : Program → S → Option (ℕ × List ℕ)) where
  -- `q` is loaded just if it is to replace a function, and then it is aimed at that of the target.
  abbrev pub IsAimed : ℕ → Program → Option (List ℕ) → S → Type 0
  IsAimed target q o s =
      (autoload q s ≡ is_some o)
      × ((func : List ℕ) → o ≡ some func → target_of q s ≡ some (target, func))

module _ {S L K T : Type 0} (skel : Skel S L K T) (autoload : Program → S → Bool)
    (target_of : Program → S → Option (ℕ × List ℕ)) (laws : IsObject skel autoload target_of) where
  pub disable_off :
      (q : Program) (progs : List Program) (s : S)
      → (autoload q s ≡ true → Memᴰ q progs)
      → autoload q (disable skel progs s) ≡ false
  unfolding disable
  disable_off q [] s listed = elim (Bool-cases (autoload q s)) [
    | inl on ↦ absurd (Memᴰ.not-nil (listed on))
    | inr off ↦ off
  ]
  disable_off q (prog ∷ progs) s listed =
      disable_off q progs (skel.set_autoload prog false s) (λ on. elim (Bool-cases (prog == q)) [
        | inl same ↦
            let p : q ≡ prog = sym ((program_beq_iff prog q).0 same) in
            let off = laws.turned prog false s in
            let on' : autoload prog (skel.set_autoload prog false s) ≡ true = rw p at on in
            absurd (cc (on', off))
        | inr other ↦
            elim (Memᴰ.cases_cons (listed (sym (laws.turned_other prog q false s other) ∙ on))) [
              | inl first ↦ absurd (cc (other, (program_beq_iff prog q).1 (sym first)))
              | inr later ↦ later
            ]
      ])

  replace-IsAimed :
      (target : ℕ) (q prog : Program) (func : List ℕ) (o : Option (List ℕ)) (s s' : S)
      → IsAimed autoload target_of target q o s
      → replace skel target prog func s ≡ ok s'
      → IsAimed autoload target_of target q (if prog == q then some func else o) s'
  unfolding replace
  replace-IsAimed target q prog func o s s' h run =
      let s₀ : S = skel.set_autoload prog true s in
      elim (Bool-cases (prog == q)) [
        | inl same ↦
            let p : prog ≡ q = (program_beq_iff prog q).0 same in
            rw (sym p, ==_refl prog)
              (
                laws.aimed_autoload prog prog target func s₀ s' run ∙ laws.turned prog true s,
                λ f e.
                    laws.aimed prog target func s₀ s' run
                    ∙ ap (λ (f : List ℕ). some (target, f)) (cc),
              )
        | inr other ↦ rw other (
          laws.aimed_autoload prog q target func s₀ s' run
              ∙ laws.turned_other prog q true s other
              ∙ h.0,
          λ f e.
              laws.aimed_other prog q target func s₀ s' run other
              ∙ laws.turned_target prog q true s
              ∙ h.1 f e,
        )
      ]

  replace_each-IsAimed :
      (target : ℕ) (q : Program) (progs : List (Program × List ℕ)) (o : Option (List ℕ)) (s s' : S)
      → IsAimed autoload target_of target q o s
      → replace_each skel target progs s ≡ ok s'
      → IsAimed autoload target_of target q (replaced q progs o) s'
  unfolding replace_each replaced
  replace_each-IsAimed target q [] o s s' h run = let e : s ≡ s' = cc in rw (sym e) h
  replace_each-IsAimed target q ((prog, func) ∷ progs) o s s' h run =
      let (s₁, first, rest) =
        and_then-ok (replace skel target prog func s) (replace_each skel target progs) s' run in
      replace_each-IsAimed target q progs (if prog == q then some func else o) s₁ s'
        (replace-IsAimed target q prog func o s s₁ h first) rest

  pub configure-IsAimed :
      (target : ℕ) (c : Config) (q : Program) (s s' : S)
      → IsAimed autoload target_of target q none s
      → configure skel target c s ≡ ok s'
      → IsAimed autoload target_of target q (configured c q) s'
  unfolding configure configured
  configure-IsAimed target c q s s' h run =
      let (s₁, parse, run₁) =
        and_then-ok (replace_each skel target (parse_programs c.parse_fns) s) _ s' run in
      let (s₂, match, run₂) =
        and_then-ok (replace_each skel target (option_program matched c.matched_fn) s₁) _ s' run₁ in
      let (s₃, get, entry) =
        and_then-ok (replace_each skel target (get_programs c.get_fns) s₂) _ s' run₂ in
      let h₁ = replace_each-IsAimed target q (parse_programs c.parse_fns) none s s₁ h parse in
      let h₂ =
        replace_each-IsAimed target q (option_program matched c.matched_fn) _ s₁ s₂ h₁ match in
      let h₃ = replace_each-IsAimed target q (get_programs c.get_fns) _ s₂ s₃ h₂ get in
      replace_each-IsAimed target q (option_program get_dt_entry c.get_dynamic_table_entry_fn) _ s₃
        s' h₃ entry
