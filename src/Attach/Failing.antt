-- ===== src/Attach/Failing.antt =====
-- When `attach` fails (beeper/src/http1/parser.rs, beeper/src/http2/parser.rs): if libbpf does what it
-- is asked, then only over `inject`.
use beeper.Prelude.{ℕ, ◌≡◌, refl, true, List, [], ◌∷◌, ◌++◌}
use beeper.Run.{Run, returns}
use beeper.Error.{Result, ok, err}
use beeper.Http2.Connections.{and_then}
use beeper.Attach.{
  Program, matched, get_dt_entry, Skel, Config, parse_programs, get_programs, option_program,
  disable, replace, replace_each, configure, link_each, link_all, load_linked, injected, attach,
}

-- Every call succeeds.
pub record Obliges {S L K T : Type 0} (skel : Skel S L K T) : Type 0 where
  pub aims :
      (prog : Program) (target : ℕ) (func : List ℕ) (s : S)
      → (s' : S) × (skel.set_attach_target prog target func s ≡ ok s')
  pub loads : (s : S) → (l : L) × (skel.load s ≡ ok l)
  pub links : (prog : Program) (l : L) → (k : K) × (skel.link prog l ≡ ok k)

-- A result that is one just if the tables are, with the same error.
abbrev pub Follows {ℓ κ} : {A : Type ℓ} {B : Type κ} → Result A → Result B → Type 0
Follows (ok a) (ok b) = Unit
Follows (err e) (err f) = e ≡ f
Follows _ _ = ⊥

module _ {S L K T : Type 0} (skel : Skel S L K T) (o : Obliges skel) where
  replace_each-ok :
      (target : ℕ) (progs : List (Program × List ℕ)) (s : S)
      → (s' : S) × (replace_each skel target progs s ≡ ok s')
  unfolding replace_each replace and_then
  replace_each-ok target [] s = (s, refl)
  replace_each-ok target ((prog, func) ∷ progs) s =
      let (s₁, aimed) = o.aims prog target func (skel.set_autoload prog true s) in
      let (s₂, rest) = replace_each-ok target progs s₁ in (s₂, rw aimed rest)

  configure-ok : (target : ℕ) (c : Config) (s : S) → (s' : S) × (configure skel target c s ≡ ok s')
  unfolding configure and_then
  configure-ok target c s =
      let (s₁, parse) = replace_each-ok target (parse_programs c.parse_fns) s in
      let (s₂, match) = replace_each-ok target (option_program matched c.matched_fn) s₁ in
      let (s₃, get) = replace_each-ok target (get_programs c.get_fns) s₂ in
      let (s₄, entry) =
        replace_each-ok target (option_program get_dt_entry c.get_dynamic_table_entry_fn) s₃ in
      (s₄, rw (parse, match, get) entry)

  link_each-ok :
      (progs : List (Program × List ℕ)) (l : L) → (ks : List K) × (link_each skel progs l ≡ ok ks)
  unfolding link_each and_then
  link_each-ok [] l = ([], refl)
  link_each-ok ((prog, func) ∷ progs) l =
      let (k, linked) = o.links prog l in
      let (ks, rest) = link_each-ok progs l in (k ∷ ks, rw (linked, rest) refl)

  link_all-ok : (c : Config) (l : L) → (ks : List K) × (link_all skel c l ≡ ok ks)
  unfolding link_all and_then
  link_all-ok c l =
      let (ks₁, parse) = link_each-ok (parse_programs c.parse_fns) l in
      let (ks₂, match) = link_each-ok (option_program matched c.matched_fn) l in
      let (ks₃, get) = link_each-ok (get_programs c.get_fns) l in
      let (ks₄, entry) =
        link_each-ok (option_program get_dt_entry c.get_dynamic_table_entry_fn) l in
      (ks₁ ++ (ks₂ ++ (ks₃ ++ ks₄)), rw (parse, match, get, entry) refl)

  load_linked-Follows : (c : Config) (s : S) (r : Result T) → Follows r (load_linked skel c s r)
  unfolding load_linked and_then
  load_linked-Follows c s (err e) = refl
  load_linked-Follows c s (ok t) =
      let (l, loaded) = o.loads (skel.write t s) in
      let (ks, linked) = link_all-ok c l in rw (loaded, linked) tt

  -- If every call of libbpf succeeds and the injection of the tables returns, then `attach` returns: an
  -- attached parser if there are tables, and the error of the injection otherwise.
  pub attach-Follows :
      (target : ℕ) (c : Config) (progs : List Program) (inject : Run (Result T)) (r : Result T)
      (s : S)
      → inject ≡ returns r
      → (x : Result (L × List K)) × (attach skel target c progs inject s ≡ returns x) × Follows r x
  unfolding attach injected
  attach-Follows target c progs inject r s run =
      let (s', configured) = configure-ok target c (disable skel progs s) in
      (load_linked skel c s' r, rw (configured, run) refl, load_linked-Follows c s' r)
