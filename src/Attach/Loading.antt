-- ===== src/Attach/Loading.antt =====
-- What `attach` loads, with the behaviour of libbpf that it relies on: beeper/src/http1/parser.rs and
-- beeper/src/http2/parser.rs.
use beeper.Prelude.{ℕ, ◌≡◌, refl, sym, ◌∙◌, Bool, true, ap, Option, some, List}
use mathlib.Core.List.{Memᴰ}
use beeper.Run.{Run, returns, >>=-eq-returns}
use beeper.Map.{IsUnique}
use beeper.Error.{buffer_eq, Result, ok, err}
use beeper.Http2.Connections.{and_then-ok}
use beeper.Attach.{
  Program, program_eq, Skel, Config, disable, configure, link_all, load_linked, injected, attach,
}
use beeper.Attach.Objects.{IsObject, IsAimed, disable_off, configure-IsAimed}
use beeper.Attach.Linking.{IsLinked, link_all-IsLinked}
use beeper.Attach.Replaced.{function_of, configured-function_of}

module _ {S L K T : Type 0} (skel : Skel S L K T) where
  load_linked-ok :
      (c : Config) (s : S) (tables : Result T) (l : L) (ks : List K)
      → load_linked skel c s tables ≡ ok (l, ks)
      → (t : T) × (tables ≡ ok t)
        × (skel.load (skel.write t s) ≡ ok l)
        × (link_all skel c l ≡ ok ks)
  unfolding load_linked
  load_linked-ok c s (err e) l ks run = absurd (cc run)
  load_linked-ok c s (ok t) l ks run =
      let (l', loaded, rest) = and_then-ok (skel.load (skel.write t s)) _ (l, ks) run in
      let (ks', linked, same) = and_then-ok (link_all skel c l') _ (l, ks) rest in
      let e : (l', ks') ≡ (l, ks) = cc in
      let one : l' ≡ l = ap (λ (x : L × List K). x.0) e in
      let two : ks' ≡ ks = ap (λ (x : L × List K). x.1) e in
      (t, refl, rw one at loaded, rw (one, two) at linked)

  injected-ok :
      (c : Config) (inject : Run (Result T)) (r : Result S) (l : L) (ks : List K)
      → injected skel c inject r ≡ returns (ok (l, ks))
      → (s : S) × (t : T) × (r ≡ ok s)
        × (inject ≡ returns (ok t))
        × (skel.load (skel.write t s) ≡ ok l)
        × (link_all skel c l ≡ ok ks)
  unfolding injected
  injected-ok c inject (err e) l ks run = absurd (cc run)
  injected-ok c inject (ok s) l ks run =
      let (tables, ran, rest) = >>=-eq-returns inject _ run in
      let (t, same, loaded, linked) = load_linked-ok c s tables l ks (cc) in
      (s, t, refl, rw same at ran, loaded, linked)

  module _ (autoload : Program → S → Bool) (target_of : Program → S → Option (ℕ × List ℕ)) where
    -- The tables are written into the object that is loaded, which has a program just if `c`
    -- has a function for it. The program replaces that function of the target, and is linked.
    pub record IsLoaded (target : ℕ) (c : Config) (t : T) (l : L) (ks : List K) : Type 0 where
      pub opened : S
      pub loads : skel.load (skel.write t opened) ≡ ok l
      pub aims :
          (q : Program)
          → IsAimed autoload target_of target q (function_of c q) (skel.write t opened)
      pub links : (q : Program) (func : List ℕ) → function_of c q ≡ some func → IsLinked skel q l ks

    pub attach-IsLoaded :
        (laws : IsObject skel autoload target_of) (target : ℕ) (c : Config) (progs : List Program)
        (inject : Run (Result T)) (s : S) (l : L) (ks : List K)
        → IsUnique c.parse_fns
        → IsUnique c.get_fns
        → ((q : Program) → autoload q s ≡ true → Memᴰ q progs)
        → attach skel target c progs inject s ≡ returns (ok (l, ks))
        → (t : T) × (inject ≡ returns (ok t)) × IsLoaded target c t l ks
    unfolding attach
    attach-IsLoaded laws target c progs inject s l ks u v listed run =
        let (s', t, ran, injects, loaded, linked) =
          injected-ok c inject (configure skel target c (disable skel progs s)) l ks run in
        (
          t,
          injects,
          record {
            opened = s';
            loads = loaded;
            aims = λ q.
                let off = disable_off skel autoload target_of laws q progs s (listed q) in
                let (load, aim) =
                  configure-IsAimed skel autoload target_of laws target c q (disable skel progs s)
                    s' (off, λ func e. absurd (cc e)) ran in
                rw (sym (configured-function_of c q u v)) (
                  laws.written_autoload q t s' ∙ load,
                  λ func e. laws.written_target q t s' ∙ aim func e,
                );
            links = λ q func h.
                link_all-IsLinked skel q func c l ks linked (configured-function_of c q u v ∙ h);
          },
        )
