-- ===== src/Attach.antt =====
-- How both parsers are loaded and attached: `attach` of beeper/src/http1/parser.rs and of
-- beeper/src/http2/parser.rs. The opened and the loaded object of libbpf, and its links, are the
-- parameter `Skel`. Log levels are left out; `load` includes the set-up of tracing, which may fail.
pub mod Replaced
pub mod Objects
pub mod Linking
pub mod Loading
pub mod Parsers
pub mod Returning
pub mod Contents
pub mod Failing
pub mod Outcomes
pub mod Messages
use beeper.Prelude.{
  ℕ, ◌≡◌, ◌≢◌, ◌↔◌, Bool, true, false, Option, none, some, List, [], ◌∷◌, ◌++◌, map, Eq, arith,
}
use beeper.Run.{Run, returns, ◌>>=◌}
use beeper.Map.{Map}
use beeper.Error.{MessageBuffer, skb, msg, Result, ok, err}
use beeper.Http2.Connections.{and_then}

-- The programs of the two skeletons; only that of HTTP/2 has `get_dt_entry`.
pub data Program : Type 0 where
  parse_msg parse_skb matched get_match_msg get_match_skb get_dt_entry : Program

abbrev pub program_beq : Program → Program → Bool
program_beq parse_msg parse_msg = true
program_beq parse_skb parse_skb = true
program_beq matched matched = true
program_beq get_match_msg get_match_msg = true
program_beq get_match_skb get_match_skb = true
program_beq get_dt_entry get_dt_entry = true
program_beq _ _ = false

pub program_beq_iff : (a b : Program) → (program_beq a b ≡ true) ↔ (a ≡ b)
program_beq_iff a b = ground arith

instance abbrev pub program_eq : Eq Program
program_eq = record { beq = program_beq; beq_iff = program_beq_iff }

-- `S` is an opened object, `L` a loaded one, `K` a link, and `T` what `inject` writes.
pub record Skel (S L K T : Type 0) : Type 0 where
  pub set_autoload : Program → Bool → S → S
  pub set_attach_target : Program → ℕ → List ℕ → S → Result S
  pub write : T → S → S
  pub load : S → Result L
  pub link : Program → L → Result K

-- What a parser is configured with.
pub record Config : Type 0 where
  pub parse_fns : Map MessageBuffer (List ℕ)
  pub matched_fn : Option (List ℕ)
  pub get_fns : Map MessageBuffer (List ℕ)
  pub get_dynamic_table_entry_fn : Option (List ℕ)

unfoldable pub parse_programs : Map MessageBuffer (List ℕ) → List (Program × List ℕ)
parse_programs [] = []
parse_programs ((msg, func) ∷ fns) = (parse_msg, func) ∷ parse_programs fns
parse_programs ((skb, func) ∷ fns) = (parse_skb, func) ∷ parse_programs fns

unfoldable pub get_programs : Map MessageBuffer (List ℕ) → List (Program × List ℕ)
get_programs [] = []
get_programs ((msg, func) ∷ fns) = (get_match_msg, func) ∷ get_programs fns
get_programs ((skb, func) ∷ fns) = (get_match_skb, func) ∷ get_programs fns

unfoldable pub option_program : Program → Option (List ℕ) → List (Program × List ℕ)
option_program prog none = []
option_program prog (some func) = (prog, func) ∷ []

module _ {S L K T : Type 0} (skel : Skel S L K T) where
  -- the loop that turns off the programs of the object
  unfoldable pub disable : List Program → S → S
  disable [] s = s
  disable (prog ∷ progs) s = disable progs (skel.set_autoload prog false s)

  unfoldable pub replace : ℕ → Program → List ℕ → S → Result S
  replace target prog func s =
      skel.set_attach_target prog target func (skel.set_autoload prog true s)

  -- the loops over `parse_fns` and `get_fns`, and the conditions on the others
  unfoldable pub replace_each : ℕ → List (Program × List ℕ) → S → Result S
  unfolding replace and_then
  replace_each target [] s = ok s
  replace_each target ((prog, func) ∷ progs) s =
      and_then (replace target prog func s) (replace_each target progs)

  unfoldable pub configure : ℕ → Config → S → Result S
  unfolding replace_each parse_programs get_programs option_program
  configure target c s = and_then (replace_each target (parse_programs c.parse_fns) s) (λ s₁.
      and_then (replace_each target (option_program matched c.matched_fn) s₁) (λ s₂.
        and_then (replace_each target (get_programs c.get_fns) s₂) (λ s₃.
          replace_each target (option_program get_dt_entry c.get_dynamic_table_entry_fn) s₃)))

  unfoldable pub link_each : List (Program × List ℕ) → L → Result (List K)
  unfolding and_then
  link_each [] l = ok []
  link_each ((prog, func) ∷ progs) l =
      and_then (skel.link prog l) (λ k. and_then (link_each progs l) (λ ks. ok (k ∷ ks)))

  unfoldable pub link_all : Config → L → Result (List K)
  unfolding link_each
  link_all c l = and_then (link_each (parse_programs c.parse_fns) l) (λ ks₁.
      and_then (link_each (option_program matched c.matched_fn) l) (λ ks₂.
        and_then (link_each (get_programs c.get_fns) l) (λ ks₃.
          and_then (link_each (option_program get_dt_entry c.get_dynamic_table_entry_fn) l)
            (λ ks₄. ok (ks₁ ++ (ks₂ ++ (ks₃ ++ ks₄)))))))

  -- what follows `inject`: the loaded object with its links
  unfoldable pub load_linked : Config → S → Result T → Result (L × List K)
  unfolding link_all
  load_linked c s (err e) = err e
  load_linked c s (ok tables) =
      and_then (skel.load (skel.write tables s)) (λ l. and_then (link_all c l) (λ ks. ok (l, ks)))

  unfoldable pub injected : Config → Run (Result T) → Result S → Run (Result (L × List K))
  unfolding load_linked
  injected c inject (err e) = returns (err e)
  injected c inject (ok s) = inject >>= (λ tables. returns (load_linked c s tables))

  -- what the two methods `attach` share, from the opened object with its programs
  unfoldable pub attach : ℕ → Config → List Program → Run (Result T) → S → Run (Result (L × List K))
  unfolding disable configure injected
  attach target c progs inject s = injected c inject (configure target c (disable progs s))
