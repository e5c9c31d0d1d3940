-- ===== src/Attach/Replaced.antt =====
-- Which function each program of a parser is to replace, and what the four loops of `attach` make of
-- it (beeper/src/http1/parser.rs, beeper/src/http2/parser.rs).
use beeper.Prelude.{
  ℕ, ◌≡◌, refl, ◌∙◌, true, false, ◌==◌, Option, none, some, List, [], ◌∷◌, if◌then◌else◌,
}
use beeper.Map.{Map, lookup, IsUnique}
use beeper.Error.{MessageBuffer, skb, msg, buffer_eq}
use beeper.Attach.{
  Program, program_eq, parse_msg, parse_skb, matched, get_match_msg, get_match_skb, get_dt_entry,
  Config, parse_programs, get_programs, option_program,
}

-- The function that a program of the skeleton is to replace.
abbrev pub function_of : Config → Program → Option (List ℕ)
function_of c parse_msg = lookup msg c.parse_fns
function_of c parse_skb = lookup skb c.parse_fns
function_of c matched = c.matched_fn
function_of c get_match_msg = lookup msg c.get_fns
function_of c get_match_skb = lookup skb c.get_fns
function_of c get_dt_entry = c.get_dynamic_table_entry_fn

-- What the program `q` replaces after `replace_each`, if it was `func` before.
unfoldable pub replaced : Program → List (Program × List ℕ) → Option (List ℕ) → Option (List ℕ)
replaced q [] o = o
replaced q ((prog, func) ∷ progs) o = replaced q progs (if prog == q then some func else o)

abbrev pub or_before : Option (List ℕ) → Option (List ℕ) → Option (List ℕ)
or_before (some func) o = some func
or_before none o = o

parse_programs-msg :
    (fns : Map MessageBuffer (List ℕ)) (o : Option (List ℕ))
    → IsUnique fns
    → replaced parse_msg (parse_programs fns) o ≡ or_before (lookup msg fns) o
unfolding replaced parse_programs lookup
parse_programs-msg [] o u = refl
parse_programs-msg ((msg, func) ∷ fns) o u = parse_programs-msg fns (some func) u.1 ∙ rw u.0 refl
parse_programs-msg ((skb, func) ∷ fns) o u = parse_programs-msg fns o u.1

parse_programs-skb :
    (fns : Map MessageBuffer (List ℕ)) (o : Option (List ℕ))
    → IsUnique fns
    → replaced parse_skb (parse_programs fns) o ≡ or_before (lookup skb fns) o
unfolding replaced parse_programs lookup
parse_programs-skb [] o u = refl
parse_programs-skb ((msg, func) ∷ fns) o u = parse_programs-skb fns o u.1
parse_programs-skb ((skb, func) ∷ fns) o u = parse_programs-skb fns (some func) u.1 ∙ rw u.0 refl

get_programs-msg :
    (fns : Map MessageBuffer (List ℕ)) (o : Option (List ℕ))
    → IsUnique fns
    → replaced get_match_msg (get_programs fns) o ≡ or_before (lookup msg fns) o
unfolding replaced get_programs lookup
get_programs-msg [] o u = refl
get_programs-msg ((msg, func) ∷ fns) o u = get_programs-msg fns (some func) u.1 ∙ rw u.0 refl
get_programs-msg ((skb, func) ∷ fns) o u = get_programs-msg fns o u.1

get_programs-skb :
    (fns : Map MessageBuffer (List ℕ)) (o : Option (List ℕ))
    → IsUnique fns
    → replaced get_match_skb (get_programs fns) o ≡ or_before (lookup skb fns) o
unfolding replaced get_programs lookup
get_programs-skb [] o u = refl
get_programs-skb ((msg, func) ∷ fns) o u = get_programs-skb fns o u.1
get_programs-skb ((skb, func) ∷ fns) o u = get_programs-skb fns (some func) u.1 ∙ rw u.0 refl

-- Programs of another group leave what `q` replaces.
parse_programs-other :
    (q : Program) (fns : Map MessageBuffer (List ℕ)) (o : Option (List ℕ))
    → (parse_msg == q) ≡ false
    → (parse_skb == q) ≡ false
    → replaced q (parse_programs fns) o ≡ o
unfolding replaced parse_programs
parse_programs-other q [] o m s = refl
parse_programs-other q ((msg, func) ∷ fns) o m s =
    rw (replaced, m) (parse_programs-other q fns o m s)
parse_programs-other q ((skb, func) ∷ fns) o m s =
    rw (replaced, s) (parse_programs-other q fns o m s)

get_programs-other :
    (q : Program) (fns : Map MessageBuffer (List ℕ)) (o : Option (List ℕ))
    → (get_match_msg == q) ≡ false
    → (get_match_skb == q) ≡ false
    → replaced q (get_programs fns) o ≡ o
unfolding replaced get_programs
get_programs-other q [] o m s = refl
get_programs-other q ((msg, func) ∷ fns) o m s = rw (replaced, m) (get_programs-other q fns o m s)
get_programs-other q ((skb, func) ∷ fns) o m s = rw (replaced, s) (get_programs-other q fns o m s)

option_program-other :
    (q prog : Program) (m o : Option (List ℕ))
    → (prog == q) ≡ false
    → replaced q (option_program prog m) o ≡ o
unfolding replaced option_program
option_program-other q prog none o other = refl
option_program-other q prog (some func) o other = rw other refl

option_program-same :
    (q prog : Program) (m o : Option (List ℕ))
    → (prog == q) ≡ true
    → replaced q (option_program prog m) o ≡ or_before m o
unfolding replaced option_program
option_program-same q prog none o same = refl
option_program-same q prog (some func) o same = rw same refl

or_before-none : (o : Option (List ℕ)) → or_before o none ≡ o
or_before-none none = refl
or_before-none (some func) = refl

-- What a program replaces after all four loops.
unfoldable pub configured : Config → Program → Option (List ℕ)
unfolding replaced parse_programs get_programs option_program
configured c q = replaced q (option_program get_dt_entry c.get_dynamic_table_entry_fn) (
    replaced q (get_programs c.get_fns) (
      replaced q (option_program matched c.matched_fn)
        (replaced q (parse_programs c.parse_fns) none)))

pub configured-function_of :
    (c : Config) (q : Program)
    → IsUnique c.parse_fns
    → IsUnique c.get_fns
    → configured c q ≡ function_of c q
unfolding configured
configured-function_of c parse_msg u v =
    rw
      (
        option_program-other parse_msg get_dt_entry c.get_dynamic_table_entry_fn _ refl,
        get_programs-other parse_msg c.get_fns _ refl refl,
        option_program-other parse_msg matched c.matched_fn _ refl,
        parse_programs-msg c.parse_fns none u,
      )
      (or_before-none (lookup msg c.parse_fns))
configured-function_of c parse_skb u v =
    rw
      (
        option_program-other parse_skb get_dt_entry c.get_dynamic_table_entry_fn _ refl,
        get_programs-other parse_skb c.get_fns _ refl refl,
        option_program-other parse_skb matched c.matched_fn _ refl,
        parse_programs-skb c.parse_fns none u,
      )
      (or_before-none (lookup skb c.parse_fns))
configured-function_of c matched u v =
    rw
      (
        option_program-other matched get_dt_entry c.get_dynamic_table_entry_fn _ refl,
        get_programs-other matched c.get_fns _ refl refl,
        option_program-same matched matched c.matched_fn _ refl,
        parse_programs-other matched c.parse_fns none refl refl,
      )
      (or_before-none c.matched_fn)
configured-function_of c get_match_msg u v =
    rw
      (
        option_program-other get_match_msg get_dt_entry c.get_dynamic_table_entry_fn _ refl,
        get_programs-msg c.get_fns _ v,
        option_program-other get_match_msg matched c.matched_fn _ refl,
        parse_programs-other get_match_msg c.parse_fns none refl refl,
      )
      (or_before-none (lookup msg c.get_fns))
configured-function_of c get_match_skb u v =
    rw
      (
        option_program-other get_match_skb get_dt_entry c.get_dynamic_table_entry_fn _ refl,
        get_programs-skb c.get_fns _ v,
        option_program-other get_match_skb matched c.matched_fn _ refl,
        parse_programs-other get_match_skb c.parse_fns none refl refl,
      )
      (or_before-none (lookup skb c.get_fns))
configured-function_of c get_dt_entry u v =
    rw
      (
        option_program-same get_dt_entry get_dt_entry c.get_dynamic_table_entry_fn _ refl,
        get_programs-other get_dt_entry c.get_fns _ refl refl,
        option_program-other get_dt_entry matched c.matched_fn _ refl,
        parse_programs-other get_dt_entry c.parse_fns none refl refl,
      )
      (or_before-none c.get_dynamic_table_entry_fn)
