-- ===== src/Tests/Messages.antt =====
-- The theorem on the eBPF program of the HTTP/1.1 parser (beeper/src/http1/parser.bpf.c) at a concrete
-- message.
use mathlib.Core.Path.{subst}
use beeper.Prelude.{ℕ, ◌≡◌, ap, true, none, codes, length, arith}
use beeper.Dfa.{Edge}
use beeper.Dfa as Dfa
use beeper.Http1.Parsing.{Match, parse_msg, init_walk}
use beeper.Http1.Running.{HasLowIds, IsLow, dfa_walk}
use beeper.Http1.Messages.{verdict, parse_msg-Walks}
use beeper.Http1.Actions.{Action}
use beeper.Tests.Samples.{looping, looping-IsValid}
use beeper.Tests.Parsers.{looping-NeverResets, looping-Represents, looping-cases, tables}

looping-HasLowIds : HasLowIds looping
looping-HasLowIds f i e at =
    subst IsLow (ap (λ (x : Edge Action). x.action) (looping-cases f i e at).2) tt

abbrev unmatched : ℕ → Match
unmatched i = record { idx = 0; len = 0 }

parse_msg-Walks_example :
    parse_msg tables true (codes "GE") (codes "GETA") unmatched
    ≡ verdict (length (codes "GETA")) (dfa_walk looping 0 (codes "GETA") (init_walk unmatched none))
unfolding Dfa.put_edge Dfa.new
parse_msg-Walks_example =
    parse_msg-Walks looping looping-IsValid looping-HasLowIds tables looping-Represents
      looping-NeverResets (omega arith) (codes "GE") (codes "TA") unmatched (omega arith)
      (omega arith)
