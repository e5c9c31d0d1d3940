-- ===== src/Lib.antt =====
-- Beeper compiles the header fields that a program wants to see into a DFA, injects the DFA into an
-- eBPF parser and attaches that parser to the program. This library models the part of it that runs
-- in user space, what the HTTP/1.1 parser then makes of a message in the kernel, and the harness that
-- judges the HTTP/2 parser.
--
-- The parts, and where they are modelled:
--   Dfa: the DFA of beeper/src/dfa.rs (`Dfa`, `Edge`). Its two nested hash maps are association lists
--     (Map), and an operation that mutates the DFA returns the new one.
--     Dfa.Edges reads and writes single edges; Dfa.Extends is the order in which a DFA only grows;
--     Dfa.Growth, Dfa.Conflicts, Dfa.Listing and Dfa.Walk have the operations one by one.
--   Builder, Builder.Patterns: `DfaBuilder` of beeper/src/dfa.rs. It owns the DFA that the source
--     borrows mutably. `with` is `with_action`. The other modules under Builder are about one method
--     each; Builder.Chains has the rules for chains of calls.
--   Http1, Http1.Actions: `http1::Parser` and its actions (beeper/src/http1/parser.rs,
--     beeper/src/http1/action.rs).
--   Http2, Http2.Actions, Http2.Hpack: `http2::Parser`, its actions and the rows of the HPACK
--     representations (beeper/src/http2/parser.rs, action.rs and hpack.rs beside it).
--     Http2.Representations and Http2.AppendixA describe what RFC 7541 asks for, to compare with;
--     Http2.Start is the parser that `new` makes; Http2.StaticTable and Http2.Populate fill the
--     static table; Http2.Connections is the attached parser's side of the dynamic tables, which
--     Http2.Forgetting goes on with, and Http2.Addresses the key of a connection
--     (beeper/src/http2/mod.rs).
--   Inject: `inject` of both parsers, with the table sizes of the two eBPF programs. Http1.Runtime has
--     the HTTP/1.1 side of it and one step of the eBPF program, Http1.Parsing its loop over a message
--     and `parse_msg` (beeper/src/http1/parser.bpf.c); Http1.Running is the same walk through the DFA,
--     to compare with, and Http1.Messages compares them.
--   Attach: the two methods `attach` from the opened object on. What libbpf does is the record `Skel` of
--     functions; Attach.Objects says what is relied on. Attach.Parsers has the two methods,
--     Attach.Contents, Attach.Outcomes and Attach.Messages put them together with `inject`, the static
--     table and `parse_msg`; Attach.Returning is about `attach` of HTTP/2 with any libbpf.
--   Error, Matches: the types and the table of captured headers that the parsers share
--     (beeper/src/lib.rs).
--   Utils, Conformance: what the test program reports (utils/src/test.rs) and the conformance harness
--     (utils/src/bin/conformance/main.rs, cases.rs). The modules under Conformance.Cases are the table
--     of cases; Attaching is `CaseParser::attach`, which takes `attach` of the HTTP/2 parser as the
--     parameter `load`; Following is what `Results` keeps of the reports;
--     Problems, Violations and Verdict are `check_requests`, `check_violation` and `check`, on the
--     fields of Fields and Checking; Session is the loop of `main` over its commands. The other
--     modules under Conformance are about these. What is still to be reported is a list that the
--     waits read from, and the commands thread the state through.
--
-- A call that may panic is a `Run`. `Ensures P m` says that what `m` returns satisfies `P`, and that it
-- does not panic for a lookup or an index that the code takes for granted; the other panics (two
-- patterns that conflict, more than 65535 states, an empty range or option, an expected value that
-- cannot be coded, an IPv6 address) are up to the caller.
-- `Returns P m` says that `m` does return. `Result` is the result of a fallible method, which comes
-- beside the parser that it leaves.
--
-- Bounds: a state id is a `u16` that `new_state` checks; an input is a byte or 256, the wildcard; a
-- match id is below 32. All loops of the source run over lists or counts and are structural
-- recursions here, so there is no fuel.
--
-- Not modelled: logging, and the texts of errors and of the harness; `parse_skb`, `matched` and
-- `get_match` of the HTTP/1.1 program, and the program of HTTP/2; the RESP2 parser, which no module of
-- the crate leads to; the launch of test programs and servers, their I/O, the example and the build
-- scripts. `huffman::encode` is code of another crate and a parameter, and so are libbpf and the kernel
-- maps, with their laws in `IsObject`, `AreMaps` and `IsTable`.
-- A header name is taken to be ASCII, which is what `to_lowercase` is on here, and the generated
-- skeleton of a program to have the read-only data without which `inject` panics.
pub mod Prelude
pub mod Run
pub mod Map
pub mod Dfa
pub mod Builder
pub mod Error
pub mod Matches
pub mod Inject
pub mod Http1
pub mod Http2
pub mod Attach
pub mod Utils
pub mod Conformance
pub mod Tests
