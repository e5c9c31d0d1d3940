-- ===== src/Conformance/Session.antt =====
-- The commands of the conformance harness: the loop of `main`, and `forget_closed`, in
-- utils/src/bin/conformance/main.rs. The name of a command comes as the function that is called for
-- it, and what it prints is its answer.
use beeper.Prelude.{ℕ, Bool, true, false, Option, none, some, List, [], ◌∷◌, map, if◌then◌else◌}
use beeper.Run.{Run, returns, ◌>>=◌}
use beeper.Error.{Result, ok, err}
use beeper.Utils.{ℤ, ParseResult}
use beeper.Http2.{Parser}
use beeper.Http2.Connections.{Ip4Conn, Maps, forget_conn}
use beeper.Http2.Addresses.{SocketAddr, v4, v6, ip4_addr_of}
use beeper.Conformance.Problems.{Problem}
use beeper.Conformance.Verdict.{Case, Summary, check_case}
use beeper.Conformance.Cases.{cases, find_case}
use beeper.Conformance.Attaching.{CaseParser, attach}
use beeper.Conformance.Following.{
  End, Results, Ending, Failure, Waited, sync, wait_closed, take_frames,
}

-- `P` is an attached HTTP/2 parser.
pub record Session (P : Type 0) : Type 0 where
  pub current : Option (Case × CaseParser P)
  pub results : Results

-- A line below a verdict.
pub data Report : Type 0 where
  waiting : Failure → Report
  problem : Problem → Report

pub record Judged : Type 0 where
  pub reports : List Report
  pub summary : Option Summary
  pub results : Results
  pub coming : List ParseResult

-- `if problems.is_empty() { "pass" } else { "fail" }`
abbrev pub passes : List Report → Bool
passes [] = true
passes (r ∷ reports) = false

-- `SocketAddr::new(server.ip(), port)`
unfoldable pub client_of : SocketAddr → ℕ → SocketAddr
client_of (v4 ip p) port = v4 ip port
client_of (v6 ip p) port = v6 ip port

unfoldable pub conn_of : SocketAddr → SocketAddr → Run Ip4Conn
conn_of local remote = do
  l ← ip4_addr_of local
  r ← ip4_addr_of remote
  returns (record { local = l; remote = r })

-- the connection as the end sees it
unfoldable pub conn_of_end : SocketAddr → End → Run Ip4Conn
unfolding conn_of client_of
conn_of_end server (port, is_server) =
    if is_server
    then conn_of server (client_of server port)
    else conn_of (client_of server port) server

module _ {S V : Type 0} (maps : Maps S V) where
  -- what follows a call of `forget_conn`: the rest of the loop, or the error
  unfoldable pub then_forget : (S → Run (Result S)) → Result S → Run (Result S)
  then_forget rest (err e) = returns (err e)
  then_forget rest (ok s) = rest s

  -- `forget_closed`, which leaves no closed end
  unfoldable pub forget_closed : SocketAddr → List End → S → Run (Result S)
  unfolding conn_of_end then_forget
  forget_closed server [] s = returns (ok s)
  forget_closed server (e ∷ closed) s = do
    conn ← conn_of_end server e
    then_forget (forget_closed server closed) (forget_conn maps conn s)

module _ {P : Type 0} (huffman : List ℕ → Option (List ℕ)) (eproto : ℤ) (authority : List ℕ) where
  -- the verdict of the command `check` on what the wait left
  unfoldable pub judge_waited : Case → CaseParser P → Waited → Option Failure → Run Judged
  judge_waited c p w (some f) =
      returns (record {
        reports = waiting f ∷ [];
        summary = none;
        results = w.results;
        coming = w.coming;
      })
  judge_waited c p w none =
      check_case huffman eproto p.names authority c (take_frames w.results).0 >>= (λ r.
        returns (record {
          reports = map problem r.0;
          summary = some r.1;
          results = (take_frames w.results).1;
          coming = w.coming;
        }))

  -- the command `check`, up to `forget_closed`
  unfoldable pub judge :
      Case → CaseParser P → Bool → ℕ → Ending → Results → List ParseResult → Run Judged
  unfolding judge_waited
  judge c p can_mark ready ending r coming =
      let w = wait_closed can_mark ready ending r coming in judge_waited c p w w.failure

-- How a command ends the program.
pub data Stop : Type 0 where
  unknown_case no_case : Stop
  not_attached not_forgotten : Stop
  not_synced : Failure → Stop

-- A session and what is still to come, or the end.
pub data Next (P A : Type 0) : Type 0 where
  stop : Stop → Next P A
  go_on : A → Session P → List ParseResult → Next P A

module _ {P : Type 0} where
  unfoldable pub start_synced : Case → CaseParser P → Waited → Option Failure → Next P (Unit {0})
  start_synced c p w (some f) = stop (not_synced f)
  start_synced c p w none =
      go_on tt
        (record {
          current = some (c, p);
          results = record (take_frames w.results).1 { closed = [] };
        })
        w.coming

  unfoldable pub start_attached :
      Case → Bool → Ending → Results → List ParseResult → Result (CaseParser P) → Next P (Unit {0})
  unfolding start_synced
  start_attached c can_mark ending r coming (err e) = stop not_attached
  start_attached c can_mark ending r coming (ok p) =
      let w = sync can_mark ending r coming in start_synced c p w w.failure

module _ {P : Type 0} (load : Parser → Run (Result P)) (huffman : List ℕ → Option (List ℕ)) where
  unfoldable pub start_found :
      Bool → Ending → Results → List ParseResult → Option Case → Run (Next P (Unit {0}))
  unfolding start_attached
  start_found can_mark ending r coming none = returns (stop unknown_case)
  start_found can_mark ending r coming (some c) =
      attach load huffman c >>= (λ p. returns (start_attached c can_mark ending r coming p))

  -- the command `case`
  unfoldable pub start_case :
      List ℕ → Bool → Ending → Session P → List ParseResult → Run (Next P (Unit {0}))
  unfolding start_found
  start_case id can_mark ending s coming =
      start_found can_mark ending s.results coming (find_case id cases)

module _ {S V P : Type 0} (maps : Maps S V) (huffman : List ℕ → Option (List ℕ)) (eproto : ℤ)
    (authority : List ℕ) (server : SocketAddr) where
  unfoldable pub forgotten :
      Session P → Judged → Result S → Next P (List Report × Option Summary × S)
  forgotten s j (err e) = stop not_forgotten
  forgotten s j (ok tables) =
      go_on (j.reports, j.summary, tables) (record s { results = record j.results { closed = [] } })
        j.coming

  unfoldable pub check_current :
      Bool
      → ℕ
      → Ending
      → Session P
      → List ParseResult
      → S
      → Option (Case × CaseParser P)
      → Run (Next P (List Report × Option Summary × S))
  unfolding judge forgotten
  check_current can_mark ready ending s coming tables none = returns (stop no_case)
  check_current can_mark ready ending s coming tables (some (c, p)) = do
    j ← judge huffman eproto authority c p can_mark ready ending s.results coming
    r ← forget_closed maps server j.results.closed tables
    returns (forgotten s j r)

  -- the command `check`
  unfoldable pub check_command :
      Bool
      → ℕ
      → Ending
      → Session P
      → List ParseResult
      → S
      → Run (Next P (List Report × Option Summary × S))
  unfolding check_current
  check_command can_mark ready ending s coming tables =
      check_current can_mark ready ending s coming tables s.current
