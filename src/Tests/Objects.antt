-- ===== src/Tests/Objects.antt =====
-- An object of libbpf that remembers what it is told, to attach the parsers of beeper/src/http1 and
-- beeper/src/http2 with.
use beeper.Prelude.{ℕ, ◌≡◌, refl, Bool, Option, some, List, ◌==◌, ==_refl, if◌then◌else◌}
use mathlib.Core.Path.{subst}
use beeper.Error.{buffer_eq, bpf, ok, err}
use beeper.Attach.{Program, program_eq, Skel}
use beeper.Attach.Objects.{IsObject}

pub record Object (T : Type 0) : Type 0 where
  pub on : Program → Bool
  pub to : Program → Option (ℕ × List ℕ)
  pub tables : Option T

abbrev pub remembering : (T : Type 0) → Skel (Object T) (Object T) Program T
remembering T = record {
  set_autoload = λ prog on s. record s { on = λ q. if prog == q then on else s.on q };
  set_attach_target = λ prog target func s.
      ok (record s { to = λ q. if prog == q then some (target, func) else s.to q });
  write = λ tables s. record s { tables = some tables };
  load = λ s. ok s;
  link = λ prog l. if l.on prog then ok prog else err bpf;
}

abbrev pub autoload : {T : Type 0} → Program → Object T → Bool
autoload q s = s.on q

abbrev pub target_of : {T : Type 0} → Program → Object T → Option (ℕ × List ℕ)
target_of q s = s.to q

ok-object : {T : Type 0} {s s' : Object T} → ok s ≡ ok s' → s ≡ s'
ok-object h = cc

pub remembering-IsObject : (T : Type 0) → IsObject (remembering T) autoload target_of
remembering-IsObject T = record {
  turned = λ prog on s. rw (==_refl prog) refl;
  turned_other = λ prog other on s h. rw h refl;
  turned_target = λ prog other on s. refl;
  aimed = λ prog target func s s' h.
      subst (λ (t : Object T). t.to prog ≡ some (target, func)) (ok-object h)
        (rw (==_refl prog) refl);
  aimed_other = λ prog other target func s s' h d.
      subst (λ (t : Object T). t.to other ≡ s.to other) (ok-object h) (rw d refl);
  aimed_autoload = λ prog other target func s s' h.
      subst (λ (t : Object T). t.on other ≡ s.on other) (ok-object h) refl;
  written_autoload = λ other tables s. refl;
  written_target = λ other tables s. refl;
}
