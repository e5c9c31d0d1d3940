-- ===== src/Prelude/Bytes.antt =====
-- Texts as the bytes of their UTF-8 form. Every text in the program is ASCII, so a byte is a code.
use mathlib.Core.List.{List, [], ◌∷◌}
use Prim.Native.Nat.{ℕ}
use Prim.Native.String.{String}
use Prim.Native.Char.{code}

abbrev pub codes : String → List ℕ
codes String.[] = []
codes (String.◌∷◌ letter text) = code letter ∷ codes text
