-- ===== src/Conformance/Cases/Blocks.antt =====
-- The blocks that the cases are written with (utils/src/bin/conformance/cases.rs).
use beeper.Prelude.{ℕ, zero, suc, List, [], ◌∷◌, ◌++◌, codes}
use beeper.Conformance.{str, authority}
use beeper.Conformance.Fields.{Field}
use beeper.Conformance.Problems.{Block, fields}

unfoldable pub request : List ℕ → List Field → Block
request method more = fields (
    ((codes ":method", str method)
      ∷ (codes ":scheme", str (codes "http"))
      ∷ (codes ":path", str (codes "/"))
      ∷ (codes ":authority", authority)
      ∷ [])
    ++ more)

unfoldable pub get : List Field → Block
unfolding request
get = request (codes "GET")

unfoldable pub head : List Field → Block
unfolding request
head = request (codes "HEAD")

unfoldable pub post : List Field → Block
unfolding request
post = request (codes "POST")

-- `vec![block; n]`
unfoldable pub replicate : ℕ → Block → List Block
replicate zero b = []
replicate (suc n) b = b ∷ replicate n b
