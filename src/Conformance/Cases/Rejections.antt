-- ===== src/Conformance/Cases/Rejections.antt =====
-- The cases that violate the rules for header blocks, and those with requests that carry no fields of
-- their own (utils/src/bin/conformance/cases.rs).
use beeper.Prelude.{List, [], ◌∷◌, codes}
use beeper.Conformance.{str, dummy}
use beeper.Conformance.Problems.{fields, rejected}
use beeper.Conformance.Verdict.{Case, blocks_sent, violation}
use beeper.Conformance.Cases.Blocks.{get, head, post}

unfoldable pub violation_cases : List Case
violation_cases =
    (record {
      ids =
          codes "http2/4.3/2"
          ∷ codes "http2/6.2/1"
          ∷ codes "http2/6.10/2"
          ∷ codes "http2/6.10/3"
          ∷ [];
      expect = violation (rejected ∷ rejected ∷ []);
    })
    ∷ (record {
      ids = codes "http2/4.3/3" ∷ codes "http2/6.2/2" ∷ [];
      expect = violation (
          rejected
          ∷ fields (
              (codes ":method", str (codes "GET"))
              ∷ (codes ":scheme", str (codes "http"))
              ∷ (codes ":path", str (codes "/"))
              ∷ [])
          ∷ rejected
          ∷ []);
    })
    ∷ (record {
      ids = codes "http2/5.1/4" ∷ codes "http2/6.2/3" ∷ codes "http2/5.5/2" ∷ [];
      expect = violation (rejected ∷ []);
    })
    ∷ (record {
      ids =
          codes "http2/5.1/7"
          ∷ codes "http2/5.1/10"
          ∷ codes "http2/5.1/13"
          ∷ codes "http2/6.10/4"
          ∷ [];
      expect = violation (get [] ∷ rejected ∷ []);
    })
    ∷ (record {
      ids = codes "http2/6.10/5" ∷ [];
      expect = violation (get ((codes "x-dummy0", dummy) ∷ []) ∷ rejected ∷ []);
    })
    ∷ (record {
      ids = codes "http2/6.10/6" ∷ [];
      expect = violation (rejected ∷ rejected ∷ rejected ∷ []);
    })
    ∷ []

unfoldable pub plain_cases : List Case
plain_cases =
    (record {
      ids =
          codes "generic/1/1"
          ∷ codes "generic/2/1"
          ∷ codes "generic/3.5/1"
          ∷ codes "generic/3.7/1"
          ∷ codes "generic/3.8/1"
          ∷ codes "generic/3.9/1"
          ∷ codes "http2/3.5/1"
          ∷ codes "http2/3.5/2"
          ∷ codes "http2/4.1/1"
          ∷ codes "http2/4.1/2"
          ∷ codes "http2/4.1/3"
          ∷ codes "http2/5.1/1"
          ∷ codes "http2/5.1/2"
          ∷ codes "http2/5.1/3"
          ∷ codes "http2/5.3.1/2"
          ∷ codes "http2/5.4.1/1"
          ∷ codes "http2/5.5/1"
          ∷ codes "http2/6.1/1"
          ∷ codes "http2/6.3/1"
          ∷ codes "http2/6.4/1"
          ∷ codes "http2/6.4/2"
          ∷ codes "http2/6.5/1"
          ∷ codes "http2/6.5/2"
          ∷ codes "http2/6.5/3"
          ∷ codes "http2/6.5.2/1"
          ∷ codes "http2/6.5.2/2"
          ∷ codes "http2/6.5.2/3"
          ∷ codes "http2/6.5.2/4"
          ∷ codes "http2/6.5.2/5"
          ∷ codes "http2/6.5.3/2"
          ∷ codes "http2/6.7/1"
          ∷ codes "http2/6.7/2"
          ∷ codes "http2/6.7/3"
          ∷ codes "http2/6.7/4"
          ∷ codes "http2/6.8/1"
          ∷ codes "http2/6.9/1"
          ∷ codes "http2/6.9/3"
          ∷ codes "http2/6.9.1/2"
          ∷ codes "http2/6.9.2/3"
          ∷ codes "http2/7/1"
          ∷ codes "http2/8.2/1"
          ∷ [];
      expect = blocks_sent [];
    })
    ∷ (record {
      ids =
          codes "generic/2/2"
          ∷ codes "generic/2/3"
          ∷ codes "generic/2/4"
          ∷ codes "generic/2/5"
          ∷ codes "generic/3.2/1"
          ∷ codes "generic/3.2/2"
          ∷ codes "generic/3.2/3"
          ∷ codes "generic/3.3/1"
          ∷ codes "generic/3.3/2"
          ∷ codes "generic/3.3/3"
          ∷ codes "generic/3.3/4"
          ∷ codes "generic/3.3/5"
          ∷ codes "generic/3.4/1"
          ∷ codes "generic/3.9/2"
          ∷ codes "generic/4/1"
          ∷ codes "generic/5/14"
          ∷ codes "generic/5/15"
          ∷ codes "http2/5.1/5"
          ∷ codes "http2/5.1/8"
          ∷ codes "http2/5.1/11"
          ∷ codes "http2/5.1.1/1"
          ∷ codes "http2/5.3.1/1"
          ∷ codes "http2/6.3/2"
          ∷ codes "http2/6.4/3"
          ∷ codes "http2/6.9/2"
          ∷ codes "http2/6.9.1/3"
          ∷ codes "hpack/2.3.3/1"
          ∷ codes "hpack/2.3.3/2"
          ∷ codes "hpack/4.2/1"
          ∷ codes "hpack/6.3/1"
          ∷ [];
      expect = blocks_sent (get [] ∷ []);
    })
    ∷ (record {
      ids =
          codes "generic/3.1/1"
          ∷ codes "generic/3.1/2"
          ∷ codes "generic/3.1/3"
          ∷ codes "generic/4/3"
          ∷ codes "http2/4.2/1"
          ∷ codes "http2/4.2/2"
          ∷ codes "http2/6.1/2"
          ∷ codes "http2/7/2"
          ∷ [];
      expect = blocks_sent (post [] ∷ []);
    })
    ∷ (record { ids = codes "generic/4/2" ∷ []; expect = blocks_sent (head [] ∷ []) })
    ∷ []
