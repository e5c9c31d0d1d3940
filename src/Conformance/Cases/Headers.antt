-- ===== src/Conformance/Cases/Headers.antt =====
-- The cases on header blocks (utils/src/bin/conformance/cases.rs).
use beeper.Prelude.{List, [], ◌∷◌, codes}
use beeper.Conformance.{str, raw_bytes, authority, dummy}
use beeper.Conformance.Problems.{fields, malformed}
use beeper.Conformance.Verdict.{Case, blocks_sent}
use beeper.Conformance.Cases.Blocks.{get, post, replicate}

unfoldable pub header_cases : List Case
header_cases =
    (record {
      ids = codes "generic/4/4" ∷ [];
      expect = blocks_sent (
          post ((codes "trailer", str (codes "x-test")) ∷ [])
          ∷ fields ((codes "x-test", str (codes "ok")) ∷ [])
          ∷ []);
    })
    ∷ (record {
      ids = codes "generic/5/1" ∷ [];
      expect = blocks_sent (get ((codes "user-agent", str (codes "")) ∷ []) ∷ []);
    })
    ∷ (record {
      ids =
          codes "generic/5/2"
          ∷ codes "generic/5/3"
          ∷ codes "generic/5/6"
          ∷ codes "generic/5/7"
          ∷ codes "generic/5/10"
          ∷ codes "generic/5/11"
          ∷ [];
      expect = blocks_sent (get ((codes "user-agent", str (codes "h2spec")) ∷ []) ∷ []);
    })
    ∷ (record {
      ids =
          codes "generic/5/4"
          ∷ codes "generic/5/5"
          ∷ codes "generic/5/8"
          ∷ codes "generic/5/9"
          ∷ codes "generic/5/12"
          ∷ codes "generic/5/13"
          ∷ [];
      expect = blocks_sent (get ((codes "x-test", str (codes "h2spec")) ∷ []) ∷ []);
    })
    ∷ (record {
      ids = codes "http2/4.2/3" ∷ [];
      expect = blocks_sent (
          get (
            (codes "x-dummy0", dummy)
            ∷ (codes "x-dummy1", dummy)
            ∷ (codes "x-dummy2", dummy)
            ∷ (codes "x-dummy3", dummy)
            ∷ (codes "x-dummy4", dummy)
            ∷ [])
          ∷ []);
    })
    ∷ (record { ids = codes "http2/4.3/1" ∷ []; expect = blocks_sent (fields [] ∷ []) })
    ∷ (record {
      ids =
          codes "http2/5.1/6"
          ∷ codes "http2/5.1/9"
          ∷ codes "http2/5.1/12"
          ∷ codes "http2/5.1.1/2"
          ∷ codes "http2/6.5.3/1"
          ∷ codes "http2/6.9.1/1"
          ∷ codes "http2/6.9.2/1"
          ∷ codes "http2/6.9.2/2"
          ∷ [];
      expect = blocks_sent (get [] ∷ get [] ∷ []);
    })
    ∷ (record { ids = codes "http2/5.1.2/1" ∷ []; expect = blocks_sent (replicate 201 (get [])) })
    ∷ (record {
      ids = codes "http2/6.1/3" ∷ [];
      expect = blocks_sent (post ((codes "content-length", str (codes "4")) ∷ []) ∷ []);
    })
    ∷ (record {
      ids = codes "http2/6.2/4" ∷ codes "hpack/6.1/1" ∷ [];
      expect = blocks_sent (malformed ∷ []);
    })
    ∷ (record {
      ids = codes "http2/6.10/1" ∷ [];
      expect = blocks_sent (get ((codes "x-dummy0", dummy) ∷ (codes "x-dummy0", dummy) ∷ []) ∷ []);
    })
    ∷ (record {
      ids = codes "generic/3.10/1" ∷ codes "generic/3.10/2" ∷ [];
      expect = blocks_sent (
          fields (
            (codes ":method", str (codes "GET"))
            ∷ (codes ":scheme", str (codes "http"))
            ∷ (codes ":path", str (codes "/"))
            ∷ (codes ":authority", authority)
            ∷ [])
          ∷ []);
    })
    ∷ []

unfoldable pub field_cases : List Case
field_cases =
    (record {
      ids = codes "http2/8.1/1" ∷ [];
      expect = blocks_sent (post [] ∷ fields ((codes "x-test", str (codes "ok")) ∷ []) ∷ []);
    })
    ∷ (record {
      ids = codes "http2/8.1.2/1" ∷ [];
      expect = blocks_sent (get ((codes "X-TEST", str (codes "ok")) ∷ []) ∷ []);
    })
    ∷ (record {
      ids = codes "http2/8.1.2.1/1" ∷ [];
      expect = blocks_sent (get ((codes ":test", str (codes "ok")) ∷ []) ∷ []);
    })
    ∷ (record {
      ids = codes "http2/8.1.2.1/2" ∷ [];
      expect = blocks_sent (get ((codes ":status", str (codes "200")) ∷ []) ∷ []);
    })
    ∷ (record {
      ids = codes "http2/8.1.2.1/3" ∷ [];
      expect = blocks_sent (post [] ∷ fields ((codes ":method", str (codes "POST")) ∷ []) ∷ []);
    })
    ∷ (record {
      ids = codes "http2/8.1.2.1/4" ∷ [];
      expect = blocks_sent (
          fields (
            (codes "x-test", str (codes "ok"))
            ∷ (codes ":method", str (codes "GET"))
            ∷ (codes ":scheme", str (codes "http"))
            ∷ (codes ":path", str (codes "/"))
            ∷ (codes ":authority", authority)
            ∷ [])
          ∷ []);
    })
    ∷ (record {
      ids = codes "http2/8.1.2.2/1" ∷ [];
      expect = blocks_sent (get ((codes "connection", str (codes "keep-alive")) ∷ []) ∷ []);
    })
    ∷ (record {
      ids = codes "http2/8.1.2.2/2" ∷ [];
      expect = blocks_sent (
          get (
            (codes "trailers", str (codes "test"))
            ∷ (codes "te", str (codes "trailers, deflate"))
            ∷ [])
          ∷ []);
    })
    ∷ (record {
      ids = codes "http2/8.1.2.3/1" ∷ [];
      expect = blocks_sent (
          fields (
            (codes ":method", str (codes "GET"))
            ∷ (codes ":scheme", str (codes "http"))
            ∷ (codes ":path", str (codes ""))
            ∷ (codes ":authority", authority)
            ∷ [])
          ∷ []);
    })
    ∷ (record {
      ids = codes "http2/8.1.2.3/2" ∷ [];
      expect =
          blocks_sent
            (fields ((codes ":path", str (codes "/")) ∷ (codes ":authority", authority) ∷ []) ∷ []);
    })
    ∷ (record {
      ids = codes "http2/8.1.2.3/3" ∷ [];
      expect = blocks_sent (
          fields (
            (codes ":method", str (codes "GET"))
            ∷ (codes ":path", str (codes "/"))
            ∷ (codes ":authority", authority)
            ∷ [])
          ∷ []);
    })
    ∷ (record {
      ids = codes "http2/8.1.2.3/4" ∷ [];
      expect = blocks_sent (
          fields (
            (codes ":method", str (codes "GET"))
            ∷ (codes ":scheme", str (codes "http"))
            ∷ (codes ":authority", authority)
            ∷ [])
          ∷ []);
    })
    ∷ (record {
      ids = codes "http2/8.1.2.3/5" ∷ [];
      expect = blocks_sent (get ((codes ":method", str (codes "GET")) ∷ []) ∷ []);
    })
    ∷ (record {
      ids = codes "http2/8.1.2.3/6" ∷ [];
      expect = blocks_sent (get ((codes ":scheme", str (codes "http")) ∷ []) ∷ []);
    })
    ∷ (record {
      ids = codes "http2/8.1.2.3/7" ∷ [];
      expect = blocks_sent (get ((codes ":path", str (codes "/")) ∷ []) ∷ []);
    })
    ∷ (record {
      ids = codes "http2/8.1.2.6/1" ∷ codes "http2/8.1.2.6/2" ∷ [];
      expect = blocks_sent (post ((codes "content-length", str (codes "1")) ∷ []) ∷ []);
    })
    ∷ (record {
      ids = codes "hpack/5.2/1" ∷ [];
      expect =
          blocks_sent
            (get ((codes "x-test", raw_bytes (0x49 ∷ 0x50 ∷ 0x9F ∷ 0xFF ∷ [])) ∷ []) ∷ []);
    })
    ∷ (record {
      ids = codes "hpack/5.2/2" ∷ [];
      expect = blocks_sent (get ((codes "x-test", raw_bytes (0x49 ∷ 0x50 ∷ 0x90 ∷ [])) ∷ []) ∷ []);
    })
    ∷ (record {
      ids = codes "hpack/5.2/3" ∷ [];
      expect = blocks_sent (
          get
            ((codes "x-test", raw_bytes (0x49 ∷ 0x51 ∷ 0xFF ∷ 0xFF ∷ 0xFF ∷ 0xFA ∷ 0x7F ∷ [])) ∷ [])
          ∷ []);
    })
    ∷ []
