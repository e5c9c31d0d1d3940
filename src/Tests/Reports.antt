-- ===== src/Tests/Reports.antt =====
-- The theorems on the test utilities and the conformance harness (utils/src) at concrete inputs.
use beeper.Prelude.{
  ◌↔◌, none, ℕ, nat_eq, bytes_eq, zero, suc, ◌+◌, ◌≤◌, ◌≡◌, refl, inl, inr, ◌++◌, Option, some,
  List, [], ◌∷◌, codes, length, true, false,
}
use beeper.Run.{returns}
use beeper.Utils.{
  Frame, frame, pos, negsuc, raw_size, take, drop, little_endian, u32_at, read, read_kind,
  read_frame,
}
use beeper.Utils.Reading.{HasCaptures, read-HasCaptures}
use beeper.Conformance.{ParsedBlock, blocks, value, matches, str, authority, expected, starts_with}
use beeper.Map.{lookup}
use beeper.Conformance.Checking.{or_absent, capture_of, name_of, check, check-Clean}
use beeper.Conformance.Fields.{
  Field, Fields, expected_fields, last_method, method_of_field, or_else, response_fields,
  response_fields-Echoes,
}
use beeper.Conformance.Judging.{
  reported, requests_of, responses_of, problems_of, matches-reported, blocks-Sorted,
}

abbrev zeros : ℕ → List ℕ
zeros zero = []
zeros (suc n) = 0 ∷ zeros n

-- a frame that captured the empty value of the first match
abbrev data_of_frame : List ℕ
data_of_frame = 2 ∷ 0 ∷ 0 ∷ 0 ∷ 144 ∷ 31 ∷ 0 ∷ 0 ∷ zeros 20 ++ 1 ∷ zeros 4227

read_frame_run : read data_of_frame ≡ some (frame (read_frame data_of_frame))
unfolding read read_kind u32_at little_endian take drop
read_frame_run = refl

read-HasCaptures_example :
    (raw_size ≤ length data_of_frame)
    × (u32_at data_of_frame 0 ≤ 3)
    × HasCaptures (frame (read_frame data_of_frame))
read-HasCaptures_example =
    read-HasCaptures data_of_frame (frame (read_frame data_of_frame)) read_frame_run

-- a coder that puts a byte before a text
abbrev marked : List ℕ → Option (List ℕ)
marked text = some (1 ∷ text)

matches-reported_example :
    matches marked (value (codes "GET")) (some (reported (1 ∷ codes "GET"))) ≡ returns true
matches-reported_example =
    matches-reported marked (codes "GET") (1 ∷ codes "GET") (1 ∷ codes "GET")
      (reported (1 ∷ codes "GET")) refl (inr refl) (inl refl)

abbrev sample : Frame
sample = record {
  client_port = 8080;
  upstream = false;
  ret = pos 12;
  sid = 1;
  frame_type = 1;
  flags = 4;
  captures = [];
}

abbrev frames : List Frame
frames =
    sample
    ∷ record sample { upstream = true }
    ∷ record sample { frame_type = 3; ret = negsuc 4 }
    ∷ []

blocks-Sorted_example :
    ((blocks frames).requests ≡ requests_of frames)
    × ((blocks frames).responses ≡ responses_of frames)
    × ((blocks frames).problems ≡ problems_of frames)
    × (length (blocks frames).requests
          + length (blocks frames).responses
          + length (blocks frames).problems
        ≡ length frames)
blocks-Sorted_example = blocks-Sorted frames

content_type-regular : starts_with (codes "content-type") (codes ":") ≡ false
unfolding starts_with
content_type-regular = refl

-- a GET that sends a content type twice
abbrev typed : Field
typed = (codes "content-type", str (codes "b"))

abbrev start_of_get : List Field
start_of_get =
    (codes ":method", str (codes "GET"))
    ∷ (codes ":authority", authority)
    ∷ (codes "content-type", str (codes "a"))
    ∷ []

get-last_method : last_method (start_of_get ++ typed ∷ []) ≡ some (codes "GET")
unfolding last_method method_of_field or_else
get-last_method = refl

response_fields-Echoes_example :
    (fields : Fields) × (response_fields (start_of_get ++ typed ∷ []) (codes "host") ≡ some fields)
    × (lookup (codes "content-type") fields ≡ some (expected (str (codes "b")) (codes "host")))
    × (lookup (codes "content-type") (expected_fields (start_of_get ++ typed ∷ []) (codes "host"))
        ≡ some (expected (str (codes "b")) (codes "host")))
    × (lookup (codes ":status") fields ≡ some (value (codes "200")))
response_fields-Echoes_example =
    response_fields-Echoes (codes "host") (codes "content-type") start_of_get [] (str (codes "b"))
      (codes "GET") content_type-regular tt get-last_method refl

-- a block with the field `a`, checked by a parser that captures `a` and `b`
abbrev block_of_a : ParsedBlock
block_of_a = record {
  client_port = 8080;
  sid = 1;
  error = none;
  captures = some (reported (codes "x")) ∷ none ∷ [];
}

abbrev fields_of_a : Fields
fields_of_a = (codes "a", value (codes "x")) ∷ []

check-Clean_example :
    (check marked block_of_a fields_of_a (codes "a" ∷ codes "b" ∷ []) ≡ returns []) ↔ (
      (mid : ℕ) (name : List ℕ)
      → name_of (codes "a" ∷ codes "b" ∷ []) mid ≡ some name
      → matches marked (or_absent (lookup name fields_of_a)) (capture_of block_of_a.captures mid)
        ≡ returns true)
check-Clean_example = check-Clean marked block_of_a fields_of_a (codes "a" ∷ codes "b" ∷ [])
