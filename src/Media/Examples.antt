-- ===== src/Media/Examples.antt =====
-- Concrete envelopes.
use gemini_web2api_go_browse.Prelude.{
  ◌+◌, ◌≡◌, refl, [], ◌∷◌, ◌++◌, some, arith, length, codes, text_eq,
}
use gemini_web2api_go_browse.Media.{
  Bytes, value, protobuf_varint, done, panicked, extract_video_from_resource,
  extract_video_from_envelope, resource_depth, resource_field, resource_payload, after_skip, slice,
  take_field, or_first, looks_like_mp4,
}
use gemini_web2api_go_browse.Media.Varint.{encode_varint, varint-encode}
use gemini_web2api_go_browse.Media.Resource.{Fine, extract_video_from_resource-Fine}
use gemini_web2api_go_browse.Media.Envelope.{field, envelope_panics}

abbrev mp4 : Bytes
mp4 = 0 ∷ 0 ∷ 0 ∷ 24 ∷ codes "ftypisom" ++ 0 ∷ []

-- A resource of one field, which holds the video.
abbrev resource : Bytes
resource = 10 ∷ 13 ∷ mp4

abbrev before_it : Bytes
before_it = 10 ∷ []

varint-encode_example :
    protobuf_varint (before_it ++ (encode_varint 300 ++ (7 ∷ []))) (length before_it)
    ≡ value 300 (length before_it + length (encode_varint 300))
varint-encode_example = varint-encode before_it (7 ∷ []) 300 (omega arith)

resource_found : extract_video_from_resource resource ≡ done (some mp4, [])
unfolding extract_video_from_resource resource_depth resource_field resource_payload after_skip
    protobuf_varint slice take_field or_first looks_like_mp4 text_eq
resource_found = refl

extract_video_from_resource-Fine_example : Fine resource (extract_video_from_resource resource)
extract_video_from_resource-Fine_example = extract_video_from_resource-Fine resource

envelope_panics_example : extract_video_from_envelope (field 10 5 (1 ∷ [])) [] ≡ panicked
envelope_panics_example =
    envelope_panics 10 5 (1 ∷ []) [] (omega arith) (omega arith) (omega arith) (omega arith)
