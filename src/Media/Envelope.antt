-- ===== src/Media/Envelope.antt =====
-- extractVideoFromEnvelope: what it does with the first top-level field of an envelope.
use gemini_web2api_go_browse.Prelude.{
  ℕ, suc, ◌+◌, ◌-◌, ◌%◌, ◌^◌, ◌<◌, ◌≡◌, refl, sym, ap, subst, ◌∙◌, true, false, [], ◌++◌, some,
  arith, ltb, leb, ◌==◌, length, Bool-cases, inl, inr, length-append, append_assoc,
  take-length-append, drop-length-append,
}
use gemini_web2api_go_browse.Media.{
  Bytes, value, protobuf_varint, done, panicked, slice, extract_video_from_resource,
  extract_video_from_envelope, envelope_loop, envelope_field, envelope_payload,
}
use gemini_web2api_go_browse.Media.Varint.{
  encode_varint, varint-encode, Reads, protobuf_varint-Reads,
}

slice_out : (d spare : Bytes) (s e : ℕ) → length d + length spare < e → slice d spare s e ≡ panicked
unfolding slice
slice_out d spare s e h =
    let over : leb e (length d + length spare) ≡ false = ground arith in
    elim (Bool-cases (leb s e)) [ inl y ↦ rw (y, over) refl | inr n ↦ rw n refl ]

slice_middle :
    (pre m rest spare : Bytes)
    → slice (pre ++ (m ++ rest)) spare (length pre) (length pre + length m) ≡ done m
unfolding slice
slice_middle pre m rest spare =
    let order : leb (length pre) (length pre + length m) ≡ true = ground arith in
    let inside : leb (length pre + length m) (length (pre ++ (m ++ rest)) + length spare) ≡ true =
      ground (arith, length-append pre (m ++ rest), length-append m rest) in
    let n : length pre + length m - length pre ≡ length m = omega arith in
    let at : pre ++ (m ++ rest) ++ spare ≡ pre ++ (m ++ (rest ++ spare)) = simp append_assoc in
    rw (order, inside, n, at)
      (rw (drop-length-append pre (m ++ (rest ++ spare)), take-length-append m (rest ++ spare))
        refl)

-- One field with a declared length, where the loop stands.
field_step :
    (f : ℕ) (d spare : Bytes) (i tag j : ℕ)
    → protobuf_varint d i ≡ value tag j
    → tag % 8 ≡ 2
    → envelope_loop (suc f) d spare i
      ≡ envelope_payload (envelope_loop f d spare) d spare (protobuf_varint d j)
unfolding envelope_loop envelope_field
field_step f d spare i tag j e wire =
    let read : Reads 10 d i (value tag j) = subst (Reads 10 d i) e (protobuf_varint-Reads d i) in
    let inside : ltb i (length d) ≡ true = ground (arith, read.0, read.2) in
    let two : (tag % 8 == 2) ≡ true = ground arith in
    rw (inside, envelope_loop) (rw (e, envelope_field) (rw (two, envelope_field) refl))

-- The first field of an envelope: its tag, the declared length and what follows.
abbrev pub field : ℕ → ℕ → Bytes → Bytes
field tag n rest = encode_varint tag ++ (encode_varint n ++ rest)

field_start :
    (tag n : ℕ) (rest spare : Bytes)
    → tag < 2 ^ 64
    → n < 2 ^ 64
    → tag % 8 ≡ 2
    → extract_video_from_envelope (field tag n rest) spare
      ≡ envelope_payload
          (envelope_loop (length (field tag n rest)) (field tag n rest) spare)
          (field tag n rest)
          spare
          (value n (length (encode_varint tag) + length (encode_varint n)))
unfolding extract_video_from_envelope
field_start tag n rest spare t64 n64 wire =
    let d = field tag n rest in
    let e : length d + 1 ≡ suc (length d) = omega arith in
    ap (λ f. envelope_loop f d spare 0) e
    ∙ field_step (length d) d spare 0 tag (length (encode_varint tag))
        (varint-encode [] (encode_varint n ++ rest) tag t64 ∙ ap (value tag) (omega arith)) wire
    ∙ ap (envelope_payload (envelope_loop (length d) d spare) d spare)
        (varint-encode (encode_varint tag) rest n n64)

-- An envelope whose first top-level field declares more bytes than are left of the data and of the
-- spare capacity behind it panics, whatever the data holds.
pub envelope_panics :
    (tag n : ℕ) (rest spare : Bytes)
    → tag < 2 ^ 64
    → n < 2 ^ 64
    → tag % 8 ≡ 2
    → length rest + length spare < n
    → extract_video_from_envelope (field tag n rest) spare ≡ panicked
unfolding envelope_payload
envelope_panics tag n rest spare t64 n64 wire over =
    let s = length (encode_varint tag) + length (encode_varint n) in
    field_start tag n rest spare t64 n64 wire
    ∙ rw
        (slice_out (field tag n rest) spare s (s + n) (
          omega (
            arith,
            length-append (encode_varint tag) (encode_varint n ++ rest),
            length-append (encode_varint n) rest,
          )))
        refl

first_slice :
    (tag : ℕ) (payload rest spare : Bytes)
    → slice
        (field tag (length payload) (payload ++ rest))
        spare
        (length (encode_varint tag) + length (encode_varint (length payload)))
        (length (encode_varint tag) + length (encode_varint (length payload)) + length payload)
      ≡ done payload
first_slice tag payload rest spare =
    let pre = encode_varint tag ++ encode_varint (length payload) in
    let e : field tag (length payload) (payload ++ rest) ≡ pre ++ (payload ++ rest) =
      simp append_assoc in
    rw (e, sym (length-append (encode_varint tag) (encode_varint (length payload))))
      (slice_middle pre payload rest spare)

-- An envelope whose first top-level field holds its declared bytes, in which the search of a
-- resource finds a video: that video and its mime are returned, whatever follows the field.
pub envelope_first :
    (tag : ℕ) (payload rest spare mp4 mime : Bytes)
    → tag < 2 ^ 64
    → length payload < 2 ^ 64
    → tag % 8 ≡ 2
    → extract_video_from_resource payload ≡ done (some mp4, mime)
    → extract_video_from_envelope (field tag (length payload) (payload ++ rest)) spare
      ≡ done (some mp4, mime)
unfolding envelope_payload
envelope_first tag payload rest spare mp4 mime t64 n64 wire found =
    field_start tag (length payload) (payload ++ rest) spare t64 n64 wire
    ∙ rw (first_slice tag payload rest spare) (rw found refl)
