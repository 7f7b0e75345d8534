-- ===== src/Media.antt =====
-- internal/app/media.go, lines 359 to 612: the protobuf envelope that a video download returns.
-- A `[]byte` is its bytes; the envelope also has the spare bytes between its length and capacity,
-- which a slice expression may reach. A run-time panic is an outcome.
pub mod Varint
pub mod Resource
pub mod Envelope
mod Examples
use gemini_web2api_go_browse.Prelude.{
  ℕ, zero, suc, ◌+◌, ◌-◌, ◌*◌, ◌/◌, ◌%◌, ◌^◌, ◌≡◌, refl, Bool, true, false, ◌&&◌, ◌||◌, List, [],
  ◌∷◌, ◌++◌, Option, none, some, ltb, leb, ◌==◌, if◌then◌else◌, length, get_elem?, take, drop, Text,
  codes, text_eq, index_byte, is_empty,
}

abbrev pub Bytes : Type 0
Bytes = List ℕ

pub data Read : Type 0 where
  value : ℕ → ℕ → Read
  past_end too_long : Read

-- The loop of protobufVarint: `v` so far, shifted by `s`. The bits of a byte lie above those of `v`,
-- so `|` is `+`; the shift drops what does not fit 64 bits.
pub varint_loop : ℕ → Bytes → ℕ → ℕ → ℕ → Read
varint_loop zero d i v s = too_long
varint_loop (suc n) d i v s = elim (get_elem? d i) [
  | none ↦ past_end
  | some b ↦
      let v' = v + ((b % 128) * 2 ^ s) % 2 ^ 64 in
      let rest = varint_loop n d (i + 1) v' (s + 7) in
      if ltb b 128 then value v' (i + 1) else if ltb 63 (s + 7) then too_long else rest
]

-- The shift passes 63 in the tenth round.
unfoldable pub protobuf_varint : Bytes → ℕ → Read
unfolding varint_loop
protobuf_varint d i = varint_loop 10 d i 0 0

-- The end of a value, `before_start` for a negative offset that `int(n)` makes, or the error.
pub data Skipped : Type 0 where
  to : ℕ → Skipped
  before_start unreadable : Skipped

jump : ℕ → ℕ → Skipped
jump j n =
    if ltb (j + n) (2 ^ 63)
    then to (j + n)
    else if leb (2 ^ 64) (j + n)
    then to (j + n - 2 ^ 64)
    else before_start

skip_varint : Read → Skipped
skip_varint (value v k) = to k
skip_varint past_end = unreadable
skip_varint too_long = unreadable

skip_bytes : Read → Skipped
skip_bytes (value n j) = jump j n
skip_bytes past_end = unreadable
skip_bytes too_long = unreadable

pub protobuf_skip : Bytes → ℕ → ℕ → Skipped
unfolding jump skip_varint skip_bytes
protobuf_skip d i wire =
    if wire == 0
    then skip_varint (protobuf_varint d i)
    else if wire == 1
    then to (i + 8)
    else if wire == 2
    then skip_bytes (protobuf_varint d i)
    else if wire == 5
    then to (i + 4)
    else unreadable

pub is_printable_ascii : Bytes → Bool
is_printable_ascii [] = true
is_printable_ascii (b ∷ d) = if ltb b 0x20 || ltb 0x7e b then false else is_printable_ascii d

mime_slash : Bytes → Option ℕ → Bool
mime_slash d none = false
mime_slash d (some slash) =
    if slash == 0 || slash == length d - 1 then false else is_printable_ascii d

pub looks_like_mime_string : Bytes → Bool
unfolding is_printable_ascii mime_slash
looks_like_mime_string d =
    if length d == 0 || leb 64 (length d) then false else mime_slash d (index_byte b'/' d)

abbrev ftyp : Bytes
ftyp = codes "ftyp"

pub looks_like_mp4 : Bytes → Bool
looks_like_mp4 d = ltb 12 (length d) && text_eq (take 4 (drop 4 d)) ftyp

pub data Outcome {ℓ} (A : Type ℓ) : Type ℓ where
  done : A → Outcome A
  panicked : Outcome A

infixl 5 ◌>>=◌
abbrev pub ◌>>=◌ {ℓ κ} : {A : Type ℓ} {B : Type κ} → Outcome A → (A → Outcome B) → Outcome B
done a >>= f = f a
panicked >>= f = panicked

-- `d[s:e]` of a slice with the given spare bytes behind its length.
unfoldable pub slice : Bytes → Bytes → ℕ → ℕ → Outcome Bytes
slice d spare s e =
    if leb s e && leb e (length d + length spare)
    then done (take (e - s) (drop s (d ++ spare)))
    else panicked

-- A video and its mime, each as far as it is found; the empty text is no mime.
abbrev pub Found : Type 0
Found = Option Bytes × Text

abbrev better : Text → Text → Text
better mime found = if is_empty found then mime else found

-- What a field that may be a message adds: the video in it replaces the one so far.
from_nested : Text → Option Bytes → Found → Found
from_nested mime mp4 (none, m2mime) = (mp4, mime)
from_nested mime mp4 (some m2, m2mime) = (some m2, better mime m2mime)

or_first : Option Bytes → Bytes → Option Bytes
or_first none d = some d
or_first (some m) d = some m

-- The switch on a field's bytes.
take_field : (Bytes → Text → Outcome Found) → ℕ → Bytes → Text → Option Bytes → Outcome Found
unfolding from_nested or_first
take_field deeper tag payload mime mp4 =
    if looks_like_mp4 payload
    then done (or_first mp4 payload, mime)
    else if looks_like_mime_string payload
    then done (mp4, if is_empty mime then payload else mime)
    else if leb 32 (length payload) && ltb (tag / 8) 100
    then (do found ← deeper payload mime; done (from_nested mime mp4 found))
    else done (mp4, mime)

-- A field with a declared length: one that declares more bytes than are left ends the loop.
resource_payload :
    (Bytes → Text → Outcome Found)
    → (ℕ → Text → Option Bytes → Outcome Found)
    → Bytes
    → ℕ
    → Read
    → Text
    → Option Bytes
    → Outcome Found
resource_payload deeper next d tag (value n s) mime mp4 = elim (ltb (length d - s) n) [
  | true ↦ done (mp4, mime)
  | false ↦ do
    payload ← slice d [] s (s + n)
    found ← take_field deeper tag payload mime mp4
    next (s + n) found.1 found.0
]
resource_payload deeper next d tag past_end mime mp4 = done (mp4, mime)
resource_payload deeper next d tag too_long mime mp4 = done (mp4, mime)

after_skip :
    (ℕ → Text → Option Bytes → Outcome Found) → Skipped → Text → Option Bytes → Outcome Found
after_skip next (to k) mime mp4 = next k mime mp4
after_skip next before_start mime mp4 = done (mp4, mime)
after_skip next unreadable mime mp4 = done (mp4, mime)

resource_field :
    (Bytes → Text → Outcome Found)
    → (ℕ → Text → Option Bytes → Outcome Found)
    → Bytes
    → Read
    → Text
    → Option Bytes
    → Outcome Found
resource_field deeper next d (value tag j) mime mp4 = elim (tag % 8 == 2) [
  | true ↦ resource_payload deeper next d tag (protobuf_varint d j) mime mp4
  | false ↦ after_skip next (protobuf_skip d j (tag % 8)) mime mp4
]
resource_field deeper next d past_end mime mp4 = done (mp4, mime)
resource_field deeper next d too_long mime mp4 = done (mp4, mime)

-- The loop over the fields of a message, on fuel. A field that cannot be read ends it with what has
-- been found.
pub resource_loop :
    (Bytes → Text → Outcome Found) → ℕ → Bytes → ℕ → Text → Option Bytes → Outcome Found
unfolding resource_field resource_payload after_skip
resource_loop deeper zero d i mime mp4 = done (mp4, mime)
resource_loop deeper (suc f) d i mime mp4 = elim (ltb i (length d)) [
  | false ↦ done (mp4, mime)
  | true ↦ resource_field deeper (resource_loop deeper f d) d (protobuf_varint d i) mime mp4
]

-- extractVideoFromResourceDepth, by the levels that are left: none when `depth > 6`.
pub resource_depth : ℕ → Bytes → Text → Outcome Found
unfolding resource_loop
resource_depth zero d mime = done (none, [])
resource_depth (suc levels) d mime =
    resource_loop (resource_depth levels) (length d + 1) d 0 mime none

-- The recursion starts at depth 1 of at most 6.
pub extract_video_from_resource : Bytes → Outcome Found
unfolding resource_depth resource_loop take_field
extract_video_from_resource d = resource_loop (resource_depth 6) (length d + 1) d 0 [] none

-- A top-level field with a declared length, which is not compared with what is left.
envelope_payload : (ℕ → Outcome Found) → Bytes → Bytes → Read → Outcome Found
envelope_payload next d spare (value n s) = do
  payload ← slice d spare s (s + n)
  found ← extract_video_from_resource payload
  elim found.0 [ some mp4 ↦ done (some mp4, found.1) | none ↦ next (s + n) ]
envelope_payload next d spare past_end = done (none, [])
envelope_payload next d spare too_long = done (none, [])

envelope_skip : (ℕ → Outcome Found) → Skipped → Outcome Found
envelope_skip next (to k) = next k
envelope_skip next before_start = done (none, [])
envelope_skip next unreadable = done (none, [])

envelope_field : (ℕ → Outcome Found) → Bytes → Bytes → Read → Outcome Found
envelope_field next d spare (value tag j) = elim (tag % 8 == 2) [
  | true ↦ envelope_payload next d spare (protobuf_varint d j)
  | false ↦ envelope_skip next (protobuf_skip d j (tag % 8))
]
envelope_field next d spare past_end = done (none, [])
envelope_field next d spare too_long = done (none, [])

-- The loop over the top-level fields, on fuel.
pub envelope_loop : ℕ → Bytes → Bytes → ℕ → Outcome Found
unfolding envelope_field envelope_payload envelope_skip
envelope_loop zero d spare i = done (none, [])
envelope_loop (suc f) d spare i = elim (ltb i (length d)) [
  | false ↦ done (none, [])
  | true ↦ envelope_field (envelope_loop f d spare) d spare (protobuf_varint d i)
]

unfoldable pub extract_video_from_envelope : Bytes → Bytes → Outcome Found
unfolding envelope_loop
extract_video_from_envelope d spare = envelope_loop (length d + 1) d spare 0
