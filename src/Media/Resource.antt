-- ===== src/Media/Resource.antt =====
-- extractVideoFromResource: it does not panic, and what it finds is a video inside its input.
use gemini_web2api_go_browse.Prelude.{
  ℕ, zero, suc, ◌+◌, ◌-◌, ◌%◌, ◌/◌, ◌≤◌, ◌≡◌, refl, sym, ap, subst, ◌∙◌, true, false, ◌&&◌, [], ◌∷◌,
  ◌++◌, Option, none, some, arith, ltb, leb, ◌==◌, if◌then◌else◌, length, take, drop, Bool-cases,
  inl, inr, ◌⊎◌, append_assoc, append-nil, take-append-drop, some_injective, some_ne_none, Text,
  is_empty,
}
use gemini_web2api_go_browse.Media.{
  Bytes, Read, value, past_end, too_long, protobuf_varint, protobuf_skip, Skipped, to, before_start,
  unreadable, Outcome, done, panicked, ◌>>=◌, slice, Found, take_field, from_nested, or_first,
  resource_loop, resource_payload, after_skip, resource_field, resource_depth,
  extract_video_from_resource, looks_like_mp4, looks_like_mime_string,
}
use gemini_web2api_go_browse.Media.Varint.{Reads, protobuf_varint-Reads}

-- `m` stands in `d` as consecutive bytes.
abbrev pub Within : Bytes → Bytes → Type 0
Within m d = (pre : Bytes) × (rest : Bytes) × (d ≡ pre ++ (m ++ rest))

Within-trans : (a b c : Bytes) → Within a b → Within b c → Within a c
Within-trans a b c (p, r, e) (q, s, f) =
    (q ++ p, r ++ s, f ∙ ap (λ u. q ++ (u ++ s)) e ∙ simp append_assoc)

take-drop-Within : (n s : ℕ) (d : Bytes) → Within (take n (drop s d)) d
take-drop-Within n s d = (
  take s d,
  drop n (drop s d),
  sym (take-append-drop s d) ∙ ap (λ u. take s d ++ u) (sym (take-append-drop n (drop s d))),
)

-- A mime that is found looks like one, and a video that is found looks like one and stands in `d`.
pub record FineFound (d : Bytes) (f : Found) : Type 0 where
  pub mime : (f.1 ≡ []) ⊎ (looks_like_mime_string f.1 ≡ true)
  pub video : (m : Bytes) → f.0 ≡ some m → (looks_like_mp4 m ≡ true) × Within m d

abbrev pub Fine : Bytes → Outcome Found → Type 0
Fine d (done f) = FineFound d f
Fine d panicked = ⊥

abbrev FineMime : Text → Type 0
FineMime t = (t ≡ []) ⊎ (looks_like_mime_string t ≡ true)

Fine-bind :
    (c d : Bytes) (o : Outcome Found) (k : Found → Outcome Found)
    → Fine c o
    → ((f : Found) → FineFound c f → Fine d (k f))
    → Fine d (o >>= k)
Fine-bind c d (done f) k h g = g f h
Fine-bind c d panicked k h g = absurd h

from_nested-Fine :
    (d p : Bytes) (mime : Text) (mp4 : Option Bytes) (f : Found)
    → Within p d
    → FineFound d (mp4, mime)
    → FineFound p f
    → FineFound d (from_nested mime mp4 f)
unfolding from_nested
from_nested-Fine d p mime mp4 (none, t) w s h = s
from_nested-Fine d p mime mp4 (some m, []) w s h = record {
  mime = s.mime;
  video = λ x e. let (good, at) = h.video x e in (good, Within-trans x p d at w);
}
from_nested-Fine d p mime mp4 (some m, c ∷ t) w s h = record {
  mime = h.mime;
  video = λ x e. let (good, at) = h.video x e in (good, Within-trans x p d at w);
}

-- The recursive call, as the switch may make it.
abbrev Deeper : Type 0
Deeper = Bytes → Text → Outcome Found

abbrev FineDeeper : Deeper → Type 0
FineDeeper deeper = (p : Bytes) (t : Text) → FineMime t → Fine p (deeper p t)

or_first-Fine :
    (d p : Bytes) (mime : Text) (mp4 : Option Bytes)
    → Within p d
    → looks_like_mp4 p ≡ true
    → FineFound d (mp4, mime)
    → FineFound d (or_first mp4 p, mime)
unfolding or_first
or_first-Fine d p mime none w y s = record {
  mime = s.mime;
  video = λ x e. subst (λ u. (looks_like_mp4 u ≡ true) × Within u d) (some_injective e) (y, w);
}
or_first-Fine d p mime (some m) w y s = s

new_mime :
    (d p : Bytes) (mime : Text) (mp4 : Option Bytes)
    → looks_like_mime_string p ≡ true
    → FineFound d (mp4, mime)
    → FineFound d (mp4, if is_empty mime then p else mime)
new_mime d p [] mp4 y s = record { mime = inr y; video = s.video }
new_mime d p (c ∷ t) mp4 y s = s

take_field-Fine :
    (deeper : Deeper) (tag : ℕ) (d p : Bytes) (mime : Text) (mp4 : Option Bytes)
    → FineDeeper deeper
    → Within p d
    → FineFound d (mp4, mime)
    → Fine d (take_field deeper tag p mime mp4)
unfolding take_field
take_field-Fine deeper tag d p mime mp4 h w s = elim (Bool-cases (looks_like_mp4 p)) [
  | inl y ↦ rw y (or_first-Fine d p mime mp4 w y s)
  | inr n ↦ elim (Bool-cases (looks_like_mime_string p)) [
    | inl y ↦ rw (n, y) (new_mime d p mime mp4 y s)
    | inr n' ↦ elim (Bool-cases (leb 32 (length p) && ltb (tag / 8) 100)) [
      | inl y ↦
          rw (n, n', y)
            (Fine-bind p d (deeper p mime) _ (h p mime s.mime)
              (λ f g. from_nested-Fine d p mime mp4 f w s g))
      | inr n'' ↦ rw (n, n', n'') s
    ]
  ]
]

slice_inside :
    (d : Bytes) (s n : ℕ)
    → s ≤ length d
    → ltb (length d - s) n ≡ false
    → slice d [] s (s + n) ≡ done (take n (drop s d))
unfolding slice
slice_inside d s n le fits =
    let e : s + n - s ≡ n = omega arith in rw (append-nil d, e) (ground arith)

module _ (deeper : Deeper) (h : FineDeeper deeper) (d : Bytes) where
  abbrev FineNext : (ℕ → Text → Option Bytes → Outcome Found) → Type 0
  FineNext next = (k : ℕ) (t : Text) (m : Option Bytes) → FineFound d (m, t) → Fine d (next k t m)

  resource_payload-Fine :
      (next : ℕ → Text → Option Bytes → Outcome Found) (tag j : ℕ) (r : Read) (mime : Text)
      (mp4 : Option Bytes)
      → FineNext next
      → Reads 10 d j r
      → FineFound d (mp4, mime)
      → Fine d (resource_payload deeper next d tag r mime mp4)
  unfolding resource_payload
  resource_payload-Fine next tag j (value n s) mime mp4 g le fine =
      elim (Bool-cases (ltb (length d - s) n)) [
        | inl over ↦ rw (over, resource_payload) fine
        | inr fits ↦
            rw (fits, resource_payload)
              (rw (slice_inside d s n le.2 fits) (
                Fine-bind d d (take_field deeper tag (take n (drop s d)) mime mp4) _
                  (take_field-Fine deeper tag d (take n (drop s d)) mime mp4 h
                    (take-drop-Within n s d) fine)
                  (λ f. g (s + n) f.1 f.0)))
      ]
  resource_payload-Fine next tag j past_end mime mp4 g le fine = fine
  resource_payload-Fine next tag j too_long mime mp4 g le fine = fine

  after_skip-Fine :
      (next : ℕ → Text → Option Bytes → Outcome Found) (k : Skipped) (mime : Text)
      (mp4 : Option Bytes)
      → FineNext next
      → FineFound d (mp4, mime)
      → Fine d (after_skip next k mime mp4)
  unfolding after_skip
  after_skip-Fine next (to k) mime mp4 g fine = g k mime mp4 fine
  after_skip-Fine next before_start mime mp4 g fine = fine
  after_skip-Fine next unreadable mime mp4 g fine = fine

  resource_field-Fine :
      (next : ℕ → Text → Option Bytes → Outcome Found) (r : Read) (mime : Text) (mp4 : Option Bytes)
      → FineNext next
      → FineFound d (mp4, mime)
      → Fine d (resource_field deeper next d r mime mp4)
  unfolding resource_field
  resource_field-Fine next (value tag j) mime mp4 g fine = elim (Bool-cases (tag % 8 == 2)) [
    | inl y ↦
        rw (y, resource_field)
          (resource_payload-Fine next tag j (protobuf_varint d j) mime mp4 g
            (protobuf_varint-Reads d j) fine)
    | inr n ↦
        rw (n, resource_field) (after_skip-Fine next (protobuf_skip d j (tag % 8)) mime mp4 g fine)
  ]
  resource_field-Fine next past_end mime mp4 g fine = fine
  resource_field-Fine next too_long mime mp4 g fine = fine

  resource_loop-Fine :
      (f i : ℕ) (mime : Text) (mp4 : Option Bytes)
      → FineFound d (mp4, mime)
      → Fine d (resource_loop deeper f d i mime mp4)
  unfolding resource_loop
  resource_loop-Fine zero i mime mp4 fine = fine
  resource_loop-Fine (suc f) i mime mp4 fine = elim (Bool-cases (ltb i (length d))) [
    | inr end ↦ rw (end, resource_loop) fine
    | inl more ↦
        rw (more, resource_loop)
          (resource_field-Fine (resource_loop deeper f d) (protobuf_varint d i) mime mp4
            (resource_loop-Fine f) fine)
  ]

nothing-Fine : (d : Bytes) (mime : Text) → FineMime mime → FineFound d (none, mime)
nothing-Fine d mime h = record { mime = h; video = λ m e. absurd (some_ne_none (sym e)) }

resource_depth-Fine : (levels : ℕ) → FineDeeper (resource_depth levels)
unfolding resource_depth
resource_depth-Fine zero p t h = nothing-Fine p [] (inl refl)
resource_depth-Fine (suc levels) p t h =
    resource_loop-Fine (resource_depth levels) (resource_depth-Fine levels) p (length p + 1) 0 t
      none (nothing-Fine p t h)

-- For every bytes: the search of a resource does not panic; a mime that it returns is empty or
-- looks like one; and a video that it returns looks like an MP4 and stands in the bytes.
pub extract_video_from_resource-Fine : (d : Bytes) → Fine d (extract_video_from_resource d)
unfolding extract_video_from_resource
extract_video_from_resource-Fine d =
    resource_loop-Fine (resource_depth 6) (resource_depth-Fine 6) d (length d + 1) 0 [] none
      (nothing-Fine d [] (inl refl))
