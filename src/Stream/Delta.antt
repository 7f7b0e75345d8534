-- ===== src/Stream/Delta.antt =====
-- deltaTracker of internal/app/gemini.go and remainingOf of internal/app/server.go. What
-- cleanGeminiText makes of a frame is the text that the tracker is given.
use gemini_web2api_go_browse.Prelude.{
  ◌≡◌, refl, sym, ap, ◌∙◌, true, ◌||◌, not, List, [], ◌∷◌, ◌++◌, arith, leb, if◌then◌else◌, length,
  drop, Text, has_prefix, has_prefix-drop, is_empty, Bool-cases, inl, inr, append-nil, append_assoc,
}

-- The tracker is `emitted`. A frame holds the whole text so far; the call returns the new tracker
-- and the delta, which is empty when there is nothing new or the frame does not continue the text.
pub delta_push : Text → Text → Text × Text
delta_push emitted cleaned =
    if leb (length cleaned) (length emitted) || not (has_prefix emitted cleaned)
    then (emitted, [])
    else (cleaned, drop (length emitted) cleaned)

pub remaining_of : Text → Text → Text
remaining_of full emitted =
    if is_empty emitted
    then full
    else if has_prefix emitted full
    then drop (length emitted) full
    else []

-- The frames of an answer in order: the last tracker, and the deltas one behind the other.
pub delta_run : Text → List Text → Text × Text
delta_run emitted [] = (emitted, [])
delta_run emitted (f ∷ fs) =
    let (e, d) = delta_push emitted f in let (e', ds) = delta_run e fs in (e', d ++ ds)

delta_push_lem : (emitted f : Text) → emitted ++ (delta_push emitted f).1 ≡ (delta_push emitted f).0
unfolding delta_push
delta_push_lem emitted f =
    elim (Bool-cases (leb (length f) (length emitted) || not (has_prefix emitted f))) [
      | inl skip ↦ rw skip (append-nil emitted)
      | inr go ↦ rw go (has_prefix-drop emitted f (ground arith))
    ]

delta_run_lem :
    (emitted : Text) (fs : List Text)
    → emitted ++ (delta_run emitted fs).1 ≡ (delta_run emitted fs).0
unfolding delta_run
delta_run_lem emitted [] = append-nil emitted
delta_run_lem emitted (f ∷ fs) =
    let e = (delta_push emitted f).0 in
    sym (append_assoc emitted (delta_push emitted f).1 (delta_run e fs).1)
    ∙ ap (λ u. u ++ (delta_run e fs).1) (delta_push_lem emitted f)
    ∙ delta_run_lem e fs

remaining_lem : (full e : Text) → has_prefix e full ≡ true → e ++ remaining_of full e ≡ full
unfolding remaining_of
remaining_lem full [] y = refl
remaining_lem full (c ∷ e) y = rw y (has_prefix-drop (c ∷ e) full y)

-- Whatever frames arrive: the deltas sent, one behind the other, are the tracker's text; and when
-- the full text continues it, the deltas and the remaining text together are the full text, with
-- nothing sent twice and nothing left out.
pub delta_run-remaining_of :
    (fs : List Text) (full : Text)
    → let (emitted, sent) = delta_run [] fs in
      (sent ≡ emitted) × (has_prefix emitted full ≡ true → sent ++ remaining_of full emitted ≡ full)
delta_run-remaining_of fs full =
    (same, λ y. ap (λ u. u ++ remaining_of full emitted) same ∙ remaining_lem full emitted y)
  where
    emitted : Text
    emitted = (delta_run [] fs).0

    same : (delta_run [] fs).1 ≡ (delta_run [] fs).0
    same = delta_run_lem [] fs
