-- ===== src/Stream/Examples.antt =====
-- Concrete streams through the gate and the delta tracker.
use gemini_web2api_go_browse.Prelude.{
  ◌≡◌, refl, true, false, [], ◌∷◌, ◌++◌, codes, has_prefix, index,
}
use gemini_web2api_go_browse.Stream.Gate.{new_tool_fence_gate, push, push_all}
use gemini_web2api_go_browse.Stream.Gate.Chunks.{push-push, joined}
use gemini_web2api_go_browse.Stream.Gate.Reference.{outside_fences, unsent, push_all_shows}
use gemini_web2api_go_browse.Stream.Delta.{delta_run, remaining_of, delta_run-remaining_of}

push-push_example :
    push (push new_tool_fence_gate (codes "a``")) (codes "`tool_call")
    ≡ push new_tool_fence_gate (codes "a``" ++ codes "`tool_call")
push-push_example = push-push new_tool_fence_gate (codes "a``") (codes "`tool_call")

push_all_shows_example :
    let g = push_all new_tool_fence_gate (codes "a``" ∷ codes "`tool_call{}" ∷ codes "```b" ∷ []) in
    outside_fences 0 false (joined (codes "a``" ∷ codes "`tool_call{}" ∷ codes "```b" ∷ []))
    ≡ g.sent ++ unsent g
push_all_shows_example = push_all_shows (codes "a``") (codes "`tool_call{}" ∷ codes "```b" ∷ [])

delta_run-remaining_of_example :
    let (emitted, sent) = delta_run [] (codes "he" ∷ codes "hell" ∷ []) in
    (sent ≡ emitted)
    × (has_prefix emitted (codes "hello") ≡ true
        → sent ++ remaining_of (codes "hello") emitted ≡ codes "hello")
delta_run-remaining_of_example =
    delta_run-remaining_of (codes "he" ∷ codes "hell" ∷ []) (codes "hello")

held_back :
    push new_tool_fence_gate (codes "hi ``")
    ≡ record { buf = codes "``"; sent = codes "hi "; in_fence = false }
unfolding push index has_prefix
held_back = refl

fenced : (push new_tool_fence_gate (codes "a```tool_call {}```b``")).sent ≡ codes "ab"
unfolding push index has_prefix
fenced = refl
