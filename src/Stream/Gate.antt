-- ===== src/Stream/Gate.antt =====
-- toolFenceGate of internal/app/messages.go. The text that `send` emits is what it adds to `sent`.
pub mod Cut
pub mod Chunks
pub mod Reference
use gemini_web2api_go_browse.Prelude.{
  ℕ, zero, suc, ◌+◌, ◌-◌, ◌≡◌, refl, Bool, true, false, List, [], ◌∷◌, ◌++◌, Option, none, some,
  ltb, if◌then◌else◌, length, take, drop, Text, codes, index, has_prefix,
}

abbrev pub tool_fence_open : Text
tool_fence_open = codes "```tool_call"

abbrev pub tool_fence_close : Text
tool_fence_close = codes "```"

pub record ToolFenceGate : Type 0 where
  pub buf : Text
  pub sent : Text
  pub in_fence : Bool

abbrev pub new_tool_fence_gate : ToolFenceGate
new_tool_fence_gate = record { buf = []; sent = []; in_fence = false }

-- The loop of partialPrefixLen from `k` down: a suffix of `s` that the marker begins with.
longest_suffix : ℕ → Text → Text → ℕ
longest_suffix zero s marker = 0
longest_suffix (suc k) s marker =
    if has_prefix (drop (length s - suc k) s) marker then suc k else longest_suffix k s marker

pub partial_prefix_len : Text → Text → ℕ
unfolding longest_suffix
partial_prefix_len s marker =
    let max = length marker - 1 in
    longest_suffix (if ltb (length s) max then length s else max) s marker

abbrev send : Text → ToolFenceGate → ToolFenceGate
send s g = record g { sent = g.sent ++ s }

-- The end of a round outside a fence that finds no opening: what may begin one is held back.
hold : ToolFenceGate → ToolFenceGate
unfolding partial_prefix_len
hold g =
    let n = length g.buf - partial_prefix_len g.buf tool_fence_open in
    record g { sent = g.sent ++ take n g.buf; buf = drop n g.buf }

leave_fence : ℕ → ToolFenceGate → ToolFenceGate
leave_fence j g = record g { buf = drop (j + length tool_fence_close) g.buf; in_fence = false }

enter_fence : ℕ → ToolFenceGate → ToolFenceGate
enter_fence i g = record {
  sent = g.sent ++ take i g.buf;
  buf = drop (i + length tool_fence_open) g.buf;
  in_fence = true;
}

-- The loop of Push, on fuel.
pub push_loop : ℕ → ToolFenceGate → ToolFenceGate
push_loop zero g = g
push_loop (suc f) g = elim g.in_fence [
  | true ↦ elim (index tool_fence_close g.buf) [ none ↦ g | some j ↦ push_loop f (leave_fence j g) ]
  | false ↦ elim (index tool_fence_open g.buf) [
    | some i ↦ push_loop f (enter_fence i g)
    | none ↦ hold g
  ]
]

-- Every round but the last takes at least three bytes off the buffer.
unfoldable pub push : ToolFenceGate → Text → ToolFenceGate
unfolding push_loop leave_fence enter_fence hold
push g delta =
    let g' : ToolFenceGate = record g { buf = g.buf ++ delta } in push_loop (length g'.buf + 1) g'

pub push_all : ToolFenceGate → List Text → ToolFenceGate
push_all g [] = g
push_all g (d ∷ ds) = push_all (push g d) ds
