-- ===== src/Stream/Fence.antt =====
-- internal/app/messages.go: `toolFenceGate`, which holds back tool calls from a stream of
-- increments. The loop of `Push` runs on fuel.
use Prim.Native.Nat.{suc, zero, ℕ, ◌+◌, ◌-◌}
use mathlib.Core.Bool.{Bool, false, true}
use mathlib.Core.List.{[], ◌++◌, ◌∷◌}
use mathlib.Core.Option.{Option, none, some}
use gemini_web2api_go.Base.Int.{int_eq}
use gemini_web2api_go.Base.Lists.{drop, length, take}
use gemini_web2api_go.Base.Tests.{if◌then◌else◌, ltb, nat_eq}
use gemini_web2api_go.Base.Text.{Text, codes, has_prefix, text_eq}

abbrev pub fence_open : Text
fence_open = codes "```tool_call"

abbrev pub fence_close : Text
fence_close = codes "```"

-- `s[:i]` and `s[i+len(m):]` for `i := strings.Index(s, m)`, if there is one and `m` is not empty.
unfoldable pub cut_text : Text → Text → Option (Text × Text)
cut_text m [] = none
cut_text m (c ∷ s) =
    if has_prefix (c ∷ s) m
    then some ([], drop (length m) (c ∷ s))
    else elim (cut_text m s) [ none ↦ none | some (p, q) ↦ some (c ∷ p, q) ]

-- The loop of `partialPrefixLen`, from `k` down.
unfoldable pub partial_from : ℕ → Text → Text → ℕ
partial_from zero s m = 0
partial_from (suc k) s m =
    let rest = partial_from k s m in
    if has_prefix m (drop (length s - suc k) s) then suc k else rest

-- `partialPrefixLen`
unfoldable pub partial_prefix_len : Text → Text → ℕ
partial_prefix_len s m =
    partial_from (if ltb (length s) (length m - 1) then length s else length m - 1) s m

-- What is sent, what stays in `buf`, and `inFence`.
abbrev pub Passed : Type 0
Passed = Text × Text × Bool

abbrev pub after_text : Text → Passed → Passed
after_text p (sent, rest, fenced) = (p ++ sent, rest, fenced)

-- The loop of `Push`.
unfoldable pub run_gate : ℕ → Bool → Text → Passed
run_gate zero fenced buf = ([], buf, fenced)
run_gate (suc fuel) true buf = elim (cut_text fence_close buf) [
  | none ↦ ([], buf, true)
  | some (p, q) ↦ run_gate fuel false q
]
run_gate (suc fuel) false buf = elim (cut_text fence_open buf) [
  | none ↦ let n = length buf - partial_prefix_len buf fence_open in (take n buf, drop n buf, false)
  | some (p, q) ↦ after_text p (run_gate fuel true q)
]

-- `toolFenceGate`, with all that it handed to `emit` in `sent`.
pub record ToolFenceGate : Type 0 where
  pub buf : Text
  pub sent : Text
  pub in_fence : Bool

-- `Push`
unfoldable pub push_gate : ToolFenceGate → Text → ToolFenceGate
push_gate g delta =
    let all = g.buf ++ delta in
    let (out, rest, fenced) = run_gate (length all + 1) g.in_fence all in
    record { buf = rest; sent = g.sent ++ out; in_fence = fenced }
