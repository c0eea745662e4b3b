-- ===== src/Talk/Progress.antt =====
-- What a turn leaves of the state that the next turn goes on from.
use Prim.Native.Nat.{ℕ}
use mathlib.Core.Bool.{Bool, false, true}
use mathlib.Core.Option.{Option}
use gemini_web2api_go.Base.Int.{int_eq}
use gemini_web2api_go.Base.Tests.{nat_eq}
use gemini_web2api_go.Base.Text.{Text, text_eq}
use gemini_web2api_go.Config.{RuntimeConfig}
use gemini_web2api_go.Conversation.{ConvState}
use gemini_web2api_go.Outside.{Outside}
use gemini_web2api_go.Payload.{Writers}
use gemini_web2api_go.Talk.{Talk}
use gemini_web2api_go.Talk.Ties.{Stays, Waits}
use gemini_web2api_go.Trip.{Asked, Trip}

module _ (c : RuntimeConfig) (o : Outside) (k : Writers) (nanos : ℕ → ℕ) (q : Asked)
    (v : ConvState) where
  -- Before the first round there may be no error; the first round leaves one or ends the turn.
  abbrev Ready : Bool → Talk → Type 0
  Ready true s = Stays v s.conv
  Ready false s = Waits v s
