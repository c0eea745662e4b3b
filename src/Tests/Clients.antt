-- ===== src/Tests/Clients.antt =====
-- The key of the client interface and the stream of events, on concrete inputs.
use Prim.Native.Nat.{ℕ, ◌+◌}
use mathlib.Core.Bool.{false, true}
use mathlib.Core.List.{List, [], ◌∷◌}
use mathlib.Core.Option.{none, some}
use mathlib.Core.Path.{refl, ◌≡◌}
use gemini_web2api_go.ApiKey.{
  Bearer, Keys, brought_key, get_api_key, init_api_key, require_api_key, rotate_api_key,
  set_api_key, store_key, stored_key,
}
use gemini_web2api_go.ApiKey.Table.{KeyChange, change_key, change_keys, rotates, sets}
use gemini_web2api_go.Base.Dict.{lookup, put}
use gemini_web2api_go.Base.Int.{int_eq}
use gemini_web2api_go.Base.Tests.{nat_eq}
use gemini_web2api_go.Base.Text.{
  Text, codes, has_prefix, join, split_on, text_beq, text_eq, trim_space,
}
use gemini_web2api_go.Dialect.{postgres, question_mark, rebind, upsert}
use gemini_web2api_go.Dialect.Marks.{rebind-weave, weave}
use gemini_web2api_go.Events.{new_sse_writer}
use gemini_web2api_go.Events.Order.{stream-read}
use gemini_web2api_go.Events.Reader.{
  Sending, close, new_client, read_all, received, received_all, received_end, send_all,
  sends_content, sends_reasoning, stream_fails,
}

abbrev test_sendings : List Sending
test_sendings = sends_reasoning (codes "hm") ∷ sends_content [] ∷ sends_content (codes "Hello") ∷ []

-- What the client has in the end.
reader_text :
    received_all new_client test_sendings
    ≡ record new_client { text = codes "Hello"; thought = codes "hm" }
unfolding received_all received
reader_text = refl

stream-read_example :
    read_all
      (some new_client)
      (close
        (send_all (new_sse_writer (codes "id") 7 (codes "model")) test_sendings)
        (stream_fails (codes "lost"))).written
    ≡ some (received_end (received_all new_client test_sendings) (stream_fails (codes "lost")))
stream-read_example =
    stream-read (codes "id") 7 (codes "model") test_sendings (stream_fails (codes "lost"))

abbrev first_start : Keys
first_start = record { is_locked = false; runtime_key = none; table = [] }

abbrev test_changes : List KeyChange
test_changes = rotates true (codes "ab") ∷ sets true (codes "short") ∷ []

abbrev with_bearer : Bearer
with_bearer = record { authorization = codes "Bearer sk-gemini-ab"; x_api_key = [] }

-- The generated key lets a request in.
lets_in :
    require_api_key
      (change_keys (init_api_key true (codes "00") first_start [] []) test_changes)
      with_bearer
    ≡ true
unfolding change_keys change_key init_api_key rotate_api_key set_api_key require_api_key get_api_key
    brought_key stored_key store_key lookup put has_prefix trim_space text_beq
lets_in = refl

abbrev one_digit_of : ℕ → Text
one_digit_of n = (48 + n) ∷ []

rebound : rebind one_digit_of postgres (codes "a=? AND b=?") ≡ codes "a=$1 AND b=$2"
unfolding rebind
rebound = refl

upserted :
    upsert postgres (codes "kv") (codes "k" ∷ codes "v" ∷ []) (codes "k" ∷ [])
    ≡ codes "INSERT INTO kv(k, v) VALUES(?,?) ON CONFLICT(k) DO UPDATE SET v=excluded.v"
unfolding upsert join text_beq
upserted = refl

rebind-weave_example :
    rebind one_digit_of postgres (codes "a=? AND b=?")
    ≡ weave one_digit_of 0 (split_on question_mark (codes "a=? AND b=?"))
rebind-weave_example = rebind-weave one_digit_of postgres (codes "a=? AND b=?")
