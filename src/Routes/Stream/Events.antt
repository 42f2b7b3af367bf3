-- ===== src/Routes/Stream/Events.antt =====
-- GET of app/api/writeright/job/[jobId]/stream/route.ts: the events that are sent to a client.
use brain_mate.Common.{
  ℕ, String, ◌+◌, Bool, true, false, not, ◌||◌, Option, none, some, List, [], ◌∷◌, str_eq,
  if◌then◌else◌,
}
use brain_mate.Types.{Text}
use brain_mate.Errors.{Code}
use brain_mate.Exec.{Exec, ok, pure, date_now, ◌>>=◌, ◌>>◌}
use brain_mate.Queue.Jobs.{default_to}

pub data StreamEvent : Type 0 where
  -- the status that a poll found; the stage and the token that the channel told
  status stage : String → StreamEvent
  token : String → String → StreamEvent
  result : Option Text → StreamEvent
  failed : Code → String → StreamEvent
  ping : StreamEvent

-- A message of the channel, parsed: one with a stage, one with a chunk and perhaps a delta, any
-- other JSON, or a text on which `JSON.parse` or the handler throws.
pub data Message : Type 0 where
  of_stage : String → Message
  of_chunk : String → Option String → Message
  neither : Message
  unparsed : String → Message

-- What happens in a round of the loop: the messages that come while Redis and the database are
-- asked, which are taken to come before the look at the job, those that come in the wait, whether
-- the client went away, so that `enqueue` throws from then on, and whether the request is aborted.
pub record Wait : Type 0 where
  pub early : List Message
  pub messages : List Message
  pub leaves : Bool
  pub aborts : Bool

-- What happens after the loop: the messages that come while the job is marked as failed, those that
-- come while the channel is left, and whether the client went away.
pub record Closing : Type 0 where
  pub updating : List Message
  pub unsubscribing : List Message
  pub leaves : Bool

-- The variables of `start`, with the events that were sent, the last first.
pub record Stream : Type 0 where
  pub ended : Bool
  pub last_status_sent : Option String
  pub last_event_at : ℕ
  pub sent : List StreamEvent
  pub gone : Bool
  pub aborted : Bool

pub data Step : Type 0 where
  go_on stop : Stream → Step

abbrev pub max_ms : ℕ
max_ms = 90000

abbrev pub poll_ms : ℕ
poll_ms = 250

unfoldable pub is_ping : StreamEvent → Bool
is_ping ping = true
is_ping _ = false

-- lastStatusSent !== status
unfoldable pub is_new : Option String → String → Bool
is_new none s = true
is_new (some t) s = not (str_eq t s)

abbrev pub known_stage : String → Bool
known_stage s = str_eq s "drafting" || str_eq s "critiquing" || str_eq s "finalizing"

-- the client may have gone away, and the request may be aborted
unfoldable pub left : Wait → Stream → Stream
left during st = record st {
  gone = st.gone || during.leaves;
  aborted = st.aborted || during.aborts;
}

module _ {S : Type 0} where
  -- `sendEvent`
  unfoldable pub send : StreamEvent → Stream → Exec S Stream
  send event st =
      if st.ended
      then pure st
      else if st.gone
      then pure (record st { ended = true })
      else if is_ping event
      then pure (record st { sent = event ∷ st.sent })
      else do now ← date_now; pure (record st { sent = event ∷ st.sent; last_event_at = now })

  -- the handler of "message"
  unfoldable pub on_message : Message → Stream → Exec S Stream
  on_message (of_stage s) st = if known_stage s then send (stage s) st else pure st
  on_message (of_chunk chunk delta) st = send (token chunk (default_to chunk delta)) st
  on_message neither st = pure st
  on_message (unparsed m) st = send (token m m) st

  unfoldable pub on_messages : List Message → Stream → Exec S Stream
  on_messages [] st = pure st
  on_messages (m ∷ ms) st = do st' ← on_message m st; on_messages ms st'

  -- a channel that is not subscribed to tells nothing
  unfoldable pub hear : Bool → List Message → Stream → Exec S Stream
  hear subscribed messages st = on_messages (if subscribed then messages else []) st

  -- a status is told once
  unfoldable pub tell_status : String → Stream → Exec S Stream
  tell_status s st =
      if is_new st.last_status_sent s
      then (do st' ← send (status s) st; pure (record st' { last_status_sent = some s }))
      else pure st

  unfoldable pub sleep : Exec S (Unit {0})
  sleep w = (ok tt, record w { clock = w.clock + poll_ms })

  -- `setTimeout`, with what happens meanwhile
  unfoldable pub wait : Bool → Wait → Stream → Exec S Stream
  wait subscribed during st = do
    sleep
    st' ← hear subscribed during.messages st
    pure (left during st')

  abbrev pub stops : Stream → Exec S Step
  stops st = pure (stop st)

abbrev pub next_wait : List Wait → Wait
next_wait [] = record { early = []; messages = []; leaves = false; aborts = false }
next_wait (x ∷ xs) = x

abbrev pub later_waits : List Wait → List Wait
later_waits [] = []
later_waits (x ∷ xs) = xs

-- the stream as it starts
abbrev pub fresh_stream : ℕ → Stream
fresh_stream now = record {
  ended = false;
  last_status_sent = none;
  last_event_at = now;
  sent = [];
  gone = false;
  aborted = false;
}
