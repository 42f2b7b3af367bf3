-- ===== src/Routes/Stream/Settles.antt =====
-- What one look at a job leaves: a sound stream, that is closed where the look ends the loop.
use brain_mate.Common.{
  ℕ, String, ◌≡◌, refl, ◌+◌, ◌⊎◌, inl, inr, true, false, Option, none, some, List, [], ◌∷◌, leb,
  sym, ◌∙◌, str_eq,
}
use mathlib.Core.Bool.{true≢false}
use brain_mate.Errors.{unauthorized, not_found, internal_error}
use brain_mate.Types.{Text}
use brain_mate.Redis.{Redis}
use brain_mate.Exec.{Exec, date_now, is_circuit_open}
use brain_mate.Exec.Yields.{
  Onward, Yields, Anything, Onward-pure, Onward-if, Onward-command, Onward-bind, Yields-pure,
  Yields-if, Yields-catch, Yields-bind, Yields-Onward, date_now-Yields, is_circuit_open-Yields,
}
use brain_mate.Commands.{hgetall, xrange}
use brain_mate.Queue.Jobs.{JobStatusPayload, get_job_status, default_to}
use brain_mate.Queue.Responses.{read_job_result}
use brain_mate.Routes.Poll.{JobRow, either, is_foreign}
use brain_mate.Routes.Stream.Events.{
  StreamEvent, status, stage, token, result, failed, ping, Message, of_stage, of_chunk, neither,
  unparsed, Stream, Step, go_on, stop, is_ping, known_stage, send, on_message, on_messages,
  tell_status, is_new,
}
use brain_mate.Routes.Stream.Look.{
  tell_result, try_result, settle_payload, settle_row, read_status, from_status, look, keep_alive,
}

-- the last event is a result or an error
abbrev pub LastIsFinal : List StreamEvent → Type 0
LastIsFinal (result r ∷ es) = Unit
LastIsFinal (failed c m ∷ es) = Unit
LastIsFinal _ = ⊥

-- the stream ended early only if the client is gone
abbrev pub Sound : Stream → Type 0
Sound st = (st.ended ≡ false) ⊎ (st.gone ≡ true)

-- the client is gone, or it has a result or an error as its last event
abbrev pub Closed : Stream → Type 0
Closed st = (st.gone ≡ true) ⊎ LastIsFinal st.sent

abbrev pub Settled : Step → Type 0
Settled (go_on st) = Sound st
Settled (stop st) = Sound st × Closed st

module _ {S : Type 0} where
  send-Sound : (e : StreamEvent) (st : Stream) → Sound st → Yields {S = S} Sound (send e st)
  unfolding send
  send-Sound e st h =
      Yields-if st.ended _ _ (λ p. Yields-pure st h)
        (λ p.
          Yields-if st.gone _ _ (λ g. Yields-pure (record st { ended = true }) (inr g))
            (λ g.
              Yields-if (is_ping e) _ _ (λ q. Yields-pure (record st { sent = e ∷ st.sent }) h)
                (λ q. Yields-bind date_now _ date_now-Yields (λ now u.
                  Yields-pure (record st { sent = e ∷ st.sent; last_event_at = now }) h))))

  -- after an event that settles the job
  pub send-Closed :
      (e : StreamEvent) (st : Stream)
      → is_ping e ≡ false
      → ((es : List StreamEvent) → LastIsFinal (e ∷ es))
      → Sound st
      → Yields {S = S} (λ st'. Sound st' × Closed st') (send e st)
  unfolding send
  send-Closed e st final last h =
      Yields-if st.ended _ _
        (λ p.
          Yields-pure st
            (h, elim h [ inl going ↦ absurd (true≢false (sym p ∙ going)) | inr g ↦ inl g ]))
        (λ p.
          Yields-if st.gone _ _ (λ g. Yields-pure (record st { ended = true }) (inr g, inl g))
            (λ g.
              Yields-if (is_ping e) _ _ (λ q. absurd (true≢false (sym q ∙ final)))
                (λ q. Yields-bind date_now _ date_now-Yields (λ now u.
                  Yields-pure (record st { sent = e ∷ st.sent; last_event_at = now })
                    (h, inr (last st.sent))))))

  message-Sound : (m : Message) (st : Stream) → Sound st → Yields {S = S} Sound (on_message m st)
  unfolding on_message
  message-Sound (of_stage s) st h =
      Yields-if (known_stage s) _ _ (λ p. send-Sound (stage s) st h) (λ p. Yields-pure st h)
  message-Sound (of_chunk c d) st h = send-Sound (token c (default_to c d)) st h
  message-Sound neither st h = Yields-pure st h
  message-Sound (unparsed m) st h = send-Sound (token m m) st h

  pub messages-Sound :
      (ms : List Message) (st : Stream) → Sound st → Yields {S = S} Sound (on_messages ms st)
  unfolding on_messages
  messages-Sound [] st h = Yields-pure st h
  messages-Sound (m ∷ ms) st h =
      Yields-bind _ _ (message-Sound m st h) (λ st' h'. messages-Sound ms st' h')

  tell-Sound : (s : String) (st : Stream) → Sound st → Yields {S = S} Sound (tell_status s st)
  unfolding tell_status
  tell-Sound s st h =
      Yields-if (is_new st.last_status_sent s) _ _
        (λ p.
          Yields-bind (send (status s) st) _ (send-Sound (status s) st h)
            (λ st' h'. Yields-pure (record st' { last_status_sent = some s }) h'))
        (λ p. Yields-pure st h)

module _ {S : Type 0} (R : Redis S) (iso : ℕ → String)
    (select_job : String → String → Exec S (Option JobRow))
    (fail_active : String → String → Exec S (Unit {0}))
    (selects : (job_id user_id : String) → Yields Anything (select_job job_id user_id))
    (fails : (job_id message : String) → Onward (fail_active job_id message)) where
  read_result-Onward : (job_id : String) → Onward (read_job_result R job_id)
  unfolding read_job_result xrange
  read_result-Onward job_id =
      Onward-bind is_circuit_open _ (Yields-Onward _ is_circuit_open-Yields) (λ broken.
        Onward-if broken _ _ (Onward-pure _)
          (Onward-bind _ _ (Onward-command _) (λ entries. Onward-pure _)))

  get_status-Onward : (job_id : String) → Onward (get_job_status R iso job_id)
  unfolding get_job_status hgetall
  get_status-Onward job_id = Onward-bind _ _ (Onward-command _) (λ fields. Onward-pure _)

  try_result-Yields :
      (job_id : String) → Yields Anything (try_result R iso select_job fail_active job_id)
  unfolding try_result
  try_result-Yields job_id =
      Yields-catch _ _ (Onward-bind _ _ (read_result-Onward job_id) (λ v. Onward-pure _))
        (λ e. Yields-pure none tt)

  tell_result-Settled :
      (st : Stream) (value : Option (Option Text))
      → Sound st
      → Yields Settled (tell_result R iso select_job fail_active st value)
  unfolding tell_result is_ping
  tell_result-Settled st none h = Yields-pure (go_on st) h
  tell_result-Settled st (some value) h =
      Yields-bind _ _ (send-Closed (result value) st refl (λ es. tt) h)
        (λ st' h'. Yields-pure (stop st') h')

  payload-Settled :
      (user_id job_id : String) (payload : JobStatusPayload) (st : Stream)
      → Sound st
      → Yields Settled (settle_payload R iso select_job fail_active user_id job_id payload st)
  unfolding settle_payload is_ping
  payload-Settled user_id job_id payload st h =
      Yields-if (is_foreign payload user_id) _ _
        (λ p.
          Yields-bind _ _ (send-Closed (failed unauthorized "Job not found") st refl (λ es. tt) h)
            (λ st' h'. Yields-pure (stop st') h'))
        (λ p. Yields-bind _ _ (tell-Sound payload.status st h) (λ st' h'.
          Yields-if (str_eq payload.status "completed") _ _
            (λ q.
              Yields-bind _ _ (try_result-Yields job_id)
                (λ value u. tell_result-Settled st' value h'))
            (λ q.
              Yields-if (str_eq payload.status "failed") _ _
                (λ r.
                  Yields-bind _ _
                    (send-Closed (failed internal_error (default_to "Job failed" payload.error)) st'
                      refl (λ es. tt) h')
                    (λ st'' h''. Yields-pure (stop st'') h''))
                (λ r. Yields-pure (go_on st') h'))))

  row-Settled :
      (job_id : String) (row : Option JobRow) (st : Stream)
      → Sound st
      → Yields Settled (settle_row R iso select_job fail_active job_id row st)
  unfolding settle_row is_ping
  row-Settled job_id none st h =
      Yields-bind _ _ (send-Closed (failed not_found "Job not found") st refl (λ es. tt) h)
        (λ st' h'. Yields-pure (stop st') h')
  row-Settled job_id (some row) st h = Yields-bind _ _ (tell-Sound row.status st h) (λ st' h'.
      Yields-if (str_eq row.status "completed") _ _
        (λ q.
          Yields-bind _ _ (Yields-catch _ _ (read_result-Onward job_id) (λ e. Yields-pure none tt))
            (λ value u.
              Yields-bind _ _
                (send-Closed (result (either value row.output)) st' refl (λ es. tt) h')
                (λ st'' h''. Yields-pure (stop st'') h'')))
        (λ q.
          Yields-if (str_eq row.status "failed") _ _
            (λ r.
              Yields-bind _ _
                (send-Closed (failed internal_error (default_to "Job failed" row.error)) st' refl
                  (λ es. tt) h')
                (λ st'' h''. Yields-pure (stop st'') h''))
            (λ r. Yields-pure (go_on st') h')))

  status-Settled :
      (user_id job_id : String) (payload : Option JobStatusPayload) (st : Stream)
      → Sound st
      → Yields Settled (from_status R iso select_job fail_active user_id job_id payload st)
  unfolding from_status
  status-Settled user_id job_id none st h =
      Yields-bind _ _ (selects job_id user_id) (λ row u. row-Settled job_id row st h)
  status-Settled user_id job_id (some payload) st h = payload-Settled user_id job_id payload st h

  pub look-Settled :
      (user_id job_id : String) (st : Stream)
      → Sound st
      → Yields Settled (look R iso select_job fail_active user_id job_id st)
  unfolding look read_status
  look-Settled user_id job_id st h =
      Yields-bind _ _
        (Yields-bind _ _ is_circuit_open-Yields (λ broken u.
          Yields-if broken _ _ (λ p. Yields-pure none tt)
            (λ p. Yields-catch _ _ (get_status-Onward job_id) (λ e. Yields-pure none tt))))
        (λ payload u. status-Settled user_id job_id payload st h)

  pub keep_alive-Sound :
      (st : Stream) → Sound st → Yields Sound (keep_alive R iso select_job fail_active st)
  unfolding keep_alive
  keep_alive-Sound st h = Yields-bind date_now _ date_now-Yields (λ now u.
      Yields-if (leb (st.last_event_at + 15000) now) _ _ (λ p. send-Sound ping st h)
        (λ p. Yields-pure st h))
