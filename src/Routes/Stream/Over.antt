-- ===== src/Routes/Stream/Over.antt =====
-- A stream that has nothing left to tell but what the channel tells.
use mathlib.Core.Bool.{true≢false}
use brain_mate.Common.{sym, ◌∙◌, ◌∷◌}
use brain_mate.Exec.Yields.{date_now-Yields}
use brain_mate.Queue.Jobs.{default_to}
use brain_mate.Routes.Stream.Events.{
  StreamEvent, status, stage, token, result, ping, Message, of_stage, of_chunk, neither, unparsed,
  known_stage, on_message, on_messages, hear,
}
use brain_mate.Common.{
  ℕ, ◌≡◌, refl, ◌≤◌, ◌⊎◌, inl, inr, Bool, true, false, ◌||◌, Option, none, some, List, [],
  if◌then◌else◌,
}
use brain_mate.Exec.{World, Result, ok, err, date_now}
use brain_mate.Exec.Yields.{Yields, Good, Yields-pure, Yields-if, Yields-bind}
use brain_mate.Routes.Stream.Events.{failed, Stream, is_ping, send}
use brain_mate.Routes.Stream.Settles.{LastIsFinal, Closed}

-- the last event, other than those that the channel told, is a result or an error
abbrev pub HasFinal : List StreamEvent → Type 0
HasFinal (result r ∷ es) = Unit
HasFinal (failed c m ∷ es) = Unit
HasFinal (token c d ∷ es) = HasFinal es
HasFinal (stage s ∷ es) = HasFinal es
HasFinal _ = ⊥

-- an aborted stream, one whose client is gone, or one with a result or an error
abbrev pub Over : Stream → Type 0
Over st = (st.aborted ≡ true) ⊎ ((st.gone ≡ true) ⊎ HasFinal st.sent)

LastIsFinal-HasFinal : (es : List StreamEvent) → LastIsFinal es → HasFinal es
LastIsFinal-HasFinal [] h = h
LastIsFinal-HasFinal (result r ∷ es) h = tt
LastIsFinal-HasFinal (failed c m ∷ es) h = tt
LastIsFinal-HasFinal (token c d ∷ es) h = absurd h
LastIsFinal-HasFinal (stage s ∷ es) h = absurd h
LastIsFinal-HasFinal (status s ∷ es) h = h
LastIsFinal-HasFinal (ping ∷ es) h = h

pub Closed-Over : (st : Stream) → Closed st → Over st
Closed-Over st (inl g) = inr (inl g)
Closed-Over st (inr h) = inr (inr (LastIsFinal-HasFinal st.sent h))

-- the stream has ended
abbrev pub Ended : Option Stream → Type 0
Ended none = ⊥
Ended (some st) = (st.ended ≡ true) × Over st

pub Good-Over :
    {S : Type 0} (n : ℕ) (x : Result Stream × World S)
    → Good (λ a w'. Over a × (n ≤ w'.clock)) x
    → Good (λ a w'. Over a) x
Good-Over n (ok a, w) h = h.0
Good-Over n (err e, w) h = absurd h

pub ended_reply :
    {S : Type 0} (x : Result (Option Stream) × World S)
    → Good (λ r w'. Ended r) x
    → (st : Stream) × ((x.0 ≡ ok (some st)) × ((st.ended ≡ true) × Over st))
ended_reply (ok none, w) h = absurd h
ended_reply (ok (some st), w) h = (st, (refl, h))
ended_reply (err e, w) h = absurd h

more_sent :
    (e : StreamEvent) (st : Stream) (now : ℕ)
    → ((es : List StreamEvent) → HasFinal es → HasFinal (e ∷ es))
    → Over st
    → Over (record st { sent = e ∷ st.sent; last_event_at = now })
more_sent e st now k (inl a) = inl a
more_sent e st now k (inr (inl g)) = inr (inl g)
more_sent e st now k (inr (inr h)) = inr (inr (k st.sent h))

pub left_over :
    (b : Bool) (st : Stream) → Over st → Over (record st { ended = true; gone = st.gone || b })
left_over b st (inl a) = inl a
left_over b st (inr (inl g)) = inr (inl (rw g refl))
left_over b st (inr (inr h)) = inr (inr h)

module _ {S : Type 0} where
  send-Over :
      (e : StreamEvent) (st : Stream)
      → is_ping e ≡ false
      → ((es : List StreamEvent) → HasFinal es → HasFinal (e ∷ es))
      → Over st
      → Yields {S = S} Over (send e st)
  unfolding send
  send-Over e st told k h =
      Yields-if st.ended _ _ (λ p. Yields-pure st h)
        (λ p.
          Yields-if st.gone _ _ (λ g. Yields-pure (record st { ended = true }) h)
            (λ g.
              Yields-if (is_ping e) _ _ (λ q. absurd (true≢false (sym q ∙ told)))
                (λ q. Yields-bind date_now _ date_now-Yields (λ now u.
                  Yields-pure (record st { sent = e ∷ st.sent; last_event_at = now })
                    (more_sent e st now k h)))))

  message-Over : (m : Message) (st : Stream) → Over st → Yields {S = S} Over (on_message m st)
  unfolding on_message is_ping
  message-Over (of_stage s) st h =
      Yields-if (known_stage s) _ _ (λ p. send-Over (stage s) st refl (λ es k. k) h)
        (λ p. Yields-pure st h)
  message-Over (of_chunk c d) st h = send-Over (token c (default_to c d)) st refl (λ es k. k) h
  message-Over neither st h = Yields-pure st h
  message-Over (unparsed m) st h = send-Over (token m m) st refl (λ es k. k) h

  messages-Over :
      (ms : List Message) (st : Stream) → Over st → Yields {S = S} Over (on_messages ms st)
  unfolding on_messages
  messages-Over [] st h = Yields-pure st h
  messages-Over (m ∷ ms) st h =
      Yields-bind _ _ (message-Over m st h) (λ st' h'. messages-Over ms st' h')

  pub hear-Over :
      (subscribed : Bool) (ms : List Message) (st : Stream)
      → Over st
      → Yields {S = S} Over (hear subscribed ms st)
  unfolding hear
  hear-Over subscribed ms st h = messages-Over (if subscribed then ms else []) st h
