-- ===== src/Order/Publisher/Channels.antt =====
-- What `PublishOrderCreated` of internal/order/events.go does with its channel and its message.
use investment_engine.Prelude.{
  true, [], ℕ, suc, ◌+◌, List, ◌∷◌, ◌++◌, length, length-append, Option, none, some, ◌≡◌, refl, ap,
  ◌⊎◌, inl, inr, arith,
}
use investment_engine.GoError.{GoError}
use investment_engine.Result.{Result, ok, err}
use investment_engine.Tracing.{inject_trace_context}
use investment_engine.Order.Model.{Uuid}
use investment_engine.Order.Event.{OrderCreatedEvent}
use investment_engine.Order.Publisher.{
  Message, Attempt, Connection, event_message, publish_order_created, await_return, Run, begin,
  publishes, returns, send, marshalled, on_channel,
}

-- No channel leaks: one that is open belongs to a goroutine.
abbrev pub Balanced : Connection → Type 0
Balanced c = c.opened ≡ c.closed + length c.waiting

publish_order_created-Balanced :
    (a : Attempt) (event : OrderCreatedEvent) (c : Connection)
    → Balanced c
    → Balanced (publish_order_created a event c).1
unfolding publish_order_created
publish_order_created-Balanced a event c h = ground arith

await_return-Balanced :
    (returned : _) (before : List Uuid) (id : Uuid) (after : List Uuid) (c : Connection)
    → c.waiting ≡ before ++ id ∷ after
    → Balanced c
    → Balanced (await_return returned before id after c)
unfolding await_return
await_return-Balanced returned before id after c w h =
    omega (arith, h, ap length w, length-append before (id ∷ after), length-append before after)

-- However publishes and their goroutines interleave and fail, each channel that was opened is
-- closed or still belongs to a goroutine that waits; once none waits, all are closed.
pub Run-Balanced :
    {start c : Connection}
    → Run start c
    → start.opened ≡ start.closed + length start.waiting
    → c.opened ≡ c.closed + length c.waiting
Run-Balanced begin h = h
Run-Balanced (publishes {c} a event r) h =
    publish_order_created-Balanced a event c (Run-Balanced r h)
Run-Balanced (returns {c} returned before id after w r) h =
    await_return-Balanced returned before id after c w (Run-Balanced r h)

-- The message of an event with this body.
abbrev the_message : Attempt → List ℕ → Message
the_message a body = record {
  exchange = "order_events";
  routing_key = "order.created";
  mandatory = true;
  persistent = true;
  content_type = "application/json";
  headers = inject_trace_context a.trace_fields [];
  body = body;
}

-- What an answer of `PublishOrderCreated` means, for the connection before it.
abbrev Sent : Attempt → OrderCreatedEvent → Connection → Option GoError × Connection → Type 0
Sent a event c r =
    ((r.0 ≡ none)
      × ((body : List ℕ) × (a.marshal event ≡ ok body)
          × (r.1.sent ≡ the_message a body ∷ c.sent)
          × (r.1.waiting ≡ event.order_id ∷ c.waiting)))
    ⊎ (((e : GoError) × (r.0 ≡ some e)) × (r.1.sent ≡ c.sent) × (r.1.waiting ≡ c.waiting))

send-Sent :
    (a : Attempt) (event : OrderCreatedEvent) (c c' : Connection) (body : List ℕ)
    (e : Option GoError)
    → a.marshal event ≡ ok body
    → c'.sent ≡ c.sent
    → c'.waiting ≡ c.waiting
    → Sent a event c (send a event.order_id body e c')
unfolding event_message
send-Sent a event c c' body none m s w =
    inl (refl, (body, m, ap (◌∷◌ (the_message a body)) s, ap (◌∷◌ event.order_id) w))
send-Sent a event c c' body (some e) m s w = inr ((_, refl), s, w)

marshalled-Sent :
    (a : Attempt) (event : OrderCreatedEvent) (c c' : Connection) (r : Result (List ℕ))
    → a.marshal event ≡ r
    → c'.sent ≡ c.sent
    → c'.waiting ≡ c.waiting
    → Sent a event c (marshalled a event.order_id r c')
marshalled-Sent a event c c' (ok body) m s w = send-Sent a event c c' body a.publish_error m s w
marshalled-Sent a event c c' (err e) m s w = inr ((_, refl), s, w)

on_channel-Sent :
    (a : Attempt) (event : OrderCreatedEvent) (e : Option GoError) (c : Connection)
    → Sent a event c (on_channel a event e c)
on_channel-Sent a event (some e) c = inr ((_, refl), refl, refl)
on_channel-Sent a event none c =
    marshalled-Sent a event c (record c { opened = suc c.opened }) (a.marshal event) refl refl refl

-- `PublishOrderCreated` returns nil with the event, as its JSON, sent once, to the exchange
-- "order_events" under the key "order.created", as a mandatory and persistent message of the content
-- type "application/json" with the trace context in its headers, and a goroutine waiting for it; or
-- it returns an error, and nothing was sent.
pub publish_order_created-sent :
    (a : Attempt) (event : OrderCreatedEvent) (c : Connection)
    → (((publish_order_created a event c).0 ≡ none)
        × ((body : List ℕ) × (a.marshal event ≡ ok body)
            × ((publish_order_created a event c).1.sent
                ≡ record {
                  exchange = "order_events";
                  routing_key = "order.created";
                  mandatory = true;
                  persistent = true;
                  content_type = "application/json";
                  headers = inject_trace_context a.trace_fields [];
                  body = body;
                }
                  ∷ c.sent)
            × ((publish_order_created a event c).1.waiting ≡ event.order_id ∷ c.waiting)))
      ⊎ (((e : GoError) × ((publish_order_created a event c).0 ≡ some e))
          × ((publish_order_created a event c).1.sent ≡ c.sent)
          × ((publish_order_created a event c).1.waiting ≡ c.waiting))
unfolding publish_order_created
publish_order_created-sent a event c = on_channel-Sent a event a.open_error c
