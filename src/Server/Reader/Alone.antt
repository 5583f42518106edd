-- ===== src/Server/Reader/Alone.antt =====
-- The reader's loop of a connection of src/helpers/internal_server.rs when nothing else is at work: the
-- two models of it agree.
use atomic_websocket.Base.{
  ℕ, ◌≡◌, refl, sym, ap, ◌∙◌, Text, Bool, true, false, if◌then◌else◌, List, [], ◌∷◌, map,
}
use atomic_websocket.Runtime.Channel.{Channel}
use atomic_websocket.Runtime.Table.{Table}
use atomic_websocket.Schema.{Primitives}
use atomic_websocket.Options.{MessageMiddleware}
use atomic_websocket.Spillover.Each.{Interleaving, done, left, right, offer_all}
use atomic_websocket.Clients.{ClientSender, Network, HandlerMessage, ClientSenders}
use atomic_websocket.Server.{handle_message, read_loop}
use atomic_websocket.Server.Reader.{
  Event, message, Serving, handled, advance, run, frames, by_others, for_handler,
}
use atomic_websocket.Server.Received.{run-Interleaving}

abbrev pub event_of : Network → ℕ × Text → Event
event_of network (now, value) = message now network value

Interleaving-nil : {A : Type 0} {xs ys zs : List A} → Interleaving xs ys zs → ys ≡ [] → zs ≡ xs
Interleaving-nil done h = refl
Interleaving-nil (left x i) h = ap (λ xs. x ∷ xs) (Interleaving-nil i h)
Interleaving-nil (right y i) h = cc

frames-event_of :
    (network : Network) (values : List (ℕ × Text))
    → frames (map (event_of network) values) ≡ map (λ v. v.1) values
frames-event_of network [] = refl
frames-event_of network ((now, value) ∷ values) =
    ap (λ vs. value ∷ vs) (frames-event_of network values)

by_others-event_of :
    (network : Network) (values : List (ℕ × Text)) → by_others (map (event_of network) values) ≡ []
by_others-event_of network [] = refl
by_others-event_of network ((now, value) ∷ values) = by_others-event_of network values

module _ (T : Table ClientSender) (C : Channel HandlerMessage) (P : Primitives) (use_ping : Bool)
    (middlewares : List MessageMiddleware) (id : Text) (network : Network) where
  run_stopped :
      (values : List (ℕ × Text)) (s : ClientSenders T C)
      → let stopped : Serving T C P use_ping middlewares id = record {
        reading = false;
        senders = s;
      } in
        run T C P use_ping middlewares id (map (event_of network) values) stopped ≡ stopped
  unfolding run advance
  run_stopped [] s = refl
  run_stopped ((now, value) ∷ values) s = run_stopped values s

  -- What is left of the loop behind one message.
  rest_of_loop :
      (values : List (ℕ × Text)) (r : Bool × ClientSenders T C)
      → ((t : ClientSenders T C)
          → let start : Serving T C P use_ping middlewares id = record {
            reading = true;
            senders = t;
          } in
            (run T C P use_ping middlewares id (map (event_of network) values) start).senders
            ≡ read_loop T C P network use_ping middlewares id values t)
      → (run T C P use_ping middlewares id
          (map (event_of network) values)
          (handled T C P use_ping middlewares id r)).senders
        ≡ (if r.0 then r.1 else read_loop T C P network use_ping middlewares id values r.1)
  rest_of_loop values (true, t) same =
      ap (λ (x : Serving T C P use_ping middlewares id). x.senders) (run_stopped values t)
  rest_of_loop values (false, t) same = same t

  run-read_loop :
      (values : List (ℕ × Text)) (s : ClientSenders T C)
      → let start : Serving T C P use_ping middlewares id = record {
        reading = true;
        senders = s;
      } in
        (run T C P use_ping middlewares id (map (event_of network) values) start).senders
        ≡ read_loop T C P network use_ping middlewares id values s
  unfolding run advance read_loop
  run-read_loop [] s = refl
  run-read_loop ((now, value) ∷ values) s =
      rest_of_loop values (handle_message T C P now network use_ping middlewares id value s)
        (run-read_loop values)

  -- A connection that is alone offers the application exactly what its client sent before its
  -- first disconnect, less what cannot be read, what the server answers itself, and what a
  -- middleware stops, in order.
  pub read_loop-offer_all :
      (values : List (ℕ × Text)) (s : ClientSenders T C)
      → (read_loop T C P network use_ping middlewares id values s).buffers
        ≡ offer_all C s.spillover_buffer_size s.buffers
            (for_handler P use_ping middlewares id (map (λ v. v.1) values))
  read_loop-offer_all values s =
      let (ms, i, offered) =
        run-Interleaving T C P use_ping middlewares id (map (event_of network) values) s in
      ap (λ (t : ClientSenders T C). t.buffers) (sym (run-read_loop values s))
      ∙ offered
      ∙ ap (offer_all C s.spillover_buffer_size s.buffers) (
          Interleaving-nil i (by_others-event_of network values)
          ∙ ap (for_handler P use_ping middlewares id) (frames-event_of network values))
