-- ===== src/Subscription/Messages.antt =====
-- What mounting and unmounting a subscriber of web/client/src/common/socket/Websocket.js does to
-- the registry and the queue, and what an update calls.
use gonitor.Prelude.{
  ℕ, none, some, List, [], ◌∷◌, ◌++◌, map, String, nat_eq, string_eq, Option-cases, inl, inr,
  get-split, map-append, ◌≡◌, ◌≢◌, arith, ◌∙◌, ap, append_assoc,
}
use text.Mathlib.TextEquality.{eq_iff}
use text.Mathlib.TextPositions.{eq_refl}
use gonitor.Socket.{send}
use gonitor.Subscription.{
  Registry, Handlers, Client, WbSocket, handlers_of, register, unregister, unregistered, mount,
  unmount, message_cb, subscribe_message, unsubscribe_message, update_event,
}
use gonitor.Subscription.Registry.{
  receiver, receiver-register, receiver-unregister, unregister-register,
}

module _ {H D : Type 0} where
  pub unmount-eq-some :
      (type key : String) (id : ℕ) (s s' : WbSocket H D)
      → unmount type id key s ≡ some s'
      → (unregister type id key s.app.subscribed ≡ some s'.app.subscribed)
        × (s'.message_queue ≡ s.message_queue ++ unsubscribe_message type id ∷ [])
  unfolding unmount send
  unmount-eq-some type key id s s' e =
      elim (Option-cases (unregister type id key s.app.subscribed)) [
        | inl a ↦ absurd (ground arith)
        | inr (r, a) ↦ (ground arith, ground arith)
      ]

  -- Mounting a subscriber and unmounting it again, under a key that was free, leaves every
  -- receiving function as it was, and asks the server to subscribe and to unsubscribe.
  pub unmount-mount :
      (type key : String) (id : ℕ) (h : H) (s : WbSocket H D)
      → receiver type id key s.app.subscribed ≡ none
      → (s' : WbSocket H D) × (unmount type id key (mount type id key h s) ≡ some s')
        × ((type' key' : String) (id' : ℕ)
            → receiver type' id' key' s'.app.subscribed ≡ receiver type' id' key' s.app.subscribed)
        × (s'.message_queue
            ≡ s.message_queue ++ subscribe_message type id ∷ unsubscribe_message type id ∷ [])
  unfolding mount unmount send
  unmount-mount type key id h s free =
      let (r, e) = unregister-register type key id h s.app.subscribed in
      let asked = send (unsubscribe_message type id) (mount type id key h s) in
      (
        record asked { app = record (asked.app) { subscribed = r } },
        ap (unregistered asked) e,
        (λ type' key' id'. same type' key' id' r e),
        append_assoc s.message_queue (subscribe_message type id ∷ [])
            (unsubscribe_message type id ∷ []),
      )
    where
      same :
          (type' key' : String) (id' : ℕ) (r : Registry H)
          → unregister type id key (register type id key h s.app.subscribed) ≡ some r
          → receiver type' id' key' r ≡ receiver type' id' key' s.app.subscribed
      same type' key' id' r e = ground (
        arith,
        receiver-unregister type type' key key' id id' (register type id key h s.app.subscribed) r
            e,
        receiver-register type type' key key' id id' h s.app.subscribed,
        eq_iff type type',
        eq_iff key key',
      )

  -- When a subscriber unmounts, another subscriber of the same topic keeps its receiving
  -- function, and yet the server is asked to end the subscription of the topic.
  pub unmount_mutes :
      (type key other : String) (id : ℕ) (h : H) (s s' : WbSocket H D)
      → key ≢ other
      → receiver type id other s.app.subscribed ≡ some h
      → unmount type id key s ≡ some s'
      → (receiver type id other s'.app.subscribed ≡ some h)
        × (s'.message_queue ≡ s.message_queue ++ unsubscribe_message type id ∷ [])
  unmount_mutes type key other id h s s' apart found e =
      let (u, q) = unmount-eq-some type key id s s' e in
      (
        ground (
          arith,
          receiver-unregister type type key other id id s.app.subscribed s'.app.subscribed u,
          eq_iff key other,
          eq_refl type,
        ),
        q,
      )

  -- An update calls each function that is registered for its type and target, with the update's
  -- data, after the calls so far.
  pub message_cb_calls :
      (type key : String) (id : ℕ) (d : D) (h : H) (c : Client H D)
      → receiver type id key c.subscribed ≡ some h
      → (before after : List (H × D)) × ((message_cb
            (record { event = update_event; type = type; id = id; content = d })
            c).calls
          ≡ c.calls ++ (before ++ (h, d) ∷ after))
  unfolding message_cb receiver
  message_cb_calls type key id d h c found =
      elim (Option-cases (handlers_of type id c.subscribed)) [
        | inl a ↦ absurd (ground arith)
        | inr (handlers, a) ↦
            let split : (b t : Handlers H) × (handlers ≡ b ++ (key, h) ∷ t) =
              get-split key h handlers (ground arith) in
            (
              map (λ kh. (kh.1, d)) split.0,
              map (λ kh. (kh.1, d)) split.1,
              rw a (
                  ap (λ l. c.calls ++ map (λ kh. (kh.1, d)) l) split.2
                  ∙ ap (c.calls ++◌) (map-append _ split.0 ((key, h) ∷ split.1))),
            )
      ]
