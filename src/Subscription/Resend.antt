-- ===== src/Subscription/Resend.antt =====
-- What `openCb` of web/client/src/common/socket/Websocket.js sends again when the connection opens.
use gonitor.Prelude.{
  ℕ, some, List, [], ◌∷◌, ◌++◌, String, nat_eq, string_eq, Option-cases, inl, inr, get, put_int,
  remove, get-put, get-put_int, get-split, ◌≡◌, refl, arith, ◌∙◌, sym, ap, append_assoc,
}
use text.Mathlib.TextPositions.{eq_refl}
use gonitor.Subscription.{
  Registry, Handlers, Targets, WbSocket, Message, handlers_of, unmount, open_messages,
  target_messages, subscribe_message,
}
use gonitor.Subscription.Registry.{unregister-eq-some}
use gonitor.Subscription.Messages.{unmount-eq-some}

module _ {H : Type 0} where
  target_messages-append :
      (type : String) (b t : Targets H)
      → target_messages type (b ++ t) ≡ target_messages type b ++ target_messages type t
  target_messages-append type [] t = refl
  target_messages-append type ((id, hs) ∷ b) t =
      ap (subscribe_message type id ∷◌) (target_messages-append type b t)

  open_messages-append :
      (b t : Registry H) → open_messages (b ++ t) ≡ open_messages b ++ open_messages t
  unfolding open_messages
  open_messages-append [] t = refl
  open_messages-append ((type, targets) ∷ b) t =
      ap (target_messages type targets ++◌) (open_messages-append b t)
      ∙ sym (append_assoc (target_messages type targets) _ _)

  -- Every topic of the registry is subscribed again, whether it has receiving functions or not.
  open_messages_topic :
      (type : String) (id : ℕ) (hs : Handlers H) (r : Registry H)
      → handlers_of type id r ≡ some hs
      → (before after : List Message) × (open_messages r
          ≡ before ++ subscribe_message type id ∷ after)
  unfolding handlers_of open_messages
  open_messages_topic type id hs r e = elim (Option-cases (get type r)) [
    | inl a ↦ absurd (ground arith)
    | inr (targets, a) ↦
        let (rb, rt, p) = get-split type targets r a in
        let split : (b t : Targets H) × (targets ≡ b ++ (id, hs) ∷ t) =
          get-split id hs targets (ground arith) in
        (
          open_messages rb ++ target_messages type split.0,
          target_messages type split.1 ++ open_messages rt,
          ap open_messages p
              ∙ open_messages-append rb ((type, targets) ∷ rt)
              ∙ ap (λ l. open_messages rb ++ (target_messages type l ++ open_messages rt)) split.2
              ∙ ap (λ l. open_messages rb ++ (l ++ open_messages rt))
                  (target_messages-append type split.0 ((id, hs) ∷ split.1))
              ∙ simp append_assoc,
        )
  ]

module _ {H D : Type 0} where
  -- After a subscriber has unmounted, an opening of the connection still subscribes to its topic,
  -- also if the topic has no receiving function left.
  pub open_messages-unmount :
      (type key : String) (id : ℕ) (s s' : WbSocket H D)
      → unmount type id key s ≡ some s'
      → (before after : List Message) × (open_messages s'.app.subscribed
          ≡ before ++ subscribe_message type id ∷ after)
  open_messages-unmount type key id s s' e =
      let u = (unmount-eq-some type key id s s' e).0 in
      let (targets, hs, a, b, c) =
        unregister-eq-some type key id s.app.subscribed s'.app.subscribed u in
      open_messages_topic type id (remove key hs) s'.app.subscribed (
        unfold handlers_of in
        ground (
          arith,
          c,
          get-put type type (put_int id (remove key hs) targets) s.app.subscribed,
          eq_refl type,
          get-put_int id id (remove key hs) targets,
        ))
