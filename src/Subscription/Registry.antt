-- ===== src/Subscription/Registry.antt =====
-- The registry of web/client/src/common/socket/Websocket.js as a finite map from type, target
-- and key to the receiving function, and what an update calls.
use gonitor.Prelude.{
  ℕ, Option, none, some, String, if◌then◌else◌, ◌==◌, nat_eq, string_eq, nat_beq, Option-cases, inl,
  inr, get, put, put_int, remove, get-put, get-put_int, get-remove, ◌≡◌, arith, ◌&&◌,
}
use text.Mathlib.TextEquality.{eq_iff}
use text.Mathlib.TextPositions.{eq_refl}
use gonitor.Subscription.{or_empty, Registry, Handlers, Targets, handlers_of, register, unregister}

module _ {H : Type 0} where
  abbrev find_in : String → Option (Handlers H) → Option H
  find_in key none = none
  find_in key (some handlers) = get key handlers

  -- The function that is registered under a type, a target and a key.
  unfoldable pub receiver : String → ℕ → String → Registry H → Option H
  receiver type id key registry = find_in key (handlers_of type id registry)

  pub handlers_of-register :
      (type type' key : String) (id id' : ℕ) (h : H) (r : Registry H)
      → handlers_of type' id' (register type id key h r) ≡ (
          if type == type' && nat_beq id id'
          then some (put key h (or_empty (handlers_of type id r)))
          else handlers_of type' id' r)
  unfolding handlers_of register get
  handlers_of-register type type' key id id' h r = ground (
    arith,
    eq_iff type type',
    get-put type type'
        (put_int id (put key h (or_empty (get id (or_empty (get type r))))) (or_empty (get type r)))
        r,
    get-put_int id id' (put key h (or_empty (get id (or_empty (get type r)))))
        (or_empty (get type r)),
  )

  -- Registering puts the function under its type, target and key, and changes nothing else.
  pub receiver-register :
      (type type' key key' : String) (id id' : ℕ) (h : H) (r : Registry H)
      → receiver type' id' key' (register type id key h r) ≡ (
          if type == type' && (nat_beq id id' && (key == key'))
          then some h
          else receiver type' id' key' r)
  unfolding receiver get
  receiver-register type type' key key' id id' h r = ground (
    arith,
    eq_iff type type',
    handlers_of-register type type' key id id' h r,
    get-put key key' h (or_empty (handlers_of type id r)),
  )

  pub unregister-eq-some :
      (type key : String) (id : ℕ) (r r' : Registry H)
      → unregister type id key r ≡ some r'
      → (targets : Targets H) × (handlers : Handlers H) × (get type r ≡ some targets)
        × (get id targets ≡ some handlers)
        × (r' ≡ put type (put_int id (remove key handlers) targets) r)
  unfolding unregister
  unregister-eq-some type key id r r' e = elim (Option-cases (get type r)) [
    | inl a ↦ absurd (ground arith)
    | inr (targets, a) ↦ elim (Option-cases (get id targets)) [
      | inl b ↦ absurd (ground arith)
      | inr (handlers, b) ↦ (targets, handlers, a, b, ground arith)
    ]
  ]

  -- What the cleanup of a registration leaves: exactly the function under its type, target and key
  -- is gone.
  pub receiver-unregister :
      (type type' key key' : String) (id id' : ℕ) (r r' : Registry H)
      → unregister type id key r ≡ some r'
      → receiver type' id' key' r' ≡ (
          if type == type' && (nat_beq id id' && (key == key'))
          then none
          else receiver type' id' key' r)
  unfolding receiver handlers_of get
  receiver-unregister type type' key key' id id' r r' e =
      let (targets, handlers, a, b, c) = unregister-eq-some type key id r r' e in
      ground (
        arith,
        eq_iff type type',
        a,
        b,
        c,
        get-put type type' (put_int id (remove key handlers) targets) r,
        get-put_int id id' (remove key handlers) targets,
        get-remove key key' handlers,
      )

  -- A registration can be cleaned up: both objects are there.
  pub unregister-register :
      (type key : String) (id : ℕ) (h : H) (r : Registry H)
      → (r' : Registry H) × (unregister type id key (register type id key h r) ≡ some r')
  unregister-register type key id h r =
      elim (Option-cases (unregister type id key (register type id key h r))) [
        | inl e ↦ absurd (refused e)
        | inr found ↦ found
      ]
    where
      targets : Targets H
      targets =
          put_int id (put key h (or_empty (get id (or_empty (get type r))))) (or_empty (get type r))

      refused : unregister type id key (register type id key h r) ≡ none → ⊥
      refused e =
          unfold unregister register in
          ground (
            arith,
            e,
            get-put type type targets r,
            eq_refl type,
            get-put_int id id (put key h (or_empty (get id (or_empty (get type r)))))
                (or_empty (get type r)),
          )
