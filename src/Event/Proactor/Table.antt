-- ===== src/Event/Proactor/Table.antt =====
-- What registering and removing a handler change.
use hpnl.Base.{
  ℕ, ◌≡◌, ◌≢◌, refl, none, some, true, false, ◌==◌, if◌then◌else◌, arith, Bool-cases, inl, inr,
  failed, ◌∷◌, ◌∙◌, ap,
}
use hpnl.Base.StdMap.{lookup, has, lookup-insert, lookup-erase}
use hpnl.Base.Run.{Returns, returns, Returns-mono}
use hpnl.Fabric.{Call, Lib, Obj}
use hpnl.Msg.Stack.{World}
use hpnl.Event.Proactor.{
  EqHandler, Reactor, watch_fd, register_event, remove_event, register_handler, remove_handler,
  is_negative,
}

-- The stack, the connections and the chunks are as they were.
pub record Untouched {G : Type 0} (s t : Obj Reactor (World G)) : Type 0 where
  pub stack : t.self.stack ≡ s.self.stack
  pub env : t.env ≡ s.env

module _ {G : Type 0} (lib : Lib) where
  watch_fd-keeps :
      (id : ℕ) (change : ℕ → Call) (s : Obj Reactor (World G))
      → id ≢ 0
      → Returns
          (λ _ t. Untouched s t × (t.self.event_map ≡ s.self.event_map))
          (watch_fd lib id change s)
  unfolding watch_fd
  watch_fd-keeps id change s ne =
      let some_id : (id == 0) ≡ false = ground arith in
      let c = Call.control id in
      let d = change (lib s.trace c).out in
      rw some_id (elim (Bool-cases (failed (lib s.trace c).ret)) [
        | inl f ↦ rw f (returns (record { stack = refl; env = refl }, refl))
        | inr f ↦ rw f (elim (Bool-cases (is_negative (lib (c ∷ s.trace) d).ret)) [
          | inl g ↦ rw g (returns (record { stack = refl; env = refl }, refl))
          | inr g ↦ rw g (returns (record { stack = refl; env = refl }, refl))
        ])
      ])

  -- A handler with an event queue that is registered is found under its event queue, unless one is
  -- there already; other handlers stay, whether or not epoll takes the queue.
  pub register_handler-lookup :
      (h : EqHandler) (s : Obj Reactor (World G))
      → h.eq ≢ 0
      → Returns
          (λ _ t.
            Untouched s t
            × ((i : ℕ)
                → lookup i t.self.event_map ≡ (
                    if has h.eq s.self.event_map
                    then lookup i s.self.event_map
                    else if h.eq == i
                    then some h
                    else lookup i s.self.event_map)))
          (register_handler lib h s)
  unfolding register_handler register_event
  register_handler-lookup h s ne =
      Returns-mono (watch_fd-keeps h.eq (λ fd. Call.epoll_add fd h.eq) _ ne) λ _ t (u, e). (
        record { stack = u.stack; env = u.env },
        λ i. ap (lookup i) e ∙ lookup-insert h.eq i h s.self.event_map,
      )

  -- A handler in the table that is removed is gone, and the others stay, whether or not epoll lets
  -- the queue go.
  pub remove_handler-lookup :
      (id : ℕ) (s : Obj Reactor (World G))
      → id ≢ 0
      → has id s.self.event_map ≡ true
      → Returns
          (λ _ t.
            Untouched s t
            × ((i : ℕ)
                → lookup i t.self.event_map
                  ≡ (if id == i then none else lookup i s.self.event_map)))
          (remove_handler lib id s)
  unfolding remove_handler remove_event
  remove_handler-lookup id s ne there = rw there (
      Returns-mono (watch_fd-keeps id (λ fd. Call.epoll_del fd id) _ ne) λ _ t (u, e). (
        record { stack = u.stack; env = u.env },
        λ i. ap (lookup i) e ∙ lookup-erase id i s.self.event_map,
      ))
