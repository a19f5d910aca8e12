-- ===== src/External/Events/Watched.antt =====
-- The queues that epoll watches are those of `fid_map`.
use hpnl.Base.{
  ℕ, ◌≡◌, ◌≢◌, List, [], ◌∷◌, Bool, true, false, ◌==◌, not, ◌&&◌, if◌then◌else◌, arith, Bool-cases,
  inl, inr, failed, ap, ◌∙◌,
}
use hpnl.Base.StdMap.{StdMap, has, has-insert, has-erase}
use hpnl.Base.Run.{Returns, returns, Returns-bind, ◌>>=◌, pure}
use hpnl.Fabric.{Call, Lib, Obj, Trace}
use hpnl.Msg.Stack.{World}
use hpnl.Event.Proactor.{is_negative}
use hpnl.External.Events.{ExternalEqDemultiplexer, EventsM, change_event, add_event, delete_event}

module _ (lib : Lib) where
  -- Whether epoll watches a descriptor: it was added since it was last removed or closed.
  unfoldable pub watches : (fd : ℕ) → Trace → Bool
  watches fd [] = false
  watches fd (Call.epoll_add f i ∷ t) =
      let before = watches fd t in
      if (f == fd) && not (is_negative (lib t (Call.epoll_add f i)).ret) then true else before
  watches fd (Call.epoll_del f i ∷ t) =
      let before = watches fd t in
      if (f == fd) && not (is_negative (lib t (Call.epoll_del f i)).ret) then false else before
  watches fd (Call.close_fd f ∷ t) = let before = watches fd t in if f == fd then false else before
  watches fd (c ∷ t) = watches fd t

  -- What fi_control and epoll document: each queue has a descriptor of its own, which fi_control
  -- gives, and epoll removes a descriptor that it watches.
  pub record Waits (fd_of : ℕ → ℕ) : Type 0 where
    pub own : (i j : ℕ) → fd_of i ≡ fd_of j → i ≡ j
    pub succeeds : (t : Trace) (eq : ℕ) → eq ≢ 0 → failed (lib t (Call.control eq)).ret ≡ false
    pub gives : (t : Trace) (eq : ℕ) → eq ≢ 0 → (lib t (Call.control eq)).out ≡ fd_of eq
    pub removes :
        (t : Trace) (fd id : ℕ)
        → watches fd t ≡ true
        → is_negative (lib t (Call.epoll_del fd id)).ret ≡ false

  same-fd : (fd_of : ℕ → ℕ) → Waits fd_of → (i j : ℕ) → (fd_of i == fd_of j) ≡ (i == j)
  same-fd fd_of waits i j = elim (Bool-cases (i == j)) [
    | inl e ↦
        let same : i ≡ j = ground (arith, e) in
        let same' : fd_of i ≡ fd_of j = ap fd_of same in ground (arith, e, same')
    | inr n ↦
        let other : fd_of i ≢ fd_of j =
          λ e. let same : i ≡ j = waits.own i j e in ground (arith, n, same) in
        ground (arith, n, other)
  ]

  -- The descriptor of a queue is watched if the queue is in the map, and not if not.
  unfoldable pub IsWatched : (fd_of : ℕ → ℕ) → StdMap ℕ → Trace → Type 0
  IsWatched fd_of m t = (id : ℕ) → watches (fd_of id) t ≡ has id m

  abbrev pub InSync : {G : Type 0} → (ℕ → ℕ) → Obj ExternalEqDemultiplexer (World G) → Type 0
  InSync fd_of t = IsWatched fd_of t.self.fid_map t.trace

-- The calls of a client.
pub data Request : Type 0 where
  add : ℕ → Request
  delete : ℕ → Request

-- The requests are for queues that are there.
abbrev pub Real : List Request → Type 0
Real [] = Unit {0}
Real (add eq ∷ rest) = (eq ≢ 0) × Real rest
Real (delete eq ∷ rest) = (eq ≢ 0) × Real rest

module _ {G : Type 0} (lib : Lib) where
  -- The requests in their order, whatever each returns.
  unfoldable pub run : List Request → EventsM G (Unit {0})
  run [] = pure tt
  run (add eq ∷ rest) = do _ ← add_event lib eq; run rest
  run (delete eq ∷ rest) = do _ ← delete_event lib eq; run rest

  module _ (fd_of : ℕ → ℕ) (waits : Waits lib fd_of) where
    add_event-IsWatched :
        (eq : ℕ) (s : Obj ExternalEqDemultiplexer (World G))
        → eq ≢ 0
        → InSync lib fd_of s
        → Returns (λ _ t. InSync lib fd_of t) (add_event lib eq s)
    unfolding add_event change_event IsWatched watches
    add_event-IsWatched eq s ne w =
        let m = s.self.fid_map in
        let c = Call.control eq in
        let add = Call.epoll_add (fd_of eq) eq in
        let some_eq : (eq == 0) ≡ false = ground arith in
        elim (Bool-cases (has eq m)) [
          | inl h ↦ rw h (returns w)
          | inr h ↦
              rw (h, some_eq, waits.succeeds s.trace eq ne, waits.gives s.trace eq ne)
                (elim (Bool-cases (is_negative (lib (c ∷ s.trace) add).ret)) [
                  | inl g ↦ rw g (
                      returns λ id. rw (g, same-fd lib fd_of waits eq id) (ground (arith, h, w id)))
                  | inr g ↦ rw g (
                      returns λ id.
                        rw (g, same-fd lib fd_of waits eq id)
                          (ground (arith, h, w id, has-insert eq id eq m)))
                ])
        ]

    delete_event-IsWatched :
        (eq : ℕ) (s : Obj ExternalEqDemultiplexer (World G))
        → eq ≢ 0
        → InSync lib fd_of s
        → Returns (λ _ t. InSync lib fd_of t) (delete_event lib eq s)
    unfolding delete_event change_event IsWatched watches
    delete_event-IsWatched eq s ne w =
        let m = s.self.fid_map in
        let c = Call.control eq in
        let some_eq : (eq == 0) ≡ false = ground arith in
        elim (Bool-cases (has eq m)) [
          | inr h ↦ rw h (returns w)
          | inl h ↦
              let g = waits.removes (c ∷ s.trace) (fd_of eq) eq (w eq ∙ h) in
              rw (h, some_eq, waits.succeeds s.trace eq ne, waits.gives s.trace eq ne, g)
                (returns λ id.
                  rw (g, same-fd lib fd_of waits eq id)
                    (ground (arith, h, w id, has-erase eq id m)))
        ]

    -- Each queue has a descriptor of its own, which fi_control gives, and epoll removes a descriptor
    -- that it watches. Then through any sequence of requests to add or to delete queues that are
    -- there, whatever epoll answers to the additions, epoll watches the descriptors of the queues in
    -- the map, and of no other queue, if so it was at the start.
    pub run-IsWatched :
        (requests : List Request) (s : Obj ExternalEqDemultiplexer (World G))
        → Real requests
        → InSync lib fd_of s
        → Returns (λ _ t. InSync lib fd_of t) (run requests s)
    unfolding run
    run-IsWatched [] s real w = returns w
    run-IsWatched (add eq ∷ rest) s real w =
        Returns-bind (add_event-IsWatched eq s real.0 w) λ _ t w'. run-IsWatched rest t real.1 w'
    run-IsWatched (delete eq ∷ rest) s real w =
        Returns-bind (delete_event-IsWatched eq s real.0 w) λ _ t w'. run-IsWatched rest t real.1 w'
