-- ===== src/Service/Control/Shutdown.antt =====
-- What `shutdown()` does to the threads, and what the destructor does to them then.
use hpnl.Base.{
  ℕ, zero, suc, ◌+◌, ◌≡◌, ◌≢◌, ◌≤◌, ◌<◌, refl, if◌then◌else◌, Bool, Option, none, some, true, false,
  ◌==◌, arith, get_elem?, set, length, Bool-cases, inl, inr, sym, subst, ap, ◌∙◌, ℕ_discrete,
  get_elem?-some, get_elem?-set_self, get_elem?-set_other, length-set,
}
use hpnl.Base.Run.{Returns, ok, returns, Returns-bind, Returns-mono}
use hpnl.Fabric.{Lib, Obj}
use hpnl.Event.Thread.{ThreadWrapper, stop, join}
use hpnl.Service.{Service, World, ServiceM}
use hpnl.Service.Control.{
  halt, thread_at, halt_cqs, shutdown, delete_thread, delete_cqs, delete_threads,
}

abbrev Serv : Type 0 → Type 0
Serv G = Obj Service (World G)

-- There is no thread, or it has been told to stop and is joined.
pub data IsDone : Option ThreadWrapper → Type 0 where
  no_thread : IsDone none
  joined : {w : ThreadWrapper} → w.done ≡ true → (w.handle == 0) ≡ true → IsDone (some w)

abbrev pub Done : ℕ → Service → Type 0
Done j v = (w : Option ThreadWrapper) × (get_elem? v.cq_thread j ≡ some w) × IsDone w

-- The threads below `m` in the array are done.
abbrev pub DoneBelow : ℕ → Service → Type 0
DoneBelow m v = (j : ℕ) → j < m → Done j v

-- One thread is put in its place, and the others below `m` are done.
set-DoneBelow :
    (i m : ℕ) (v v' : Service) (w : Option ThreadWrapper)
    → i < length v.cq_thread
    → ((j : ℕ) → j < m → i ≢ j → Done j v)
    → IsDone w
    → v'.cq_thread ≡ set v.cq_thread i w
    → DoneBelow m v'
set-DoneBelow i m v v' w l others done e j b = elim (ℕ_discrete i j) [
  | yes at ↦ (
    w,
    ap (λ ts. get_elem? ts j) e
        ∙ subst (λ j. get_elem? (set v.cq_thread i w) j ≡ some w) at
            (get_elem?-set_self v.cq_thread i w l),
    done,
  )
  | no ne ↦
      let (u, found, d) = others j b ne in
      (u, ap (λ ts. get_elem? ts j) e ∙ get_elem?-set_other v.cq_thread i j w ne ∙ found, d)
]

-- The threads below `m` are done; the number of threads, the thread for events and the number of
-- workers are as before.
abbrev Halted : (m : ℕ) (v v' : Service) → Type 0
Halted m v v' =
    DoneBelow m v'
    × (length v'.cq_thread ≡ length v.cq_thread)
    × (v'.eq_thread ≡ v.eq_thread)
    × (v'.worker_num ≡ v.worker_num)

module _ {G : Type 0} (lib : Lib) where
  halt-IsDone :
      (w : Option ThreadWrapper) (s : Serv G)
      → Returns (λ w' t. IsDone w' × (t.self ≡ s.self)) (halt lib w s)
  unfolding halt stop join
  halt-IsDone none s = returns (no_thread, refl)
  halt-IsDone (some w) s = elim (Bool-cases (w.handle == 0)) [
    | inl z ↦ rw z (returns (joined refl z, refl))
    | inr z ↦ rw z (returns (joined refl refl, refl))
  ]

  -- The loop of `shutdown` from round `i` up to `m`.
  halt_cqs-Halted :
      (n i m : ℕ) (s : Serv G)
      → n + i ≡ m
      → m ≤ length s.self.cq_thread
      → DoneBelow i s.self
      → Returns (λ _ t. Halted m s.self t.self) (halt_cqs lib n i s)
  unfolding halt_cqs thread_at
  halt_cqs-Halted zero i m s e l d = returns (λ j b. d j (omega arith), refl, refl, refl)
  halt_cqs-Halted (suc n) i m s e l d =
      let (w, found) = get_elem?-some s.self.cq_thread i (omega arith) in
      rw found (
        Returns-bind (halt-IsDone w s) λ w' t (done, same).
          let u : Serv G = record t {
            self = record t.self { cq_thread = set t.self.cq_thread i w' };
          } in
          let size = length-set t.self.cq_thread i w' ∙ ap (λ v. length v.cq_thread) same in
          Returns-mono
            (halt_cqs-Halted n (i + 1) m u (omega arith) (omega (arith, size)) (
              set-DoneBelow i (i + 1) s.self u.self w' (omega arith) (λ j b ne. d j (ground arith))
                done (ap (λ v. set v.cq_thread i w') same)))
            λ _ x (below, length', eq, worker). (
              below,
              length' ∙ size,
              eq ∙ ap (λ v. v.eq_thread) same,
              worker ∙ ap (λ v. v.worker_num) same,
            ))

  delete_thread-IsDone :
      (w : Option ThreadWrapper) (s : Serv G) → IsDone w → delete_thread lib w s ≡ ok tt s
  unfolding delete_thread
  delete_thread-IsDone none s no_thread = refl
  delete_thread-IsDone (some w) s (joined stopped z) = rw z refl

  if-Returns :
      {P : Unit {0} → Serv G → Type 0} (f g : ServiceM G (Unit {0})) (b : Bool) (s : Serv G)
      → Returns P (f s)
      → Returns P (g s)
      → Returns P ((if b then f else g) s)
  if-Returns f g true s r r' = r
  if-Returns f g false s r r' = r'

  -- The last loop of the destructor, from round `i`, where the threads below `m` are done.
  delete_cqs-Returns :
      (n i m : ℕ) (s : Serv G)
      → n + i ≤ m
      → m ≤ length s.self.cq_thread
      → DoneBelow m s.self
      → Returns (λ _ _. Unit {0}) (delete_cqs lib n i s)
  unfolding delete_cqs thread_at
  delete_cqs-Returns zero i m s b l d = returns tt
  delete_cqs-Returns (suc n) i m s b l d =
      let (w, found, done) = d i (omega arith) in
      let u : Serv G = record s {
        self = record s.self { cq_thread = set s.self.cq_thread i none };
      } in
      let size = length-set s.self.cq_thread i none in
      rw (found, delete_thread-IsDone w s done)
        (if-Returns _ _ s.self.is_server u
          (delete_cqs-Returns n (i + 1) m u (omega arith) (omega (arith, size))
            (set-DoneBelow i m s.self u.self none (omega arith) (λ j b ne. d j b) no_thread refl))
          (returns tt))

  delete_threads-Returns :
      (s : Serv G)
      → s.self.worker_num ≤ length s.self.cq_thread
      → IsDone s.self.eq_thread
      → DoneBelow s.self.worker_num s.self
      → Returns (λ _ _. Unit {0}) (delete_threads lib s)
  unfolding delete_threads
  delete_threads-Returns s l done below =
      let w = s.self.worker_num in
      rw (delete_thread-IsDone s.self.eq_thread s done)
        (delete_cqs-Returns w 0 w _ (omega arith) l below)

  -- A service has room for the threads of its workers. Then `shutdown()` leaves no thread that is not
  -- stopped and joined, and the destructor, which ends the program at a thread that is not joined,
  -- gets past all of them.
  pub shutdown-delete_threads :
      (s : Serv G)
      → s.self.worker_num ≤ length s.self.cq_thread
      → Returns
          (λ _ t.
            IsDone t.self.eq_thread
            × IsDone t.self.rdm_cq_thread
            × DoneBelow s.self.worker_num t.self
            × Returns (λ _ _. Unit {0}) (delete_threads lib t))
          (shutdown lib s)
  unfolding shutdown
  shutdown-delete_threads s l =
      Returns-bind
        (halt_cqs-Halted s.self.worker_num 0 s.self.worker_num s (omega arith) l
          (λ j b. absurd (ground arith)))
        λ _ t (below, size, _, workers).
          Returns-bind (halt-IsDone s.self.eq_thread t) λ w u (done, same).
            Returns-bind (halt-IsDone s.self.rdm_cq_thread _) λ w' x (done', same').
              let eq = ap (λ v. v.eq_thread) same' in
              let cqs = ap (λ v. v.cq_thread) same' ∙ ap (λ v. v.cq_thread) same in
              let num = ap (λ v. v.worker_num) same' ∙ ap (λ v. v.worker_num) same ∙ workers in
              let y : Serv G = record x { self = record x.self { rdm_cq_thread = w' } } in
              let below' : DoneBelow s.self.worker_num y.self = λ j b.
                let (w, found, d) = below j b in (w, ap (λ ts. get_elem? ts j) cqs ∙ found, d) in
              let done_eq : IsDone y.self.eq_thread = subst IsDone (sym eq) done in
              returns (
                done_eq,
                done',
                below',
                delete_threads-Returns y (omega (arith, num, ap length cqs, size)) done_eq
                    (subst (λ m. DoneBelow m y.self) (sym num) below'),
              )
