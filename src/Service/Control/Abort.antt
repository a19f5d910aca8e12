-- ===== src/Service/Control/Abort.antt =====
-- What becomes of threads that nobody joins.
use hpnl.Base.{
  ℕ, zero, suc, ◌+◌, ◌≡◌, ◌≢◌, ◌≤◌, refl, Option, some, true, false, ◌==◌, ltb, arith, sym, subst,
}
use hpnl.Base.StdMap.{StdMap}
use hpnl.Base.Run.{fault, Returns, returns, Returns-mono}
use hpnl.Event.Proactor.{EqHandler}
use hpnl.Event.Thread.{ThreadWrapper}
use hpnl.Event.Thread
use hpnl.Fabric.{Call, Lib, Obj, Trace}
use hpnl.Service.{Service, World, max_workers}
use hpnl.Service.Control.{start_cqs, start_all, start_if, start, delete_thread, delete_threads}

abbrev Serv : Type 0 → Type 0
Serv G = Obj Service (World G)

module _ {G : Type 0} (lib : Lib) where
  -- The loop of `start` leaves the thread for events alone.
  start_cqs-keeps :
      (n i : ℕ) (w : Option ThreadWrapper) (s : Serv G)
      → n + i ≤ max_workers
      → s.self.eq_thread ≡ w
      → Returns (λ _ t. t.self.eq_thread ≡ w) (start_cqs lib n i s)
  unfolding start_cqs Thread.construct Thread.start
  start_cqs-keeps zero i w s l e = returns e
  start_cqs-keeps (suc n) i w s l e =
      let room : ltb i max_workers ≡ true = ground arith in
      rw room (start_cqs-keeps n (i + 1) w _ (omega arith) e)

  delete_threads-fault :
      (w : ThreadWrapper) (s : Serv G)
      → s.self.eq_thread ≡ some w
      → w.handle ≢ 0
      → delete_threads lib s ≡ fault
  unfolding delete_threads delete_thread
  delete_threads-fault w s e ne =
      let joinable : (w.handle == 0) ≡ false = ground arith in
      let ends : delete_thread lib s.self.eq_thread s ≡ fault =
        subst (λ x. delete_thread lib x s ≡ fault) (sym e) (rw joinable refl) in
      rw ends refl

  -- The threads of a service for connections with at most ten workers are started, and each thread
  -- gets a handle. Then the destructor, called with no `shutdown()` or `wait()` before, ends the
  -- program.
  pub start-delete_threads :
      (handlers : StdMap EqHandler) (s : Serv G)
      → s.self.proactor ≡ some handlers
      → s.self.msg ≡ true
      → s.self.worker_num ≤ max_workers
      → ((t : Trace) → (lib t Call.spawn).out ≢ 0)
      → Returns (λ _ t. delete_threads lib t ≡ fault) (start lib s)
  unfolding start start_if start_all Thread.construct Thread.start
  start-delete_threads handlers s up msg few handles =
      let w : ThreadWrapper = record { handle = (lib s.trace Call.spawn).out; done = false } in
      rw (up, msg)
        (Returns-mono (start_cqs-keeps s.self.worker_num 0 (some w) _ (omega arith) refl)
          λ _ t e. delete_threads-fault w t e (handles s.trace))
