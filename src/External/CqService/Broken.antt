-- ===== src/External/CqService/Broken.antt =====
-- What becomes of a service whose `init` fails.
use hpnl.Base.{
  ℕ, ℤ, zero, suc, ◌+◌, ◌≡◌, ◌≢◌, ◌≤◌, ◌<◌, refl, some, false, ◌==◌, arith, Bool-cases, inl, inr,
  failed, success, minus_one, get_elem?, set, length, ◌∷◌, ap, ◌∙◌, sym, subst, ℕ_discrete,
  get_elem?-set_self, get_elem?-set_other, length-set,
}
use hpnl.Base.Run.{fault, Returns, returns, Returns-bind, Returns-mono}
use hpnl.Fabric.{Call, Lib, Obj}
use hpnl.Event.Proactor.{is_negative}
use hpnl.External.Completion.{ExternalCqDemultiplexer}
use hpnl.External.Completion
use hpnl.External.CqService.{
  ExternalCqService, live, dangling, slot_at, delete_slot, delete_from, destruct, queue_at,
  open_slot, open_from, init, is_minus_one,
}
use hpnl.Msg.Stack.{World}

abbrev Serv : Type 0 → Type 0
Serv G = Obj ExternalCqService (World G)

-- Place `j` has a demultiplexer.
abbrev pub IsLive : ExternalCqService → ℕ → Type 0
IsLive v j = (d : ExternalCqDemultiplexer) × (get_elem? v.cq_demultiplexer j ≡ some (live d))

module _ {G : Type 0} where
  -- The loop that deletes leaves the places before it as they are.
  delete_from-keeps :
      (n i : ℕ) (s : Serv G)
      → n + i ≤ length s.self.cq_demultiplexer
      → ((j : ℕ) → i ≤ j → j < n + i → IsLive s.self j)
      → Returns
          (λ _ t.
            (t.self.worker_num ≡ s.self.worker_num)
            × ((j : ℕ)
                → j < i
                → get_elem? t.self.cq_demultiplexer j ≡ get_elem? s.self.cq_demultiplexer j))
          (delete_from n i s)
  unfolding delete_from slot_at delete_slot
  delete_from-keeps zero i s l lives = returns (refl, λ j b. refl)
  delete_from-keeps (suc n) i s l lives =
      let (d, found) = lives i (omega arith) (omega arith) in
      let slots = s.self.cq_demultiplexer in
      let u : Serv G = record s {
        self = record s.self { cq_demultiplexer = set slots i dangling };
      } in
      let size = length-set slots i dangling in
      rw found (
        Returns-mono
          (delete_from-keeps n (i + 1) u (omega (arith, size)) (λ j b b'.
            let (e, there) = lives j (omega arith) (omega arith) in
            (e, get_elem?-set_other slots i j dangling (λ same. ground arith) ∙ there)))
          λ _ t (num, same). (
            num,
            λ j b.
                same j (omega arith) ∙ get_elem?-set_other slots i j dangling (λ e. ground arith),
          ))

  -- A second `delete` of number 0.
  delete_from-fault :
      (w : ℕ) (s : Serv G)
      → w ≢ 0
      → get_elem? s.self.cq_demultiplexer 0 ≡ some dangling
      → delete_from w 0 s ≡ fault
  unfolding delete_from slot_at delete_slot
  delete_from-fault zero s ne e = absurd (ne refl)
  delete_from-fault (suc w) s ne e = rw e refl

  -- After the loop from number 0 the destructor deletes number 0 again.
  delete_all-fault :
      (i : ℕ) (s : Serv G)
      → suc i ≤ length s.self.cq_demultiplexer
      → s.self.worker_num ≢ 0
      → ((j : ℕ) → j < suc i → IsLive s.self j)
      → Returns (λ _ t. destruct t ≡ fault) (delete_from (suc i) 0 s)
  unfolding delete_from slot_at delete_slot destruct
  delete_all-fault i s l ne lives =
      let (d, found) = lives 0 (omega arith) in
      let slots = s.self.cq_demultiplexer in
      let u : Serv G = record s {
        self = record s.self { cq_demultiplexer = set slots 0 dangling };
      } in
      let size = length-set slots 0 dangling in
      rw found (
        Returns-mono
          (delete_from-keeps i 1 u (omega (arith, size)) (λ j b b'.
            let (e, there) = lives j (omega arith) in
            (e, get_elem?-set_other slots 0 j dangling (λ same. ground arith) ∙ there)))
          λ _ t (num, same).
            delete_from-fault t.self.worker_num t (λ z. ne (sym num ∙ z))
              (same 0 (omega arith) ∙ get_elem?-set_self slots 0 dangling (omega arith)))

module _ {G : Type 0} (lib : Lib) where
  init-Returns :
      (s : Obj ExternalCqDemultiplexer (World G))
      → s.self.cq ≢ 0
      → Returns (λ _ _. Unit {0}) (Completion.init lib s)
  unfolding Completion.init
  init-Returns s ne =
      let some_cq : (s.self.cq == 0) ≡ false = ground arith in
      let e = Call.epoll_create in
      let c = Call.control s.self.cq in
      elim (Bool-cases (is_negative (lib s.trace e).ret)) [
        | inl f ↦ rw f (returns tt)
        | inr f ↦
            rw (f, some_cq)
              (elim (Bool-cases (failed (lib (e ∷ s.trace) c).ret)) [
                | inl g ↦ rw g (returns tt)
                | inr g ↦
                    rw g
                      (elim (Bool-cases (
                        is_negative
                          (lib (c ∷ e ∷ s.trace)
                            (Call.epoll_add (lib (e ∷ s.trace) c).out s.self.cq)).ret)) [
                              | inl h ↦ rw h (returns tt)
                              | inr h ↦ rw h (returns tt)
                            ])
              ])
      ]

  -- The new demultiplexer is in its place, and nothing else has changed.
  open_slot-self :
      (i q junk : ℕ) (s : Serv G)
      → q ≢ 0
      → Returns
          (λ _ t.
            (d : ExternalCqDemultiplexer) × (t.self
              ≡ record s.self { cq_demultiplexer = set s.self.cq_demultiplexer i (live d) }))
          (open_slot lib i q junk s)
  unfolding open_slot Completion.construct
  open_slot-self i q junk s ne =
      Returns-bind
        (init-Returns
          (record { self = Completion.construct s.self.stack q junk; env = s.env; trace = s.trace })
          ne)
        λ r t _. returns (t.self, refl)

  -- A service that is set up, or one whose destructor deletes an object twice.
  pub data Outcome (w : ℕ) : ℤ → Serv G → Type 0 where
    set_up : {t : Serv G} → ((j : ℕ) → j < w → IsLive t.self j) → Outcome w success t
    broken : {t : Serv G} → destruct t ≡ fault → Outcome w minus_one t

  open_from-Outcome :
      (n i w junk : ℕ) (s : Serv G)
      → n + i ≡ w
      → w ≡ s.self.worker_num
      → w ≤ length s.self.cq_demultiplexer
      → ((j : ℕ) → j < w → (q : ℕ) × (get_elem? s.self.stack.cqs j ≡ some q) × (q ≢ 0))
      → ((j : ℕ) → j < i → IsLive s.self j)
      → Returns (Outcome w) (open_from lib n i junk s)
  unfolding open_from queue_at
  open_from-Outcome zero i w junk s e same l queues lives =
      returns (set_up (λ j b. lives j (omega arith)))
  open_from-Outcome (suc n) i w junk s e same l queues lives =
      let (q, found, ne) = queues i (omega arith) in
      let slots = s.self.cq_demultiplexer in
      rw found (
        Returns-bind (open_slot-self i q junk s ne) λ r t (d, new).
          let size = ap (λ v. length v.cq_demultiplexer) new ∙ length-set slots i (live d) in
          let num = ap (λ v. v.worker_num) new in
          let one_more : suc i ≡ i + 1 = omega arith in
          let lives' : (j : ℕ) → j < suc i → IsLive t.self j = λ j b. elim (ℕ_discrete i j) [
            | yes at ↦ (
              d,
              ap (λ v. get_elem? v.cq_demultiplexer j) new
                  ∙ subst (λ j. get_elem? (set slots i (live d)) j ≡ some (live d)) at
                      (get_elem?-set_self slots i (live d) (omega arith)),
            )
            | no other ↦
                let (d', before) = lives j (ground arith) in
                (
                  d',
                  ap (λ v. get_elem? v.cq_demultiplexer j) new
                      ∙ get_elem?-set_other slots i j (live d) other
                      ∙ before,
                )
          ] in
          elim (Bool-cases (is_minus_one r)) [
            | inl f ↦ rw f (
                Returns-bind
                  (subst (λ m. Returns (λ _ t. destruct t ≡ fault) (delete_from m 0 t)) one_more
                    (delete_all-fault i t (omega (arith, size))
                      (λ z. ground (arith, num, same, e, z)) lives'))
                  λ _ u again. returns (broken again))
            | inr f ↦ rw f (
                open_from-Outcome n (i + 1) w junk t (omega arith) (same ∙ sym num)
                  (omega (arith, size))
                  (λ j b.
                    subst (λ v. (q : ℕ) × (get_elem? v.stack.cqs j ≡ some q) × (q ≢ 0)) (sym new)
                      (queues j b))
                  (λ j b. lives' j (omega arith)))
          ])

  -- The queues of the stack are open, and the array has room for the workers. Then `init` returns 0
  -- and each worker has its demultiplexer; or it returns -1, and the destructor deletes a
  -- demultiplexer that `init` has deleted already.
  pub init-Outcome :
      (junk : ℕ) (s : Serv G)
      → s.self.worker_num ≤ length s.self.cq_demultiplexer
      → ((j : ℕ)
          → j < s.self.worker_num
          → (q : ℕ) × (get_elem? s.self.stack.cqs j ≡ some q) × (q ≢ 0))
      → Returns (Outcome s.self.worker_num) (init lib junk s)
  unfolding init
  init-Outcome junk s l queues =
      open_from-Outcome s.self.worker_num 0 s.self.worker_num junk s (omega arith) refl l queues
        (λ j b. absurd (ground arith))
