-- ===== src/Java/EqService/Remote.antt =====
-- What EqService's `reg_rma_buffer` returns to Java.
use hpnl.Base.{
  ℕ, ◌^◌, ◌≡◌, ◌≢◌, ◌≤◌, ◌↔◌, refl, true, false, ◌==◌, arith, ◌∷◌, failed, ◌⊎◌, inl, inr,
  Bool-cases,
}
use hpnl.Base.Run.{fault, Returns, returns}
use hpnl.Fabric.{Answer, Call, Trace, Lib}
use hpnl.Event.Proactor.{is_negative}
use hpnl.External.EqService.{ExternalEqService}
use hpnl.External.EqService
use hpnl.External.Events.{ExternalEqDemultiplexer}
use hpnl.Java.Binding.{Binding, on_service}
use hpnl.Java.EqService.{Env, reg_rma_buffer, to_jlong}
use hpnl.Java.EqService.Closing.{running}
use hpnl.Msg.Connection.Io.{Infos}
use hpnl.Msg.Stack.Rma

to_jlong_negative : (n : ℕ) → (is_negative (to_jlong n) ≡ true) ↔ (2 ^ 63 ≤ n)
to_jlong_negative n = ground arith

module _ (lib : Lib) (infos : Infos) (b : Binding ExternalEqService) (v : ExternalEqService)
    (d : ExternalEqDemultiplexer) (env : Env) (trace : Trace) (key : ℕ → ℕ)
    (buffer size id : ℕ) where
  -- The answer of fi_mr_reg.
  abbrev pub registration : Answer
  registration = lib (Call.new ∷ trace) (Call.mr_reg d.stack.domain buffer size)

  -- A stack that is initialised is to register a buffer of memory, `new` does not give the null
  -- pointer, nor does fi_mr_reg where it succeeds. If the registration fails, the null chunk is
  -- dereferenced; and if it succeeds, the answer is negative just if the key, as an unsigned number,
  -- is 2 ^ 63 or more.
  pub reg_rma_buffer-Answer :
      d.stack.initialized ≡ true
      → buffer ≢ 0
      → size ≢ 0
      → (lib trace Call.new).out ≢ 0
      → (failed registration.ret ≡ false → registration.out ≢ 0)
      → ((failed registration.ret ≡ true)
          × (reg_rma_buffer lib infos key buffer size id (running b v d env trace) ≡ fault))
        ⊎ ((failed registration.ret ≡ false)
            × Returns
                (λ r _. (is_negative r ≡ true) ↔ (2 ^ 63 ≤ key registration.out))
                (reg_rma_buffer lib infos key buffer size id (running b v d env trace)))
  unfolding reg_rma_buffer on_service EqService.reg_rma_buffer EqService.on_stack
      EqService.on_demultiplexer Rma.reg_rma_buffer Rma.register
  reg_rma_buffer-Answer on nb ns nn nr =
      let p : (buffer == 0) ≡ false = ground arith in
      let n : (size == 0) ≡ false = ground arith in
      let c : ((lib trace Call.new).out == 0) ≡ false = ground arith in
      let same : ((lib trace Call.new).out == (lib trace Call.new).out) ≡ true = ground arith in
      elim (Bool-cases (failed registration.ret)) [
        | inl f ↦ inl (
          f,
          rw (on_service, EqService.reg_rma_buffer, Rma.reg_rma_buffer, on, p, n, Rma.register, f)
              refl,
        )
        | inr f ↦
            let h : (registration.out == 0) ≡ false = ground (arith, nr f) in
            inr (
              f,
              rw
                  (
                    on_service, EqService.reg_rma_buffer, Rma.reg_rma_buffer, on, p, n,
                    Rma.register, f,
                  )
                  (rw (c, same, h) (returns (to_jlong_negative (key registration.out)))),
            )
      ]
