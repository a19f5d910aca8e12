-- ===== src/Rdm/Stack/Release.antt =====
-- What an `RdmStack` gives back, after any outcome of `init`.
use hpnl.Base.{
  ℕ, ◌≡◌, ◌≢◌, refl, List, [], ◌∷◌, Bool, false, ◌==◌, arith, Bool-cases, inl, inr, ap, failed,
}
use hpnl.Base.Run.{ok, Returns, returns, Returns-bind, ◌>>=◌}
use hpnl.Fabric.{Call, Lib, Obj, Trace}
use hpnl.Fabric.Handles.{
  Accounted, Accounted-call, Accounted-open, Accounted-fail, Accounted-perm, Accounted-freeinfo,
  Accounted-null, closing-Accounted, freeing-Accounted, opened, closed,
}
use hpnl.Chunk.{ChunkMgr}
use hpnl.Rdm.Connection.{Names}
use hpnl.Rdm.Stack.{
  RdmStack, World, construct, source_flag, open_cq, open_domain, open_fabric, resolve, after_info,
  init, delete_all, close_all, destruct,
}

-- The handles in the fields, in the order in which the destructor gives them back.
abbrev pub handles : RdmStack → List ℕ
handles k = k.cq ∷ k.info ∷ k.domain ∷ k.fabric ∷ []

module _ {G : Type 0} (lib : Lib) (mgr : ChunkMgr G) (names : Names) where
  abbrev Stk : Type 0
  Stk = Obj RdmStack (World G)

  -- No connection, and the open handles stand in the fields.
  record Holds (s : Stk) : Type 0 where
    alone : s.self.cons ≡ []
    no_server : s.self.server_info ≡ 0
    accounted : Accounted lib s.trace (handles s.self)

  open_cq-Holds :
      (s : Stk) → s.self.cq ≡ 0 → Holds s → Returns (λ _ t. Holds t) (open_cq lib mgr names s)
  unfolding open_cq
  open_cq-Holds s z v =
      let c = Call.cq_open s.self.domain in
      elim (Bool-cases (failed (lib s.trace c).ret)) [
        | inl f ↦ rw f (
            returns (record {
              alone = v.alone;
              no_server = v.no_server;
              accounted = Accounted-fail c refl refl f v.accounted;
            }))
        | inr f ↦ rw f (
            returns (record {
              alone = v.alone;
              no_server = v.no_server;
              accounted =
                  Accounted-perm _ (λ h ne. ground (arith, z))
                    (Accounted-open c refl refl f v.accounted);
            }))
      ]

  open_domain-Holds :
      (s : Stk)
      → s.self.cq ≡ 0
      → s.self.domain ≡ 0
      → Holds s
      → Returns (λ _ t. Holds t) (open_domain lib mgr names s)
  unfolding open_domain
  open_domain-Holds s q z v =
      let c = Call.open_domain s.self.fabric s.self.info in
      elim (Bool-cases (failed (lib s.trace c).ret)) [
        | inl f ↦ rw f (
            returns (record {
              alone = v.alone;
              no_server = v.no_server;
              accounted = Accounted-fail c refl refl f v.accounted;
            }))
        | inr f ↦ rw f (
            open_cq-Holds
              (record s {
                self = record s.self { domain = (lib s.trace c).out };
                trace = c ∷ s.trace;
              })
              q
              (record {
                alone = v.alone;
                no_server = v.no_server;
                accounted =
                    Accounted-perm _ (λ h ne. ground (arith, z))
                      (Accounted-open c refl refl f v.accounted);
              }))
      ]

  open_fabric-Holds :
      (s : Stk)
      → s.self.cq ≡ 0
      → s.self.domain ≡ 0
      → s.self.fabric ≡ 0
      → Holds s
      → Returns (λ _ t. Holds t) (open_fabric lib mgr names s)
  unfolding open_fabric
  open_fabric-Holds s q d z v =
      let c = Call.open_fabric s.self.info in
      elim (Bool-cases (failed (lib s.trace c).ret)) [
        | inl f ↦ rw f (
            returns (record {
              alone = v.alone;
              no_server = v.no_server;
              accounted = Accounted-fail c refl refl f v.accounted;
            }))
        | inr f ↦ rw f (
            open_domain-Holds
              (record s {
                self = record s.self { fabric = (lib s.trace c).out };
                trace = c ∷ s.trace;
              })
              q d
              (record {
                alone = v.alone;
                no_server = v.no_server;
                accounted =
                    Accounted-perm _ (λ h ne. ground (arith, z))
                      (Accounted-open c refl refl f v.accounted);
              }))
      ]

  -- `close_all` gives back what stands in the fields.
  close_all-Accounted :
      (s : Stk) → Holds s → Returns (λ _ t. Accounted lib t.trace []) (close_all lib mgr names s)
  unfolding close_all
  close_all-Accounted s v =
      let all = closing-Accounted v.accounted in
      elim (Bool-cases s.self.is_server) [
        | inl e ↦
            let k = freeing-Accounted (Accounted-null v.no_server (freeing-Accounted all)) in
            rw e (returns (closing-Accounted (closing-Accounted k)))
        | inr e ↦ rw e (returns (closing-Accounted (closing-Accounted (freeing-Accounted all))))
      ]

  destruct-Accounted :
      (s : Stk) → Holds s → Returns (λ _ t. Accounted lib t.trace []) (destruct lib mgr names s)
  unfolding destruct delete_all
  destruct-Accounted s v =
      let none_left : delete_all lib mgr names s.self.cons s ≡ ok tt s =
        ap (λ ps. delete_all lib mgr names ps s) v.alone in
      rw none_left (close_all-Accounted s v)

  module _ (buffer_num : ℕ) (server external : Bool) (world : World G) where
    abbrev start : Stk
    start = record { self = construct buffer_num server external; env = world; trace = [] }

    -- A new stack that is deleted after `init`, at whichever call `init` failed, has given back
    -- each handle that it opened, once. fi_allocinfo must not return the null pointer.
    pub init-destruct-Accounted :
        (lib [] Call.allocinfo).out ≢ 0
        → Returns
            (λ _ t. Accounted lib t.trace [])
            ((do _ ← init lib mgr names; destruct lib mgr names) start)
    unfolding init resolve after_info construct opened closed
    init-destruct-Accounted ne =
        let h = (lib [] Call.allocinfo).out in
        let some_hints : (h == 0) ≡ false = ground arith in
        let c = Call.getinfo 0 0 (source_flag server) h in
        let t : Trace = Call.allocinfo ∷ [] in
        let none_held : Accounted lib [] [] = record { balance = λ h ne. omega arith } in
        let hints = Accounted-call Call.allocinfo refl none_held in
        rw some_hints (
          Returns-bind
            (elim (Bool-cases (failed (lib t c).ret)) [
              | inl f ↦ rw f (
                  returns (record {
                    alone = refl;
                    no_server = refl;
                    accounted =
                        Accounted-perm _ (λ h ne. ground arith)
                          (Accounted-freeinfo (Accounted-fail c refl refl f hints));
                  }))
              | inr f ↦ rw f (
                  open_fabric-Holds
                    (record start {
                      self = record start.self { info = (lib t c).out };
                      trace = Call.freeinfo h ∷ c ∷ t;
                    })
                    refl refl refl
                    (record {
                      alone = refl;
                      no_server = refl;
                      accounted =
                          Accounted-perm _ (λ h ne. ground arith)
                            (Accounted-freeinfo (
                              Accounted-perm (h ∷ (lib t c).out ∷ []) (λ k ne. ground arith)
                                (Accounted-open c refl refl f hints)));
                    }))
            ])
            λ r u v. destruct-Accounted u v)
