-- ===== src/Msg/Stack/Table/Dialled.antt =====
-- What `MsgStack::connect` comes to.
use hpnl.Base.{
  ℕ, ◌%◌, ◌≡◌, ◌≢◌, refl, some, Bool, true, false, not, ◌||◌, ◌==◌, Bool-cases, inl, inr, failed,
  get_elem?, ◌∷◌, if◌then◌else◌, ap, sym, ◌∙◌,
}
use hpnl.Base.Run.{Returns, returns, Returns-mono}
use hpnl.Fabric.{Answer, Call, Lib, Trace}
use hpnl.Chunk.{ChunkMgr, ChunkMgrLaws}
use hpnl.Msg.Connection.{ConStatus}
use hpnl.Msg.Connection.Io.{Infos}
use hpnl.Msg.Stack.{source_flag}
use hpnl.Msg.Stack.Table.{connect, resolve}
use hpnl.Msg.Stack.Table.Assign.{
  Stk, Entered, Placed, not_opened, not_connected, entered, opened_queue, start_connection-Entered,
}

-- Where fi_eq_open succeeds, it gives no null pointer.
abbrev pub OpensQueues : Lib → Type 0
OpensQueues lib =
    (t : Trace) (fabric : ℕ)
    → failed (lib t (Call.eq_open fabric)).ret ≡ false
    → (lib t (Call.eq_open fabric)).out ≢ 0

module _ {G : Type 0} (lib : Lib) (mgr : ChunkMgr G) (infos : Infos) (laws : ChunkMgrLaws mgr) where
  abbrev State : Type 0
  State = Stk lib mgr infos laws

  -- The answer of fi_getinfo for the address.
  abbrev pub info_answer : State → (ip port : ℕ) → Answer
  info_answer s ip port =
      lib (Call.allocinfo ∷ s.trace)
        (Call.getinfo ip port (source_flag s.self.is_server) (lib s.trace Call.allocinfo).out)

  -- The guard of `connect` refuses, or fi_allocinfo or fi_getinfo does.
  abbrev pub refuses : State → (ip port : ℕ) (has_mgr : Bool) → Bool
  refuses s ip port has_mgr =
      if (not s.self.initialized || ip == 0) || (port == 0 || not has_mgr)
      then true
      else if (lib s.trace Call.allocinfo).out == 0
      then true
      else failed (info_answer s ip port).ret

  -- The stack once the address is resolved.
  abbrev pub resolved : State → (ip port : ℕ) → State
  resolved s ip port =
      let h = (lib s.trace Call.allocinfo).out in
      record s {
        self = record s.self { hints_tmp = h; info_tmp = (info_answer s ip port).out };
        trace = Call.getinfo ip port (source_flag s.self.is_server) h ∷ Call.allocinfo ∷ s.trace;
      }

  -- What fi_eq_open answers for the connection.
  abbrev pub queue_given : State → (ip port : ℕ) → Answer
  queue_given s ip port =
      opened_queue lib mgr infos laws (resolved s ip port) (info_answer s ip port).out

  -- The null pointer, with the table as it was, where the address is refused; and otherwise what
  -- opening a connection comes to.
  pub data Outcome (s : State) (ip port : ℕ) (has_mgr : Bool) (junk q r : ℕ) (t : State)
      : Type 0 where
    unresolved :
        refuses s ip port has_mgr ≡ true
        → r ≡ 0
        → t.self.con_map ≡ s.self.con_map
        → Outcome s ip port has_mgr junk q r t
    started :
        refuses s ip port has_mgr ≡ false
        → Entered lib mgr infos laws (resolved s ip port) (info_answer s ip port).out junk q r t
        → Outcome s ip port has_mgr junk q r t

  -- There is a worker, the stack has a queue for the turn, and the chunk manager never faults. Then
  -- `connect` returns: with the null pointer, and the table as it was, where the address is refused; and
  -- otherwise with what opening a connection comes to.
  pub connect-Outcome :
      (ip port : ℕ) (has_mgr : Bool) (junk q : ℕ) (s : State)
      → s.self.worker_num ≢ 0
      → get_elem? s.self.cqs (s.self.seq_num % s.self.worker_num) ≡ some q
      → Returns (Outcome s ip port has_mgr junk q) (connect lib mgr infos ip port has_mgr junk s)
  unfolding connect resolve
  connect-Outcome ip port has_mgr junk q s ne e =
      let k = s.self in
      let h = (lib s.trace Call.allocinfo).out in
      elim (Bool-cases ((not k.initialized || ip == 0) || (port == 0 || not has_mgr))) [
        | inl g ↦ rw g (returns (unresolved (rw g refl) refl refl))
        | inr g ↦ rw g (elim (Bool-cases (h == 0)) [
          | inl z ↦ rw z (returns (unresolved (rw (g, z) refl) refl refl))
          | inr z ↦ rw z (elim (Bool-cases (failed (info_answer s ip port).ret)) [
            | inl f ↦ rw f (returns (unresolved (rw (g, z, f) refl) refl refl))
            | inr f ↦ rw f (
                Returns-mono
                  (start_connection-Entered lib mgr infos laws (resolved s ip port) q e
                    (info_answer s ip port).out junk ne)
                  λ r t o. started (rw (g, z, f) refl) o)
          ])
        ])
      ]

  -- What the caller of `connect` sees: the null pointer, and the table is as it was; or the event
  -- queue, no null pointer, that fi_eq_open gave, of a connection that is placed in the table and waits
  -- to be established.
  pub data Verdict (s : State) (ip port r : ℕ) (t : State) : Type 0 where
    gave_up : r ≡ 0 → t.self.con_map ≡ s.self.con_map → Verdict s ip port r t
    dialled :
        r ≢ 0
        → r ≡ (queue_given s ip port).out
        → Placed lib mgr infos laws
            (resolved s ip port)
            (info_answer s ip port).out
            ConStatus.connect_req
            t
        → Verdict s ip port r t

  pub outcome-Verdict :
      (ip port : ℕ) (has_mgr : Bool) (junk q r : ℕ) (s t : State)
      → OpensQueues lib
      → Outcome s ip port has_mgr junk q r t
      → Verdict s ip port r t
  outcome-Verdict ip port has_mgr junk q r s t opens (unresolved f z same) = gave_up z same
  outcome-Verdict ip port has_mgr junk q r s t opens (started f (not_opened _ _ _ _ z same)) =
      gave_up z (ap (λ k. k.con_map) same)
  outcome-Verdict ip port has_mgr junk q r s t opens
        (started f (not_connected _ _ _ _ _ _ _ _ z same)) =
      gave_up z (ap (λ k. k.con_map) same)
  outcome-Verdict ip port has_mgr junk q r s t opens
        (started f (entered _ _ _ _ _ _ _ _ e placed)) =
      dialled (λ z. opens _ _ placed.opened (sym e ∙ z)) e placed
