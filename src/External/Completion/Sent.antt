-- ===== src/External/Completion/Sent.antt =====
-- A chunk from the connection that sends it to the report of its completion.
use hpnl.Base.{ℕ, ◌≡◌, ◌≢◌, refl, some, true, false, ◌==◌, arith, ap, ◌∙◌}
use hpnl.Base.StdMap.{lookup}
use hpnl.Base.Run.{ok, Returns, returns}
use hpnl.Fabric.{Lib, Obj}
use hpnl.Chunk.{Mem, ChunkMgr}
use hpnl.Event.Codes.{EventType, value}
use hpnl.Event.Completion.{Entry}
use hpnl.External.Completion.{ExternalCqDemultiplexer, Report, reported, report, con_at, on_entry}
use hpnl.Msg.Connection.{MsgConnection}
use hpnl.Msg.Connection.Io.{Infos, send}
use hpnl.Msg.Stack.{World}

-- The completion of a send of the chunk `ck`.
pub record IsSend (ck : ℕ) (e : Entry) : Type 0 where
  pub context : e.op_context ≡ ck
  pub recv : e.is_recv ≡ false
  pub send : e.is_send ≡ true

module _ {G : Type 0} (lib : Lib) (mgr : ChunkMgr G) (infos : Infos) where
  -- A connection at its own address sends a chunk. At the completion of that send,
  -- `ExternalCqDemultiplexer` reports a send of the chunk, with the chunk's id and the connection's
  -- event queue, and notes that there was a completion.
  pub send-reported :
      (ck : ℕ) (s : Obj MsgConnection (Mem G))
      → ck ≢ 0
      → s.self.this ≢ 0
      → Returns
          (λ _ t.
            (e : Entry) (old : Report) (d : Obj ExternalCqDemultiplexer (World G))
            → d.env.mem ≡ t.env
            → lookup s.self.this d.env.cons ≡ some s.self
            → IsSend ck e
            → on_entry lib e old d
              ≡ ok
                  (reported (record old {
                    code = value EventType.send_event;
                    eq = s.self.con_eq;
                    ck = ck;
                    buffer_id = (s.env.heap ck).buffer_id;
                  }))
                  (record d { self = record d.self { end = d.self.start } }))
          (send lib mgr infos ck s)
  unfolding send on_entry report
  send-reported ck s some_ck some_con =
      let real_ck : (ck == 0) ≡ false = ground arith in
      let real_con : (s.self.this == 0) ≡ false = ground arith in
      let here : (ck == ck) ≡ true = ground arith in
      returns λ e old d same there i.
        let con : (d.env.mem.heap ck).con ≡ s.self.this =
          ap (λ m. (m.heap ck).con) same ∙ rw here refl in
        let id : (d.env.mem.heap ck).buffer_id ≡ (s.env.heap ck).buffer_id =
          ap (λ m. (m.heap ck).buffer_id) same ∙ rw here refl in
        rw (i.context, i.recv, i.send, real_ck, con, real_con, id, there, con_at) refl
