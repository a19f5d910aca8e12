-- ===== src/Examples/Peers.antt =====
-- Datagram connections at concrete inputs.
use hpnl.Base.{inl, arith, false, ◌≡◌, refl, [], ◌∷◌, some, true, replicate}
use hpnl.Base.Run.{Returns, ◌>>=◌}
use hpnl.Fabric.{Obj}
use hpnl.Chunk.{Chunk, new_chunk, Mem}
use hpnl.Chunk.External.{ExternalChunkMgr, external_chunk_mgr}
use hpnl.Rdm.Connection.{RdmConnection, Names, encode_chunk, decode_chunk, overlay}
use hpnl.Rdm.Connection.Codec.{Delivered, decode-encode}
use hpnl.Fabric.Handles.{Accounted, opened, closed}
use hpnl.Rdm.Connection.Setup.{set_up, close_all}
use hpnl.Rdm.Connection.Setup
use hpnl.Rdm.Connection.Release.{set_up-close_all}
use hpnl.Rdm.Stack.{World, construct, init, destruct}
use hpnl.Rdm.Stack.Release.{init-destruct-Accounted}
use hpnl.Examples.{works, no_queues, memory}

-- A chunk of eight bytes, and the receiver's after the message has come.
abbrev eight : Chunk
eight = record new_chunk { capacity = 8; bytes = replicate 8 0 }

abbrev arrived : Chunk
arrived = record new_chunk { capacity = 8; size = 5; bytes = 1 ∷ 2 ∷ 10 ∷ 11 ∷ 12 ∷ 9 ∷ 9 ∷ 9 ∷ [] }

message-Delivered :
    Delivered (encode_chunk (1 ∷ 2 ∷ []) (10 ∷ 11 ∷ 12 ∷ []) eight).1 arrived (9 ∷ 9 ∷ 9 ∷ [])
unfolding encode_chunk overlay
message-Delivered = record { size = refl; bytes = refl }

decode-encode_example : decode_chunk (3 ∷ 4 ∷ []) arrived ≡ some (1 ∷ 2 ∷ [], 10 ∷ 11 ∷ 12 ∷ [])
decode-encode_example =
    decode-encode (1 ∷ 2 ∷ []) (3 ∷ 4 ∷ []) (10 ∷ 11 ∷ 12 ∷ []) (9 ∷ 9 ∷ 9 ∷ []) eight arrived
      (record { room = omega arith; memory = refl; small = omega arith }) refl message-Delivered

abbrev pub node : Obj RdmConnection (Mem ExternalChunkMgr)
node = record {
  self = record {
    this = 20;
    ip = 1;
    port = 2;
    info = 3;
    domain = 4;
    ep = 5;
    av = 6;
    con_cq = 7;
    buffer_num = 1;
    is_server = true;
    external_service = false;
    local_name = 1 ∷ 2 ∷ [];
    address_map = [];
    used_chunks = [];
    send_chunks = [];
    send_chunks_map = [];
    recv_callback = 0;
    send_callback = 0;
  };
  env = memory;
  trace = [];
}

abbrev pub names : Names
names = record { dest_addr = λ i. i; bytes = λ n. [] }

abbrev rdm_world : World ExternalChunkMgr
rdm_world = record { mem = memory; cons = [] }

init-destruct-Accounted_example :
    Returns
      (λ _ t. Accounted no_queues t.trace [])
      ((do _ ← init no_queues external_chunk_mgr names; destruct no_queues external_chunk_mgr names)
        (record { self = construct 4 true false; env = rdm_world; trace = [] }))
init-destruct-Accounted_example =
    init-destruct-Accounted no_queues external_chunk_mgr names 4 true false rdm_world (ground arith)

-- A client that has not opened its endpoint.
abbrev client : Obj RdmConnection (Mem ExternalChunkMgr)
client = record { self = Setup.construct 20 1 2 0 4 7 1 false false; env = memory; trace = [] }

set_up-close_all_example :
    Returns
      (λ _ t. Accounted works t.trace [])
      ((do _ ← set_up works external_chunk_mgr names; close_all works external_chunk_mgr names)
        client)
unfolding Setup.construct opened closed
set_up-close_all_example =
    set_up-close_all works external_chunk_mgr names [] client refl refl (inl refl) (ground arith)
      (record { balance = λ h ne. omega arith })
