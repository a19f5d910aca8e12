-- ===== src/Java/EqService/Established.antt =====
-- What EqService tells Java when a connection is established.
use mathlib.Core.List.{reverse, reverse_aux, reverse_aux-eq, reverse_aux-append}
use hpnl.Base.{ℕ, ◌≡◌, ◌≢◌, refl, some, List, [], ◌∷◌, ◌++◌, map, false, ◌==◌, arith, ℤ, ◌∙◌, sym}
use hpnl.Base.StdMap.{lookup, lookup-assign, lookup-assign_self}
use hpnl.Base.Run.{ok, Returns, returns}
use hpnl.Chunk.{Heap}
use hpnl.Java.Binding.{Upcall}
use hpnl.Java.EqService.{EqBinding, push_all, on_connected, con_at}
use hpnl.Msg.Connection.{MsgConnection, ConStatus}

-- The send buffers of the chunks, in the order in which Java gets them.
abbrev pub pushes : Heap → (eq : ℕ) → List ℕ → List Upcall
pushes heap eq cks = map (λ ck. Upcall.push_send_buffer eq (heap ck).buffer_id) cks

-- The object after more calls, oldest first.
abbrev told : List Upcall → EqBinding → EqBinding
told us s = record s { self = record s.self { upcalls = reverse_aux us s.self.upcalls } }

push_all-told :
    (eq : ℕ) (cks : List ℕ) (s : EqBinding)
    → push_all eq cks s ≡ ok tt (told (pushes s.env.mem.heap eq cks) s)
unfolding push_all
push_all-told eq [] s = refl
push_all-told eq (ck ∷ cks) s = push_all-told eq cks _

first_last :
    (a b : Upcall) (us old : List Upcall)
    → b ∷ reverse_aux us (a ∷ old) ≡ reverse (a ∷ (us ++ b ∷ [])) ++ old
first_last a b us old =
    sym (reverse_aux-append us (b ∷ []) (a ∷ old)) ∙ reverse_aux-eq (a ∷ (us ++ b ∷ [])) old

-- Java hears of a connection, then of its send buffers, and then of the event; and the connection is
-- connected.
pub record IsEstablished (eq p : ℕ) (ret : ℤ) (c : MsgConnection) (s t : EqBinding) : Type 0 where
  pub upcalls :
      t.self.upcalls
      ≡ reverse (
          Upcall.establish_connection eq p c.cq_index c.dest_port c.src_port
          ∷ (pushes s.env.mem.heap eq c.send_chunks ++ Upcall.handle_eq_callback eq ret 0 ∷ []))
        ++ s.self.upcalls
  pub connected : lookup p t.env.cons ≡ some (record c { status = ConStatus.connected })
  pub others : (i : ℕ) → (p == i) ≡ false → lookup i t.env.cons ≡ lookup i s.env.cons
  pub service : t.self.native_handle ≡ s.self.native_handle
  pub trace : t.trace ≡ s.trace

-- At the connected event of a connection that is there, Java hears of the connection, then of the
-- buffer of each of its send chunks, in their order, and then of the event, once each; the connection
-- is connected, and the other connections and the service are as they were.
pub on_connected-IsEstablished :
    (eq p : ℕ) (ret : ℤ) (c : MsgConnection) (s : EqBinding)
    → p ≢ 0
    → lookup p s.env.cons ≡ some c
    → Returns (λ _ t. IsEstablished eq p ret c s t) (on_connected eq p ret s)
unfolding on_connected
on_connected-IsEstablished eq p ret c s ne there =
    let real : (p == 0) ≡ false = ground arith in
    let cks = pushes s.env.mem.heap eq c.send_chunks in
    rw (real, con_at, there)
      (rw (push_all-told eq c.send_chunks) (
        returns (record {
          upcalls =
              first_last (Upcall.establish_connection eq p c.cq_index c.dest_port c.src_port)
                (Upcall.handle_eq_callback eq ret 0) cks s.self.upcalls;
          connected = lookup-assign_self p _ _;
          others = λ i e. rw (lookup-assign, e) refl;
          service = refl;
          trace = refl;
        })))
