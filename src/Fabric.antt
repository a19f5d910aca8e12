-- ===== src/Fabric.antt =====
-- The libraries that HPNL calls: libfabric (`fi_*`), epoll, malloc, the clock and std::thread. They are not part
-- of the repository. A library is a function from the calls made so far, newest first, and the
-- call at hand to its answer, so it may answer differently each time. An answer is a return code
-- and the value that the call returns or writes through its last pointer: a handle, an address, a
-- number of events. The handles of the answers are addresses, and 0 is the null pointer.
pub mod Handles
use hpnl.Base.{ℕ, List, ◌∷◌, Bool, ◌==◌, if◌then◌else◌}
use hpnl.Base.Tests.{ℤ, failed}
use hpnl.Base.Run.{ok, M}

pub data Call : Type 0 where
  -- fi_allocinfo, fi_getinfo(node, service, flags, hints), fi_freeinfo
  allocinfo : Call
  getinfo : ℕ → ℕ → ℕ → ℕ → Call
  freeinfo : ℕ → Call
  -- fi_fabric(info), fi_eq_open(fabric), fi_domain(fabric, info), fi_cq_open(domain), fi_close
  open_fabric : ℕ → Call
  eq_open : ℕ → Call
  open_domain : ℕ → ℕ → Call
  cq_open : ℕ → Call
  close : ℕ → Call
  -- fi_passive_ep(fabric, info), fi_pep_bind(pep, eq), fi_listen(pep)
  passive_ep : ℕ → ℕ → Call
  pep_bind : ℕ → ℕ → Call
  listen : ℕ → Call
  -- fi_endpoint(domain, info), fi_ep_bind(ep, fid), fi_enable, fi_getname
  endpoint : ℕ → ℕ → Call
  ep_bind : ℕ → ℕ → Call
  enable : ℕ → Call
  getname : ℕ → Call
  -- fi_connect(ep, address), fi_accept, fi_shutdown
  connect : ℕ → ℕ → Call
  accept : ℕ → Call
  shutdown : ℕ → Call
  -- fi_mr_reg(domain, buffer, length)
  mr_reg : ℕ → ℕ → ℕ → Call
  -- fi_recv(ep, buffer, capacity, context), fi_send(ep, buffer, length, peer, context), and
  -- fi_read, fi_write(ep, buffer, length, remote address, remote key, context)
  recv : ℕ → ℕ → ℕ → ℕ → Call
  send : ℕ → ℕ → ℕ → ℕ → ℕ → Call
  read : ℕ → ℕ → ℕ → ℕ → ℕ → ℕ → Call
  write : ℕ → ℕ → ℕ → ℕ → ℕ → ℕ → Call
  -- fi_sendmsg(ep, buffer, length, peer, context)
  sendmsg : ℕ → ℕ → ℕ → ℕ → ℕ → Call
  -- fi_av_open(domain), fi_av_insert(av, address), fi_av_straddr(av, address)
  av_open : ℕ → Call
  av_insert : ℕ → ℕ → Call
  av_straddr : ℕ → ℕ → Call
  -- fi_control(fid, FI_GETWAIT), fi_trywait(fabric, fids)
  control : ℕ → Call
  trywait : ℕ → List ℕ → Call
  -- fi_eq_read(eq), fi_eq_readerr(eq), fi_cq_read(cq), fi_cq_readerr(cq)
  eq_read : ℕ → Call
  eq_readerr : ℕ → Call
  cq_read : ℕ → Call
  cq_readerr : ℕ → Call
  -- epoll_create1, epoll_ctl(EPOLL_CTL_ADD, fd, id), epoll_ctl(EPOLL_CTL_DEL, fd), epoll_wait
  epoll_create : Call
  epoll_add : ℕ → ℕ → Call
  epoll_del : ℕ → ℕ → Call
  epoll_wait : Call
  close_fd : ℕ → Call
  -- `new` of an object, std::malloc(bytes), std::free
  new : Call
  malloc : ℕ → Call
  free : ℕ → Call
  -- the start of a std::thread, its `join`, and a wait until a flag is set
  spawn : Call
  join : ℕ → Call
  wait_done : Call
  -- a user's callback that is run with a pointer
  callback : ℕ → ℕ → Call

pub record Answer : Type 0 where
  pub ret : ℤ
  pub out : ℕ

abbrev pub Trace : Type 0
Trace = List Call

abbrev pub Lib : Type 0
Lib = Trace → Call → Answer

-- An object whose method runs: its own fields, what it shares with other objects, and the calls
-- of the libraries so far.
pub record Obj (O E : Type 0) : Type 0 where
  pub self : O
  pub env : E
  pub trace : Trace

-- One call of a library.
abbrev pub fi : {O E : Type 0} → Lib → Call → M (Obj O E) Answer
fi lib c s = ok (lib s.trace c) (record s { trace = c ∷ s.trace })

-- A condition `if (fi_...(...))`.
abbrev pub fails : Answer → Bool
fails a = failed a.ret

abbrev pub put : {O E : Type 0} → (O → O) → M (Obj O E) (Unit {0})
put f s = ok tt (record s { self = f s.self })

abbrev pub self : {O E : Type 0} → M (Obj O E) O
self s = ok s.self s

-- The trace after `if (h) fi_close(&h->fid)`, and after `if (h) fi_freeinfo(h)`.
unfoldable pub closing : ℕ → Trace → Trace
closing h t = if h == 0 then t else Call.close h ∷ t

unfoldable pub freeing : ℕ → Trace → Trace
freeing h t = if h == 0 then t else Call.freeinfo h ∷ t

abbrev pub close_if : {O E : Type 0} → ℕ → M (Obj O E) (Unit {0})
close_if h s = ok tt (record s { trace = closing h s.trace })

abbrev pub freeinfo_if : {O E : Type 0} → ℕ → M (Obj O E) (Unit {0})
freeinfo_if h s = ok tt (record s { trace = freeing h s.trace })
