-- ===== src/Rdm/Connection/Peers.antt =====
-- The address map: a peer is inserted into the address vector once.
use hpnl.Base.{
  ℕ, ◌≡◌, ◌≢◌, refl, Option, none, some, true, false, if◌then◌else◌, arith, ◌∷◌, Option-cases,
  is_some, ◌∙◌, ap, inl, inr, pos,
}
use hpnl.Base.StdMap.{lookup, has, insert, lookup-insert, has-lookup}
use hpnl.Base.Run.{ok, Returns, returns}
use hpnl.Fabric.{Call, Lib, Obj}
use hpnl.Chunk.{Mem, ChunkMgr}
use hpnl.Rdm.Connection.{RdmConnection, Names, peer_addr, insert_peer}

module _ {G : Type 0} (lib : Lib) (mgr : ChunkMgr G) (names : Names) where
  abbrev text_of : ℕ → Obj RdmConnection (Mem G) → ℕ
  text_of name s = (lib s.trace (Call.av_straddr s.self.av name)).out

  abbrev insertion : ℕ → Obj RdmConnection (Mem G) → Call
  insertion name s = Call.av_insert s.self.av name

  -- The state after a peer's name has been asked for.
  abbrev asked : ℕ → Obj RdmConnection (Mem G) → Obj RdmConnection (Mem G)
  asked name s = record s { trace = Call.av_straddr s.self.av name ∷ s.trace }

  abbrev inserted : ℕ → Obj RdmConnection (Mem G) → Obj RdmConnection (Mem G)
  inserted name s =
      let out = (lib (asked name s).trace (insertion name s)).out in
      record s {
        self = record s.self { address_map = insert (text_of name s) out s.self.address_map };
        trace = insertion name s ∷ (asked name s).trace;
      }

  peer_addr_known :
      (name addr : ℕ) (s : Obj RdmConnection (Mem G))
      → lookup (text_of name s) s.self.address_map ≡ some addr
      → peer_addr lib mgr names name s ≡ ok addr (asked name s)
  unfolding peer_addr insert_peer
  peer_addr_known name addr s e = rw e refl

  peer_addr_new :
      (name : ℕ) (s : Obj RdmConnection (Mem G))
      → lookup (text_of name s) s.self.address_map ≡ none
      → (lib (asked name s).trace (insertion name s)).ret ≡ pos 1
      → peer_addr lib mgr names name s
        ≡ ok (lib (asked name s).trace (insertion name s)).out (inserted name s)
  unfolding peer_addr insert_peer
  peer_addr_new name s e one = rw (e, peer_addr) (rw (one, insert_peer) refl)

  -- A peer whose name is in the map is not inserted again; a new one is inserted by one call, and
  -- then stands in the map under its name. Either way the result is the peer's address in the map,
  -- and no other entry changes. fi_av_insert has to report one address.
  pub peer_addr-lookup :
      (name : ℕ) (s : Obj RdmConnection (Mem G))
      → (lib (Call.av_straddr s.self.av name ∷ s.trace) (insertion name s)).ret ≡ pos 1
      → Returns
          (λ addr t.
            (lookup (text_of name s) t.self.address_map ≡ some addr)
            × ((i : ℕ)
                → i ≢ text_of name s
                → lookup i t.self.address_map ≡ lookup i s.self.address_map)
            × (t.trace ≡ (
                if has (text_of name s) s.self.address_map
                then Call.av_straddr s.self.av name ∷ s.trace
                else insertion name s ∷ Call.av_straddr s.self.av name ∷ s.trace)))
          (peer_addr lib mgr names name s)
  peer_addr-lookup name s one = elim (Option-cases (lookup text s.self.address_map)) [
    | inl e ↦
        let new : has text s.self.address_map ≡ false = has_by none e in
        rw (peer_addr_new name s e one) (
          returns (
            lookup-insert text text out s.self.address_map ∙ rw new (ground arith),
            λ i ne. lookup-insert text i out s.self.address_map ∙ rw new (ground arith),
            rw new refl,
          ))
    | inr (addr, e) ↦
        let known : has text s.self.address_map ≡ true = has_by (some addr) e in
        rw (peer_addr_known name addr s e) (returns (e, λ i ne. refl, rw known refl))
  ]
    where
      text : ℕ
      text = text_of name s

      out : ℕ
      out = (lib (asked name s).trace (insertion name s)).out

      has_by :
          (o : Option ℕ)
          → lookup text s.self.address_map ≡ o
          → has text s.self.address_map ≡ is_some o
      has_by o e = has-lookup text s.self.address_map ∙ ap is_some e
