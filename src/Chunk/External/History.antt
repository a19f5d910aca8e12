-- ===== src/Chunk/External/History.antt =====
-- Histories of an `ExternalChunkMgr` and one client, which gives back only chunks that it holds.
use hpnl.Base.{
  ℕ, ◌+◌, ◌≡◌, refl, List, [], ◌∷◌, some, arith, ◌==◌, if◌then◌else◌, count, contains, true,
  Bool-cases, inl, inr, ◌∙◌, ap,
}
use hpnl.Base.Run.{M, ok, Returns, returns, Returns-bind, Returns-mono, and_then}
use hpnl.Chunk.{Used}
use hpnl.Chunk.External.{State, get, get_by_id, reclaim}
use hpnl.Chunk.External.Laws.{get-nil, get-cons}

-- One copy of a number taken out of a list.
unfoldable pub remove : ℕ → List ℕ → List ℕ
remove a [] = []
remove a (x ∷ xs) = if x == a then xs else x ∷ remove a xs

pub count-remove :
    (a b : ℕ) (xs : List ℕ)
    → contains a xs ≡ true
    → count b xs ≡ count b (remove a xs) + (if a == b then 1 else 0)
unfolding remove
count-remove a b [] h = ground arith
count-remove a b (x ∷ xs) h = ground (arith, count-remove a b xs)

-- What the client does: `get`, `reclaim` of a chunk (skipped, if it does not hold it), `get` by id.
pub data Action : Type 0 where
  take : Action
  give : ℕ → Action
  look : ℕ → Action

-- The manager, the client's record of chunks in use, and the chunks that it holds.
pub record System : Type 0 where
  pub state : State
  pub used : Used
  pub held : List ℕ

abbrev after_get : System → ℕ → State → System
after_get y ck s = record y { state = s; held = if ck == 0 then y.held else ck ∷ y.held }

unfoldable pub act : Action → M System (Unit {0})
unfolding remove
act take y = and_then (get (some y.used) y.state) (λ r s. ok tt (after_get y r.0 s))
act (give ck) y =
    if contains ck y.held
    then and_then (reclaim ck (some y.used) y.state)
        (λ _ s. ok tt (record y { state = s; held = remove ck y.held }))
    else ok tt y
act (look id) y = and_then (get_by_id id y.state) (λ _ s. ok tt (record y { state = s }))

unfoldable pub history : List Action → M System (Unit {0})
unfolding act
history [] y = ok tt y
history (a ∷ rest) y = and_then (act a y) (λ _. history rest)

-- How often a chunk is in the manager or in the client's hands.
abbrev pub copies : ℕ → System → ℕ
copies p y = count p y.state.self.bufs + count p y.held

-- Each chunk is as often in the manager or in the client's hands.
abbrev pub Keeps : System → System → Type 0
Keeps y z = (p : ℕ) → copies p z ≡ copies p y

take-Keeps :
    (bufs : List ℕ) (y : System)
    → y.state.self.bufs ≡ bufs
    → copies 0 y ≡ 0
    → Returns (λ _ z. Keeps y z) (act take y)
unfolding act
take-Keeps [] y e h = rw (get-nil y.used y.state e) (returns λ p. refl)
take-Keeps (ck ∷ rest) y e h =
    rw (get-cons y.used y.state e) (returns λ p. ground (arith, ap (count 0) e, ap (count p) e))

act-Keeps : (a : Action) (y : System) → copies 0 y ≡ 0 → Returns (λ _ z. Keeps y z) (act a y)
unfolding act reclaim get_by_id
act-Keeps take y h = take-Keeps _ y refl h
act-Keeps (give ck) y h = elim (Bool-cases (contains ck y.held)) [
  | inl e ↦ rw e (returns λ p. ground (arith, count-remove ck p y.held e))
  | inr e ↦ rw e (returns λ p. refl)
]
act-Keeps (look id) y h = returns λ p. refl

-- Whatever the client does, each chunk is as often in the manager or in the client's hands as at
-- the start, so none is lost or handed out twice. The null pointer must not be among the chunks.
pub history-Keeps :
    (as' : List Action) (y : System) → copies 0 y ≡ 0 → Returns (λ _ z. Keeps y z) (history as' y)
unfolding history
history-Keeps [] y h = returns λ p. refl
history-Keeps (a ∷ rest) y h =
    Returns-bind (act-Keeps a y h)
      λ _ z k. Returns-mono (history-Keeps rest z (omega (arith, k 0))) λ _ w l p. l p ∙ k p
