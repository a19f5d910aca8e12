-- ===== src/Rdm/Connection/Codec.antt =====
-- `encode_` and `decode_`: a message that has the sender's name in front.
use hpnl.Base.{
  ℕ, suc, none, refl, ◌+◌, ◌-◌, ◌^◌, ◌≤◌, ◌<◌, ◌≡◌, List, [], ◌∷◌, ◌++◌, some, true, false, ltb,
  leb, arith, length, take, drop, length-append, take_left, drop_left, ◌∙◌, ap, sym, append_assoc,
}
use hpnl.Chunk.{Chunk}
use hpnl.Chunk.External.{through_int}
use hpnl.Rdm.Connection.{overlay, encode_chunk, payload_size, decode_chunk}

-- A message fits if the name and it have room, and the memory is as large as the chunk says.
pub record Fits (name buffer : List ℕ) (c : Chunk) : Type 0 where
  pub room : length name + length buffer ≤ c.capacity
  pub memory : length c.bytes ≡ c.capacity
  pub small : c.capacity < 2 ^ 31

encode_chunk-bytes :
    (name buffer : List ℕ) (c : Chunk)
    → Fits name buffer c
    → encode_chunk name buffer c ≡ (
      true,
      record c {
        bytes = overlay (length name) buffer (overlay 0 name c.bytes);
        size = length buffer + length name;
      },
    )
unfolding encode_chunk
encode_chunk-bytes name buffer c f =
    let a : ltb c.capacity (length name) ≡ false = let r = f.room in ground arith in
    let b : ltb (c.capacity - length name) (length buffer) ≡ false =
      let r = f.room in ground arith in
    rw (a, b)

drop_past : (xs : List ℕ) (n : ℕ) (ys : List ℕ) → drop (length xs + n) (xs ++ ys) ≡ drop n ys
drop_past [] n ys = ap (λ k. drop k ys) (omega arith)
drop_past (x ∷ xs) n ys =
    let step : suc (length xs) + n ≡ suc (length xs + n) = omega arith in
    ap (λ k. drop k (x ∷ (xs ++ ys))) step ∙ drop_past xs n ys

-- The memory of an encoded chunk: the name, the message, and what was behind them.
overlay-overlay :
    (name buffer memory : List ℕ)
    → overlay (length name) buffer (overlay 0 name memory)
      ≡ name ++ (buffer ++ drop (length buffer) (drop (length name) memory))
unfolding overlay
overlay-overlay name buffer memory =
    let once : overlay 0 name memory ≡ name ++ drop (length name) memory =
      ap (λ n. name ++ drop n memory) (omega arith) in
    ap (overlay (length name) buffer) once
    ∙ ap
        (λ front.
          front
          ++ (buffer ++ drop (length name + length buffer) (name ++ drop (length name) memory)))
        (take_left name (drop (length name) memory))
    ∙ ap (λ back. name ++ (buffer ++ back)) (drop_past name (length buffer) _)

-- The receiver's view of a message that was sent: the first `size` bytes of the sender's chunk, and
-- what its own memory holds behind them.
pub record Delivered (sent got : Chunk) (rest : List ℕ) : Type 0 where
  pub size : got.size ≡ sent.size
  pub bytes : got.bytes ≡ take sent.size sent.bytes ++ rest

sent-bytes :
    (name buffer : List ℕ) (c : Chunk)
    → Fits name buffer c
    → take (length buffer + length name) (encode_chunk name buffer c).1.bytes ≡ name ++ buffer
sent-bytes name buffer c f =
    let back = drop (length buffer) (drop (length name) c.bytes) in
    let all : (encode_chunk name buffer c).1.bytes ≡ (name ++ buffer) ++ back =
      ap (λ r. r.1.bytes) (encode_chunk-bytes name buffer c f)
      ∙ overlay-overlay name buffer c.bytes
      ∙ sym (append_assoc name buffer back) in
    ap (take (length buffer + length name)) all
    ∙ ap (λ n. take n ((name ++ buffer) ++ back)) (omega (arith, length-append name buffer))
    ∙ take_left (name ++ buffer) back

-- The lengths add up without wrapping.
payload_size-length :
    (own : List ℕ) (n : ℕ) (c : Chunk)
    → c.size ≡ n + length own
    → n + length own < 2 ^ 31
    → payload_size own c ≡ n
unfolding payload_size through_int
payload_size-length own n c e l = ground arith

-- A message fits with the sender's name: both have room in the chunk, whose memory is as large as its
-- capacity, which is below 2 ^ 31; and the receiver's own name is as long as the sender's. Then the
-- message is read back by the receiver as it was sent, with the sender's name.
pub decode-encode :
    (name own buffer rest : List ℕ) (c got : Chunk)
    → Fits name buffer c
    → length own ≡ length name
    → Delivered (encode_chunk name buffer c).1 got rest
    → decode_chunk own got ≡ some (name, buffer)
unfolding decode_chunk
decode-encode name own buffer rest c got f same d =
    let size : got.size ≡ length buffer + length own =
      d.size ∙ ap (λ r. r.1.size) (encode_chunk-bytes name buffer c f) ∙ omega arith in
    let sent : (encode_chunk name buffer c).1.size ≡ length buffer + length name =
      ap (λ r. r.1.size) (encode_chunk-bytes name buffer c f) in
    let bytes : got.bytes ≡ name ++ (buffer ++ rest) =
      d.bytes
      ∙ ap (λ n. take n (encode_chunk name buffer c).1.bytes ++ rest) sent
      ∙ ap (λ b. b ++ rest) (sent-bytes name buffer c f)
      ∙ append_assoc name buffer rest in
    let small : length buffer + length own < 2 ^ 31 =
      let r = f.room in let m = f.small in omega arith in
    let inside : leb (length name + length buffer) (length (name ++ (buffer ++ rest))) ≡ true =
      let outer = length-append name (buffer ++ rest) in
      let inner = length-append buffer rest in ground arith in
    rw (payload_size-length own (length buffer) got size small, bytes, same)
      (rw (
        inside,
        take_left name (buffer ++ rest),
        drop_left name (buffer ++ rest),
        take_left buffer rest,
      ))

-- What is left of a message that is shorter than the receiver's name wraps to more than 2 ^ 63.
payload_size-wraps :
    (name : List ℕ) (c : Chunk)
    → c.size < length name
    → length name < 2 ^ 31
    → 2 ^ 63 < payload_size name c
unfolding payload_size through_int
payload_size-wraps name c short small = ground arith

-- A message that is shorter than the receiver's own name, which is shorter than 2 ^ 31, is copied
-- past the end of the memory, if that is no longer than 2 ^ 63.
pub decode-short :
    (name : List ℕ) (c : Chunk)
    → c.size < length name
    → length name < 2 ^ 31
    → length c.bytes < 2 ^ 63
    → decode_chunk name c ≡ none
unfolding decode_chunk
decode-short name c short small memory =
    let wraps = payload_size-wraps name c short small in
    let outside : leb (length name + payload_size name c) (length c.bytes) ≡ false = ground arith in
    rw outside refl
