-- ===== src/Tunnel/Frames.antt =====
-- Frames and chunks: what was written is read back.
use muvee.Prelude.{
  ℕ, zero, suc, ◌/◌, ◌%◌, ◌^◌, ◌≤◌, ◌<◌, some, List, [], ◌∷◌, ◌++◌, length, take, drop, ◌≡◌, refl,
  ap, ◌∙◌, arith, All,
}
use muvee.Tunnel.{Bytes, put_uint32, uint32, write_frame, read_frame, chunk_size, chunks_in, chunks}

pub uint32-bytes :
    (v : ℕ)
    → v < 2 ^ 32
    → uint32 (v / 0x100_0000 % 0x100) (v / 0x1_0000 % 0x100) (v / 0x100 % 0x100) (v % 0x100) ≡ v
unfolding uint32
uint32-bytes v h = omega arith

-- A frame with a stream id of 32 bits is read as it was written.
pub read_frame-write_frame :
    (kind stream_id : ℕ) (payload : Bytes)
    → stream_id < 2 ^ 32
    → read_frame (write_frame kind stream_id payload)
      ≡ some (record { kind = kind; stream_id = stream_id; payload = payload })
unfolding read_frame write_frame put_uint32
read_frame-write_frame kind stream_id payload h = rw (uint32-bytes stream_id h) refl

abbrev pub concat : List Bytes → Bytes
concat [] = []
concat (c ∷ cs) = c ++ concat cs

take-append-drop : (n : ℕ) (bs : Bytes) → take n bs ++ drop n bs ≡ bs
take-append-drop zero bs = refl
take-append-drop (suc n) [] = refl
take-append-drop (suc n) (b ∷ bs) = ap (◌∷◌ b) (take-append-drop n bs)

length-drop-le : (n : ℕ) (bs : Bytes) → length (drop n bs) ≤ length bs
length-drop-le zero bs = omega arith
length-drop-le (suc n) [] = omega arith
length-drop-le (suc n) (b ∷ bs) = omega (arith, length-drop-le n bs)

length-take-le : (n : ℕ) (bs : Bytes) → length (take n bs) ≤ n
length-take-le zero bs = omega arith
length-take-le (suc n) [] = omega arith
length-take-le (suc n) (b ∷ bs) = omega (arith, length-take-le n bs)

drop-shrinks : (n : ℕ) (b : ℕ) (bs : Bytes) → 0 < n → length (drop n (b ∷ bs)) ≤ length bs
drop-shrinks zero b bs h = omega (arith, h)
drop-shrinks (suc n) b bs h = length-drop-le n bs

take-some : (n : ℕ) (b : ℕ) (bs : Bytes) → 0 < n → 0 < length (take n (b ∷ bs))
take-some zero b bs h = omega (arith, h)
take-some (suc n) b bs h = omega arith

concat-chunks_in :
    (fuel : ℕ) (bytes : Bytes) → length bytes ≤ fuel → concat (chunks_in fuel bytes) ≡ bytes
unfolding chunks_in
concat-chunks_in zero [] h = refl
concat-chunks_in zero (b ∷ bs) h = ground (arith, h)
concat-chunks_in (suc fuel) [] h = refl
concat-chunks_in (suc fuel) (b ∷ bs) h =
    ap (◌++◌ (take chunk_size (b ∷ bs))) (
      concat-chunks_in fuel (drop chunk_size (b ∷ bs))
        (omega (arith, h, drop-shrinks chunk_size b bs (omega arith))))
    ∙ take-append-drop chunk_size (b ∷ bs)

chunks_in-bounds :
    (fuel : ℕ) (bytes : Bytes)
    → All (λ c. (0 < length c) × (length c ≤ chunk_size)) (chunks_in fuel bytes)
unfolding chunks_in
chunks_in-bounds zero bytes = tt
chunks_in-bounds (suc fuel) [] = tt
chunks_in-bounds (suc fuel) (b ∷ bs) = (
  (take-some chunk_size b bs (omega arith), length-take-le chunk_size (b ∷ bs)),
  chunks_in-bounds fuel (drop chunk_size (b ∷ bs)),
)

-- The chunks are neither empty nor larger than 16 KB, and one after another they are the bytes.
pub concat-chunks :
    (bytes : Bytes)
    → (concat (chunks bytes) ≡ bytes)
      × All (λ c. (0 < length c) × (length c ≤ chunk_size)) (chunks bytes)
unfolding chunks
concat-chunks bytes =
    (concat-chunks_in (length bytes) bytes (omega arith), chunks_in-bounds (length bytes) bytes)
