-- ===== src/Buffer.antt =====
-- The byte cursors and buffers of the `bytes` crate, which the wire code reads from and writes to.
-- The crate is not part of the repository: its operations are the fields of an interface, and the
-- laws are the behaviour that its documentation gives. A cursor or a buffer stands for the bytes
-- that it still holds, so a read returns the value and the bytes that are left. A read past the
-- end panics, and no law speaks of it.
pub mod Slice
use recentip.Prelude.{ℕ, ◌+◌, ◌*◌, ◌/◌, ◌%◌, ◌<◌, ◌≡◌, List, [], ◌∷◌, ◌++◌, length}

pub record ByteBuffer : Type 0 where
  -- `Buf`
  pub remaining : List ℕ → ℕ
  pub get_u8 : List ℕ → ℕ × List ℕ
  pub get_u16 : List ℕ → ℕ × List ℕ
  pub get_u32 : List ℕ → ℕ × List ℕ
  pub copy_to_bytes : ℕ → List ℕ → List ℕ × List ℕ
  pub advance : ℕ → List ℕ → List ℕ
  -- `BufMut` and `BytesMut`
  pub with_capacity : ℕ → List ℕ
  pub put_u8 : List ℕ → ℕ → List ℕ
  pub put_u16 : List ℕ → ℕ → List ℕ
  pub put_u32 : List ℕ → ℕ → List ℕ
  pub put_slice : List ℕ → List ℕ → List ℕ
  pub extend_from_slice : List ℕ → List ℕ → List ℕ
  pub freeze : List ℕ → List ℕ
  pub split_to : ℕ → List ℕ → List ℕ × List ℕ
  -- The documented behaviour. Numbers are big-endian.
  pub remaining_lem : (b : List ℕ) → remaining b ≡ length b
  pub get_u8_lem : (x : ℕ) (b : List ℕ) → get_u8 (x ∷ b) ≡ (x, b)
  pub get_u16_lem : (x y : ℕ) (b : List ℕ) → get_u16 (x ∷ y ∷ b) ≡ (x * 256 + y, b)
  pub get_u32_lem :
      (x y z w : ℕ) (b : List ℕ)
      → get_u32 (x ∷ y ∷ z ∷ w ∷ b) ≡ (x * 16777216 + y * 65536 + z * 256 + w, b)
  pub copy_to_bytes_lem : (a b : List ℕ) → copy_to_bytes (length a) (a ++ b) ≡ (a, b)
  pub advance_lem : (a b : List ℕ) → advance (length a) (a ++ b) ≡ b
  pub with_capacity_lem : (n : ℕ) → with_capacity n ≡ []
  pub put_u8_lem : (b : List ℕ) (x : ℕ) → x < 256 → put_u8 b x ≡ b ++ x ∷ []
  pub put_u16_lem : (b : List ℕ) (x : ℕ) → x < 65536 → put_u16 b x ≡ b ++ (x / 256) ∷ (x % 256) ∷ []
  pub put_u32_lem :
      (b : List ℕ) (x : ℕ)
      → x < 4294967296
      → put_u32 b x ≡ b ++ (x / 16777216) ∷ (x / 65536 % 256) ∷ (x / 256 % 256) ∷ (x % 256) ∷ []
  pub put_slice_lem : (b a : List ℕ) → put_slice b a ≡ b ++ a
  pub extend_from_slice_lem : (b a : List ℕ) → extend_from_slice b a ≡ b ++ a
  pub freeze_lem : (b : List ℕ) → freeze b ≡ b
  pub split_to_lem : (a b : List ℕ) → split_to (length a) (a ++ b) ≡ (a, b)
