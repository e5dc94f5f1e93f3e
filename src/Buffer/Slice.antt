-- ===== src/Buffer/Slice.antt =====
-- An instance of the interface over plain lists of bytes, which the runs and witnesses use.
use recentip.Prelude.{
  ℕ, ◌+◌, ◌*◌, ◌/◌, ◌%◌, ◌≡◌, refl, List, [], ◌∷◌, ◌++◌, length, take, drop, take-append,
  drop-append,
}
use recentip.Buffer.{ByteBuffer}

abbrev slice_get_u8 : List ℕ → ℕ × List ℕ
slice_get_u8 [] = (0, [])
slice_get_u8 (x ∷ b) = (x, b)

abbrev slice_get_u16 : List ℕ → ℕ × List ℕ
slice_get_u16 (x ∷ y ∷ b) = (x * 256 + y, b)
slice_get_u16 b = (0, b)

abbrev slice_get_u32 : List ℕ → ℕ × List ℕ
slice_get_u32 (x ∷ y ∷ z ∷ w ∷ b) = (x * 16777216 + y * 65536 + z * 256 + w, b)
slice_get_u32 b = (0, b)

abbrev slice_split : ℕ → List ℕ → List ℕ × List ℕ
slice_split n b = (take n b, drop n b)

pub slice_split_lem : (a b : List ℕ) → slice_split (length a) (a ++ b) ≡ (a, b)
slice_split_lem a b = λ i. (take-append a b i, drop-append a b i)

instance abbrev pub slice : ByteBuffer
slice = record {
  remaining = length;
  get_u8 = slice_get_u8;
  get_u16 = slice_get_u16;
  get_u32 = slice_get_u32;
  copy_to_bytes = slice_split;
  advance = drop;
  with_capacity = λ n. [];
  put_u8 = λ b x. b ++ x ∷ [];
  put_u16 = λ b x. b ++ (x / 256) ∷ (x % 256) ∷ [];
  put_u32 = λ b x. b ++ (x / 16777216) ∷ (x / 65536 % 256) ∷ (x / 256 % 256) ∷ (x % 256) ∷ [];
  put_slice = λ b a. b ++ a;
  extend_from_slice = λ b a. b ++ a;
  freeze = λ b. b;
  split_to = slice_split;
  remaining_lem = λ b. refl;
  get_u8_lem = λ x b. refl;
  get_u16_lem = λ x y b. refl;
  get_u32_lem = λ x y z w b. refl;
  copy_to_bytes_lem = slice_split_lem;
  advance_lem = drop-append;
  with_capacity_lem = λ n. refl;
  put_u8_lem = λ b x h. refl;
  put_u16_lem = λ b x h. refl;
  put_u32_lem = λ b x h. refl;
  put_slice_lem = λ b a. refl;
  extend_from_slice_lem = λ b a. refl;
  freeze_lem = λ b. refl;
  split_to_lem = slice_split_lem;
}
