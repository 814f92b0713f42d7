-- ===== src/Coder/Ints/RoundTrip.antt =====
-- What the decoder reads of a number that the encoder wrote.
use zowpy.Prelude.{ℕ, ◌+◌, ◌*◌, ◌/◌, ◌%◌, ◌^◌, ◌≤◌, ◌<◌, ◌≡◌, ◌≢◌, ◌↔◌, List, ◌++◌, arith}
use zowpy.Result.{ok}
use zowpy.Coder.Ints.{
  ◌>>=◌, read_int8, read_int16, read_int20, read_int24, read_int31, read_list_size, write_int8,
  write_int16, write_int20, write_int24, write_int31, write_list_start,
}

-- Every width but 31 bits reads back the number that it wrote, if that fits the width, and leaves
-- the data that follows.
pub read_int-write_int :
    (n : ℕ) (rest : List ℕ)
    → (n < 2 ^ 8 → read_int8 (write_int8 n ++ rest) ≡ ok (n, rest))
      × (n < 2 ^ 16 → read_int16 (write_int16 n ++ rest) ≡ ok (n, rest))
      × (n < 2 ^ 20 → read_int20 (write_int20 n ++ rest) ≡ ok (n, rest))
      × (n < 2 ^ 24 → read_int24 (write_int24 n ++ rest) ≡ ok (n, rest))
unfolding read_int8 read_int16 read_int20 read_int24 write_int8 write_int16 write_int20 write_int24
read_int-write_int n rest =
    (λ h. ground arith, λ h. ground arith, λ h. ground arith, λ h. ground arith)

read_int31-write_int31 :
    (n : ℕ) (rest : List ℕ)
    → read_int31 (write_int31 n ++ rest) ≡ ok (n / 2 ^ 16 % 2 ^ 8 * 2 ^ 24 + n % 2 ^ 24, rest)
unfolding read_int31 read_int8 write_int31
read_int31-write_int31 n rest = ground arith

-- The 31-bit reader drops the first byte and shifts the second one twice. A 31-bit number is read
-- back exactly if its two top bytes are equal; of the numbers from 2 ^ 20, where the encoder begins
-- to use this width, to 2 ^ 24 none is.
pub read_int31-write_int31_iff :
    (n : ℕ) (rest : List ℕ)
    → n < 2 ^ 31
    → ((read_int31 (write_int31 n ++ rest) ≡ ok (n, rest)) ↔ (n / 2 ^ 24 ≡ n / 2 ^ 16 % 2 ^ 8))
      × (2 ^ 20 ≤ n → n < 2 ^ 24 → read_int31 (write_int31 n ++ rest) ≢ ok (n, rest))
read_int31-write_int31_iff n rest h =
    rw (read_int31-write_int31 n rest)
      ((λ e. ground arith, λ e. ground arith), λ low high e. ground arith)

-- A list start is read back as its count, for every count of 16 bits.
pub read_list_size-write_list_start :
    (n : ℕ) (rest : List ℕ)
    → n < 2 ^ 16
    → (read_int8 >>= read_list_size) (write_list_start n ++ rest) ≡ ok (n, rest)
unfolding read_int8 read_list_size write_list_start
read_list_size-write_list_start n rest h = ground arith
