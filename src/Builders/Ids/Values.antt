-- ===== src/Builders/Ids/Values.antt =====
-- What `_adjust_id` returns: the big-endian bytes of the id, with zeros in front.
use zowpy.Prelude.{
  ltb, ◌==◌, if◌then◌else◌, Bool-cases, length, replicate, length-append, All, All-append, Text, ℕ,
  zero, suc, ◌+◌, ◌-◌, ◌*◌, ◌/◌, ◌%◌, ◌^◌, ◌≤◌, ◌<◌, ◌≡◌, refl, ap, ◌∙◌, inl, inr, some, List, [],
  ◌∷◌, ◌++◌, map, arith,
}
use zowpy.Nodes.{hex_digit, hex}
use zowpy.Nodes.Dicts.{hex_value-digit}
use zowpy.Builders.Ids.{format_hex, zfill, unhexlify, adjust_id, adjust_array}
use zowpy.Builders.Ids.Digits.{
  nibbles, AreNibbles, number, length-map, hex_fuel-nibbles, nibbles-AreNibbles, number-nibbles,
  length-nibbles,
}

-- The number whose bytes these are, most significant first.
unfoldable pub int_from_bytes : List ℕ → ℕ
unfolding number
int_from_bytes bs = number 256 0 bs

number-zeros : (k : ℕ) (ds : List ℕ) → number 16 0 (replicate k 0 ++ ds) ≡ number 16 0 ds
unfolding number
number-zeros zero ds = refl
number-zeros (suc k) ds = number-zeros k ds

zeros-AreNibbles : (k : ℕ) → AreNibbles (replicate k 0)
unfolding AreNibbles
zeros-AreNibbles zero = tt
zeros-AreNibbles (suc k) = (omega arith, zeros-AreNibbles k)

length-zeros : (k : ℕ) → length {A = ℕ} (replicate k 0) ≡ k
length-zeros zero = refl
length-zeros (suc k) = ap suc (length-zeros k)

zfill-digits :
    (k : ℕ) (ds : List ℕ)
    → replicate k b'0' ++ map hex_digit ds ≡ map hex_digit (replicate k 0 ++ ds)
zfill-digits zero ds = refl
zfill-digits (suc k) ds = ap (λ s. b'0' ∷ s) (zfill-digits k ds)

unhexlify-pair :
    (d e : ℕ) (s : Text) (bs : List ℕ)
    → d < 16
    → e < 16
    → unhexlify s ≡ some bs
    → unhexlify (hex_digit d ∷ hex_digit e ∷ s) ≡ some ((d * 16 + e) ∷ bs)
unfolding unhexlify
unhexlify-pair d e s bs h k r = rw (unhexlify, hex_value-digit d h, hex_value-digit e k, r) refl

number-pair :
    (acc d e : ℕ) (bs ds : List ℕ)
    → ((a : ℕ) → number 256 a bs ≡ number 16 a ds)
    → number 256 acc ((d * 16 + e) ∷ bs) ≡ number 16 acc (d ∷ e ∷ ds)
unfolding number
number-pair acc d e bs ds h =
    let step : acc * 256 + (d * 16 + e) ≡ (acc * 16 + d) * 16 + e = omega arith in
    rw step (h ((acc * 16 + d) * 16 + e))

-- The bytes that an even number of hexadecimal digits stands for.
record FromDigits (ds : List ℕ) (k : ℕ) : Type 0 where
  bs : List ℕ
  is_there : unhexlify (map hex_digit ds) ≡ some bs
  size : length bs ≡ k
  are_bytes : All (λ b. b < 2 ^ 8) bs
  value : (acc : ℕ) → number 256 acc bs ≡ number 16 acc ds

unhexlify-digits : (k : ℕ) (ds : List ℕ) → length ds ≡ k * 2 → AreNibbles ds → FromDigits ds k
unfolding unhexlify AreNibbles
unhexlify-digits zero [] h a = record {
  bs = [];
  is_there = refl;
  size = refl;
  are_bytes = tt;
  value = λ acc. unfold number in refl;
}
unhexlify-digits (suc k) [] h a = absurd (omega arith)
unhexlify-digits k (d ∷ []) h a = absurd (omega arith)
unhexlify-digits zero (d ∷ e ∷ ds) h a = absurd (omega arith)
unhexlify-digits (suc k) (d ∷ e ∷ ds) h a =
    let r = unhexlify-digits k ds (omega arith) (a.1.1) in
    record {
      bs = (d * 16 + e) ∷ r.bs;
      is_there = unhexlify-pair d e (map hex_digit ds) r.bs (a.0) (a.1.0) r.is_there;
      size = omega (arith, r.size);
      are_bytes = (omega (arith, a.0, a.1.0), r.are_bytes);
      value = λ acc. number-pair acc d e r.bs ds r.value;
    }

-- What `_adjust_id` returns.
pub record Adjusted (id byte_count : ℕ) : Type 0 where
  pub bs : List ℕ
  pub is_there : adjust_id id byte_count ≡ some bs
  pub value : int_from_bytes bs ≡ id
  pub enough : byte_count ≤ length bs
  pub exact : 0 < byte_count → id < 256 ^ byte_count → length bs ≡ byte_count
  pub are_bytes : All (λ b. b < 2 ^ 8) bs

format_hex-nibbles : (id : ℕ) → format_hex id ≡ map hex_digit (nibbles (suc id) id)
unfolding format_hex
format_hex-nibbles id = hex_fuel-nibbles (suc id) id

length-format_hex : (id : ℕ) → length (format_hex id) ≡ length (nibbles (suc id) id)
unfolding format_hex
length-format_hex id = rw (hex_fuel-nibbles (suc id) id) (length-map (nibbles (suc id) id))

zfiller_of : ℕ → ℕ
zfiller_of l = if l % 2 == 0 then l else l + 1

zfiller-width :
    (l c : ℕ)
    → (k : ℕ) × ((if ltb (c * 2) (zfiller_of l) then zfiller_of l else c * 2) ≡ k * 2)
      × (l ≤ k * 2)
      × (c ≤ k)
      × (l ≤ c * 2 → k ≡ c)
unfolding zfiller_of
zfiller-width l c = elim (Bool-cases (l % 2 == 0)) [
  | inl even ↦ elim (Bool-cases (ltb (c * 2) l)) [
    | inl long ↦
        (l / 2, rw (even, long) (ground arith), ground arith, ground arith, λ h. ground arith)
    | inr short ↦ (c, rw (even, short) refl, ground arith, omega arith, λ h. refl)
  ]
  | inr odd ↦ elim (Bool-cases (ltb (c * 2) (l + 1))) [
    | inl long ↦
        ((l + 1) / 2, rw (odd, long) (ground arith), ground arith, ground arith, λ h. ground arith)
    | inr short ↦ (c, rw (odd, short) refl, ground arith, omega arith, λ h. refl)
  ]
]

pow_256 : (m : ℕ) → 256 ^ m ≡ 16 ^ (m * 2)
pow_256 zero = refl
pow_256 (suc m) =
    let e : suc m * 2 ≡ suc (suc (m * 2)) = omega arith in rw e (omega (arith, pow_256 m))

few_nibbles : (id c : ℕ) → 0 < c → id < 256 ^ c → length (nibbles (suc id) id) ≤ c * 2
few_nibbles id zero p h = absurd (omega arith)
few_nibbles id (suc m) p h =
    let e : 16 ^ suc (suc (m * 2)) ≡ 256 ^ suc m = omega (arith, pow_256 m) in
    omega (arith, length-nibbles (suc (m * 2)) (suc id) id (rw e h))

FromDigits-Adjusted :
    (id c k : ℕ)
    → length (format_hex id) ≤ k * 2
    → c ≤ k
    → (length (format_hex id) ≤ c * 2 → k ≡ c)
    → adjust_id id c ≡ unhexlify (zfill (k * 2) (format_hex id))
    → FromDigits (replicate (k * 2 - length (format_hex id)) 0 ++ nibbles (suc id) id) k
    → Adjusted id c
unfolding zfill int_from_bytes
FromDigits-Adjusted id c k long enough same e r =
    let ds = nibbles (suc id) id in
    let zeros = k * 2 - length (format_hex id) in
    record {
      bs = r.bs;
      is_there =
          e
          ∙ ap (λ s. unhexlify (replicate zeros b'0' ++ s)) (format_hex-nibbles id)
          ∙ ap unhexlify (zfill-digits zeros ds)
          ∙ r.is_there;
      value = r.value 0 ∙ number-zeros zeros ds ∙ number-nibbles (suc id) id (omega arith);
      enough = omega (arith, r.size);
      exact = λ p h. r.size ∙ same (omega (arith, few_nibbles id c p h, length-format_hex id));
      are_bytes = r.are_bytes;
    }

padded-AreNibbles : (k id : ℕ) → AreNibbles (replicate k 0 ++ nibbles (suc id) id)
unfolding AreNibbles
padded-AreNibbles k id =
    All-append (λ d. d < 16) (replicate k 0) (nibbles (suc id) id) (zeros-AreNibbles k)
      (nibbles-AreNibbles (suc id) id)

adjust_id-zfill :
    (id c k : ℕ)
    → (if ltb (c * 2) (zfiller_of (length (format_hex id)))
        then zfiller_of (length (format_hex id))
        else c * 2)
      ≡ k * 2
    → adjust_id id c ≡ unhexlify (zfill (k * 2) (format_hex id))
unfolding adjust_id zfiller_of
adjust_id-zfill id c k h = ap (λ w. unhexlify (zfill w (format_hex id))) h

-- The id stands in the bytes, most significant first, in as many bytes as asked for where it fits.
pub adjust_id-Adjusted : (id byte_count : ℕ) → Adjusted id byte_count
adjust_id-Adjusted id c =
    let (k, width, long, enough, same) = zfiller-width (length (format_hex id)) c in
    let zeros = k * 2 - length (format_hex id) in
    let ds = nibbles (suc id) id in
    let size : length (replicate zeros 0 ++ ds) ≡ k * 2 =
      omega
        (arith, length-append (replicate zeros 0) ds, length-zeros zeros, length-format_hex id) in
    FromDigits-Adjusted id c k long enough same (adjust_id-zfill id c k width)
      (unhexlify-digits k (replicate zeros 0 ++ ds) size (padded-AreNibbles zeros id))

unhexlify-hex : (bs : List ℕ) → All (λ b. b < 2 ^ 8) bs → unhexlify (hex bs) ≡ some bs
unfolding unhexlify hex
unhexlify-hex [] h = refl
unhexlify-hex (b ∷ bs) h =
    let whole : b / 16 * 16 + b % 16 ≡ b = omega arith in
    unhexlify-pair (b / 16) (b % 16) (hex bs) bs (omega (arith, h.0)) (omega arith)
      (unhexlify-hex bs h.1)
    ∙ ap (λ a. some (a ∷ bs)) whole

-- Arrays of bytes stay what they are.
pub adjust_array-same : (bs : List ℕ) → All (λ b. b < 2 ^ 8) bs → adjust_array bs ≡ some bs
unfolding adjust_array
adjust_array-same bs h = unhexlify-hex bs h
