-- ===== src/Sync/Expansion.antt =====
-- The expansion of a value and one step of the sum, over words.
use zowpy.Prelude.{
  length, take, replicate, length-append, All-append, AreBytes, ℕ, zero, suc, ◌+◌, ◌-◌, ◌*◌, ◌%◌,
  ◌^◌, ◌≤◌, ◌<◌, min, ◌≡◌, refl, Bool, some, List, [], ◌∷◌, ◌++◌, arith,
}
use zowpy.Sync.Words.{
  unpack_words, pack_words, mix_words, AreWords, unpack_words-pack_words, unpack_words-AreWords,
}
use zowpy.Sync.LtHash.{salt, expand_from, expand, extract_and_expand, perform_single}

-- What HMAC-SHA256 returns: 32 bytes.
pub record IsSha256 (hmac : List ℕ → List ℕ → List ℕ) : Type 0 where
  pub size : (key message : List ℕ) → length (hmac key message) ≡ 32
  pub in_bytes : (key message : List ℕ) → AreBytes (hmac key message)

take-AreBytes : (n : ℕ) (bs : List ℕ) → AreBytes bs → AreBytes (take n bs)
take-AreBytes zero bs h = tt
take-AreBytes (suc n) [] h = tt
take-AreBytes (suc n) (b ∷ bs) h = (h.0, take-AreBytes n bs h.1)

length-take-min : (n : ℕ) (bs : List ℕ) → length (take n bs) ≡ min n (length bs)
length-take-min zero bs = omega arith
length-take-min (suc n) [] = omega arith
length-take-min (suc n) (b ∷ bs) = omega (arith, length-take-min n bs)

-- A list of even length is a list of words.
unpack_words-even :
    (bs : List ℕ)
    → length bs % 2 ≡ 0
    → (ws : List ℕ) × (unpack_words bs ≡ some ws) × (length bs ≡ 2 * length ws)
unfolding unpack_words
unpack_words-even [] h = ([], refl, refl)
unpack_words-even (low ∷ []) h = absurd (omega arith)
unpack_words-even (low ∷ high ∷ bs) h =
    let (ws, e, l) = unpack_words-even bs (omega arith) in
    ((low + high * 2 ^ 8) ∷ ws, rw e, omega arith)

module _ (hmac : List ℕ → List ℕ → List ℕ) (sha : IsSha256 hmac) where
  expand_from-AreBytes :
      (prk info : List ℕ) (rounds index n : ℕ) (mixin : List ℕ)
      → AreBytes (expand_from hmac prk info rounds index n mixin)
  unfolding expand_from
  expand_from-AreBytes prk info zero index n mixin = tt
  expand_from-AreBytes prk info (suc rounds) index n mixin =
      let step = hmac prk (mixin ++ (info ++ index ∷ [])) in
      All-append (λ b. b < 2 ^ 8) (take (min n (length step)) step) _
        (take-AreBytes _ step (sha.in_bytes prk _))
        (expand_from-AreBytes prk info rounds (index + 1) (n - min n (length step)) step)

  length-expand_from :
      (prk info : List ℕ) (rounds index n : ℕ) (mixin : List ℕ)
      → n ≤ rounds * 32
      → length (expand_from hmac prk info rounds index n mixin) ≡ n
  unfolding expand_from
  length-expand_from prk info zero index n mixin h = omega arith
  length-expand_from prk info (suc rounds) index n mixin h =
      let step = hmac prk (mixin ++ (info ++ index ∷ [])) in
      let size = sha.size prk (mixin ++ (info ++ index ∷ [])) in
      let taken = min n (length step) in
      omega (
        arith,
        size,
        length-append (take taken step)
            (expand_from hmac prk info rounds (index + 1) (n - taken) step),
        length-take-min taken step,
        length-expand_from prk info rounds (index + 1) (n - taken) step (omega (arith, size)),
      )

  -- An expanded value is 64 words.
  pub extract_and_expand-words :
      (buffer : List ℕ)
      → (vs : List ℕ) × (unpack_words (extract_and_expand hmac buffer salt 128) ≡ some vs)
        × (length vs ≡ 64)
        × AreWords vs
  unfolding extract_and_expand expand
  extract_and_expand-words buffer =
      let prk = hmac (replicate 32 0) buffer in
      let out = expand_from hmac prk salt 4 1 128 [] in
      let len : length out ≡ 128 = length-expand_from prk salt 4 1 128 [] (omega arith) in
      let (vs, e, half) = unpack_words-even out (omega arith) in
      (
        vs,
        e,
        omega arith,
        unpack_words-AreWords out vs (expand_from-AreBytes prk salt 4 1 128 []) e,
      )

  -- One step adds or takes away the expanded value, word by word.
  pub perform_single-words :
      (us : List ℕ) (buffer : List ℕ) (sum_op : Bool)
      → AreWords us
      → perform_single hmac (pack_words us) buffer sum_op
        ≡ some (pack_words (mix_words sum_op us (extract_and_expand-words buffer).0))
  unfolding perform_single
  perform_single-words us buffer sum_op h =
      rw (unpack_words-pack_words us h, (extract_and_expand-words buffer).1, perform_single)
