-- ===== src/Sync/Words.antt =====
-- `struct.unpack` and `struct.pack` of unsigned 16-bit words in little-endian order, and the sums of
-- `LTHash._perform_single`.
use zowpy.Prelude.{
  if◌then◌else◌, Option-cases, length, All, AreBytes, ℕ, ◌+◌, ◌-◌, ◌*◌, ◌/◌, ◌%◌, ◌^◌, ◌<◌, ◌≡◌,
  refl, inl, inr, Bool, true, false, not, Option, none, some, List, [], ◌∷◌, arith,
}

-- `struct.unpack('<' + 'H' * (len(data) // 2), data)`; `none` is the `struct.error` of an odd length.
unfoldable pub unpack_words : List ℕ → Option (List ℕ)
unpack_words [] = some []
unpack_words (low ∷ []) = none
unpack_words (low ∷ high ∷ bs) = elim (unpack_words bs) [
  | none ↦ none
  | some ws ↦ some ((low + high * 2 ^ 8) ∷ ws)
]

-- `struct.pack`, at words below 2 ^ 16.
unfoldable pub pack_words : List ℕ → List ℕ
pack_words [] = []
pack_words (w ∷ ws) = w % 2 ^ 8 ∷ w / 2 ^ 8 % 2 ^ 8 ∷ pack_words ws

-- `(a + b if sum_op else a - b) & 0xFFFF`, where `b` is a word.
unfoldable pub mix_word : Bool → ℕ → ℕ → ℕ
mix_word sum_op a b = if sum_op then (a + b) % 2 ^ 16 else (a + 2 ^ 16 - b) % 2 ^ 16

-- The comprehension over `zip`, which stops at the shorter list.
unfoldable pub mix_words : Bool → List ℕ → List ℕ → List ℕ
unfolding mix_word
mix_words sum_op (a ∷ as') (b ∷ bs) = mix_word sum_op a b ∷ mix_words sum_op as' bs
mix_words sum_op _ _ = []

-- Words.
abbrev pub AreWords : List ℕ → Type 0
AreWords = All (λ w. w < 2 ^ 16)

pub unpack_words-pack_words : (ws : List ℕ) → AreWords ws → unpack_words (pack_words ws) ≡ some ws
unfolding unpack_words pack_words
unpack_words-pack_words [] h = refl
unpack_words-pack_words (w ∷ ws) h = rw (unpack_words-pack_words ws h.1) (ground arith)

pub unpack_words-AreWords : (bs ws : List ℕ) → AreBytes bs → unpack_words bs ≡ some ws → AreWords ws
unfolding unpack_words
unpack_words-AreWords [] [] h e = tt
unpack_words-AreWords [] (w ∷ ws) h e = absurd (ground arith)
unpack_words-AreWords (low ∷ []) ws h e = absurd (cc)
unpack_words-AreWords (low ∷ high ∷ bs) [] h e = absurd (ground arith)
unpack_words-AreWords (low ∷ high ∷ bs) (w ∷ ws) h e =
    (ground arith, unpack_words-AreWords bs ws h.1.1 (ground arith))

unpack_words-tail :
    (low high : ℕ) (bs ws : List ℕ)
    → unpack_words (low ∷ high ∷ bs) ≡ some ws
    → (vs : List ℕ) × (unpack_words bs ≡ some vs) × (ws ≡ (low + high * 2 ^ 8) ∷ vs)
unfolding unpack_words
unpack_words-tail low high bs ws e = elim (Option-cases (unpack_words bs)) [
  | inl bad ↦ absurd (cc (rw bad at e))
  | inr (vs, good) ↦ (vs, good, cc (rw good at e))
]

pub pack_words-unpack_words :
    (bs ws : List ℕ) → AreBytes bs → unpack_words bs ≡ some ws → pack_words ws ≡ bs
unfolding pack_words
pack_words-unpack_words [] [] h e = refl
pack_words-unpack_words [] (w ∷ ws) h e = absurd (unfold unpack_words in ground arith)
pack_words-unpack_words (low ∷ []) ws h e = absurd (unfold unpack_words in cc)
pack_words-unpack_words (low ∷ high ∷ bs) ws h e =
    let (vs, good, split) = unpack_words-tail low high bs ws e in
    let low_back : (low + high * 2 ^ 8) % 2 ^ 8 ≡ low = omega arith in
    let high_back : (low + high * 2 ^ 8) / 2 ^ 8 % 2 ^ 8 ≡ high = omega arith in
    rw (split, low_back, high_back, pack_words-unpack_words bs vs h.1.1 good)

pub mix_words-AreWords : (sum_op : Bool) (us vs : List ℕ) → AreWords (mix_words sum_op us vs)
unfolding mix_words
mix_words-AreWords sum_op [] vs = tt
mix_words-AreWords sum_op (u ∷ us) [] = tt
mix_words-AreWords sum_op (u ∷ us) (v ∷ vs) = (ground arith, mix_words-AreWords sum_op us vs)

-- Adding words is independent of the order.
pub mix_words_comm :
    (p : Bool) (us vs ws : List ℕ)
    → AreWords vs
    → AreWords ws
    → mix_words p (mix_words p us vs) ws ≡ mix_words p (mix_words p us ws) vs
unfolding mix_words
mix_words_comm p [] vs ws h k = refl
mix_words_comm p (u ∷ us) [] [] h k = refl
mix_words_comm p (u ∷ us) [] (w ∷ ws) h k = refl
mix_words_comm p (u ∷ us) (v ∷ vs) [] h k = refl
mix_words_comm p (u ∷ us) (v ∷ vs) (w ∷ ws) h k = ground (arith, mix_words_comm p us vs ws h.1 k.1)

-- What was added is taken away again.
pub mix_words-cancel :
    (p : Bool) (us vs : List ℕ)
    → AreWords us
    → AreWords vs
    → length us ≡ length vs
    → mix_words (not p) (mix_words p us vs) vs ≡ us
unfolding mix_words
mix_words-cancel p [] vs h k e = refl
mix_words-cancel p (u ∷ us) [] h k e = absurd (omega arith)
mix_words-cancel true (u ∷ us) (v ∷ vs) h k e = ground (arith, mix_words-cancel true us vs h.1 k.1)
mix_words-cancel false (u ∷ us) (v ∷ vs) h k e =
    ground (arith, mix_words-cancel false us vs h.1 k.1)
