-- ===== src/Bridge/Reassembly.antt =====
-- The segments of framed bytes, whole and in chunks.
use zowpy.Prelude.{
  ltb, leb, Bool-cases, length, drop, length-append, length-drop-le, take-length_append,
  drop-length_append, All, All-append, AreBytes, ℕ, zero, suc, ◌+◌, ◌-◌, ◌/◌, ◌%◌, ◌^◌, ◌≤◌, ◌<◌,
  ◌≡◌, refl, sym, ap, ◌∙◌, inl, inr, false, List, [], ◌∷◌, ◌++◌, append_assoc, append-nil, arith,
}
use zowpy.Connection.{size_bytes}
use zowpy.Noise.Stream.{Segment}
use zowpy.Bridge.{size_of, extract, extract_all, frame}
use zowpy.Bridge.Framing.{
  size_of-size_bytes, drop-AreBytes, size_of-small, extract-suc, extract-more, length-extract-le,
  extract-AreBytes, extract-partial, continue, extract-append,
}

-- Chunks, one after the other.
abbrev pub joined : List (List ℕ) → List ℕ
joined [] = []
joined (c ∷ cs) = c ++ joined cs

abbrev pub frames : List Segment → List ℕ
frames [] = []
frames (segment ∷ segments) = frame segment ++ frames segments

abbrev pub AreShort : List Segment → Type 0
AreShort = All (λ segment. length segment < 2 ^ 24)

-- What the reading loop takes out of a buffer as chunks come in.
unfoldable pub feed_all : List ℕ → List (List ℕ) → List Segment × List ℕ
feed_all buffer [] = ([], buffer)
feed_all buffer (c ∷ cs) =
    let (segments, rest) = extract_all (buffer ++ c) in
    let (others, left) = feed_all rest cs in (segments ++ others, left)

extract_all-extract :
    (f : ℕ) (buffer : List ℕ) → length buffer ≤ f → extract f buffer ≡ extract_all buffer
unfolding extract_all
extract_all-extract f buffer h =
    let split : f ≡ (f - length buffer) + length buffer = omega arith in
    rw split (extract-more (f - length buffer) (length buffer) buffer (omega arith))

extract_all-append :
    (buffer more : List ℕ)
    → AreBytes buffer
    → extract_all (buffer ++ more) ≡ (
      (extract_all buffer).0 ++ (extract_all ((extract_all buffer).1 ++ more)).0,
      (extract_all ((extract_all buffer).1 ++ more)).1,
    )
extract_all-append buffer more h =
    let f = length (buffer ++ more) in
    let size = length-append buffer more in
    let same : extract f buffer ≡ extract_all buffer =
      extract_all-extract f buffer (omega (arith, size)) in
    let left = (extract_all buffer).1 in
    let shorter : length left ≤ length buffer =
      unfold extract_all in length-extract-le (length buffer) buffer in
    let bound : length (left ++ more) ≤ f = omega (arith, size, length-append left more) in
    sym (extract_all-extract f (buffer ++ more) (omega arith))
    ∙ extract-append f buffer more h (omega arith)
    ∙ ap (λ e. continue f e more) same
    ∙ ap (λ e. ((extract_all buffer).0 ++ e.0, e.1)) (extract_all-extract f (left ++ more) bound)

extract-stuck :
    (f : ℕ) (buffer : List ℕ)
    → AreBytes buffer
    → length buffer ≤ f
    → extract f (extract f buffer).1 ≡ ([], (extract f buffer).1)
unfolding extract
extract-stuck zero buffer h k = refl
extract-stuck (suc f) [] h k = refl
extract-stuck (suc f) (a ∷ []) h k = refl
extract-stuck (suc f) (a ∷ b ∷ []) h k = refl
extract-stuck (suc f) (a ∷ b ∷ c ∷ bytes) h k =
    let size = size_of a b c in
    let small = size_of-small a b c h.0 h.1.0 h.1.1.0 in
    elim (Bool-cases (ltb (length bytes) size)) [
      | inl short ↦
          rw (extract-partial f a b c bytes small short) (extract-partial f a b c bytes small short)
      | inr whole ↦
          let rest = drop size bytes in
          let room : length rest ≤ f = omega (arith, length-drop-le size bytes) in
          rw (small, whole)
            (extract-suc f (extract f rest).1 (omega (arith, length-extract-le f rest))
              ∙ extract-stuck f rest (drop-AreBytes size bytes h.1.1.1) room)
    ]

extract_all-stuck :
    (buffer : List ℕ)
    → AreBytes buffer
    → extract_all (extract_all buffer).1 ≡ ([], (extract_all buffer).1)
unfolding extract_all
extract_all-stuck buffer h =
    let left = (extract (length buffer) buffer).1 in
    sym (extract_all-extract (length buffer) left (length-extract-le (length buffer) buffer))
    ∙ extract-stuck (length buffer) buffer h (omega arith)

feed_all-joined :
    (buffer : List ℕ) (cs : List (List ℕ))
    → AreBytes buffer
    → All AreBytes cs
    → extract_all buffer ≡ ([], buffer)
    → feed_all buffer cs ≡ extract_all (buffer ++ joined cs)
unfolding feed_all
feed_all-joined buffer [] h k stuck = rw (append-nil buffer) (sym stuck)
feed_all-joined buffer (c ∷ cs) h k stuck =
    let whole = All-append (λ b. b < 2 ^ 8) buffer c h k.0 in
    let left = (extract_all (buffer ++ c)).1 in
    let left_bytes : AreBytes left =
      unfold extract_all in extract-AreBytes (length (buffer ++ c)) (buffer ++ c) whole in
    rw (feed_all-joined left cs left_bytes k.1 (extract_all-stuck (buffer ++ c) whole)) (
      sym (extract_all-append (buffer ++ c) (joined cs) whole)
      ∙ ap extract_all (append_assoc buffer c (joined cs)))

extract-segment :
    (f a b c : ℕ) (segment more : List ℕ)
    → size_of a b c ≡ length segment
    → length segment < 2 ^ 24
    → extract (suc f) (a ∷ b ∷ c ∷ (segment ++ more))
      ≡ (segment ∷ (extract f more).0, (extract f more).1)
unfolding extract
extract-segment f a b c segment more e h =
    let small : leb (2 ^ 24) (length segment) ≡ false = ground arith in
    let whole : ltb (length (segment ++ more)) (length segment) ≡ false =
      ground (arith, length-append segment more) in
    rw (e, small, whole, take-length_append segment more, drop-length_append segment more) refl

extract_all-frame :
    (segment : Segment) (more : List ℕ)
    → length segment < 2 ^ 24
    → extract_all (frame segment ++ more) ≡ (segment ∷ (extract_all more).0, (extract_all more).1)
unfolding extract_all frame size_bytes
extract_all-frame segment more h =
    let n = length segment in
    extract-segment (suc (suc (length (segment ++ more)))) (n / 2 ^ 16 % 2 ^ 8) (n / 2 ^ 8 % 2 ^ 8)
      (n % 2 ^ 8) segment more (size_of-size_bytes n h) h
    ∙ ap (λ e. (segment ∷ e.0, e.1))
        (extract_all-extract (suc (suc (length (segment ++ more)))) more
          (omega (arith, length-append segment more)))

extract_all-frames :
    (segments : List Segment) → AreShort segments → extract_all (frames segments) ≡ (segments, [])
extract_all-frames [] h = unfold extract_all extract in refl
extract_all-frames (segment ∷ segments) h =
    extract_all-frame segment (frames segments) h.0
    ∙ ap (λ e. (segment ∷ e.0, e.1)) (extract_all-frames segments h.1)

-- However the bytes of framed segments are cut into chunks, the loop finds the segments, and leaves
-- nothing in its buffer.
pub feed_all-frames :
    (segments : List Segment) (cs : List (List ℕ))
    → AreShort segments
    → All AreBytes cs
    → joined cs ≡ frames segments
    → feed_all [] cs ≡ (segments, [])
feed_all-frames segments cs h k e =
    feed_all-joined [] cs tt k (unfold extract_all extract in refl)
    ∙ ap extract_all e
    ∙ extract_all-frames segments h
