-- ===== src/Coder/RoundTrip/Contents.antt =====
-- Content, and the count of children: what is written is bytes, which are read back.
use zowpy.Prelude.{
  ltb, leb, ◌==◌, ==_ne, Bool-cases, length, AreBytes, ℕ, ◌^◌, ◌<◌, ◌≡◌, refl, inl, inr, true,
  false, List, ◌∷◌, ◌++◌, arith,
}
use zowpy.Result.{ok}
use zowpy.Coder.Node.{Payload, bytes}
use zowpy.Coder.Dictionary.{TokenDictionary}
use zowpy.Coder.Ints.{
  read_int8, read_int16, read_int20, read_list_size, write_int8, write_int16, write_int20,
  write_list_start,
}
use zowpy.Coder.Ints.RoundTrip.{read_int-write_int}
use zowpy.Coder.Write.{write_short, write_bytes}
use zowpy.Coder.Read.{is_list_tag, read_content}
use zowpy.Coder.RoundTrip.Plain.{read_sized_bytes, leb-false}

-- Content that is bytes: a token that starts no list, and the bytes.
pub record ReadsContent (d : TokenDictionary) (written : List ℕ) (payload : Payload) : Type 0 where
  pub token : ℕ
  pub body : List ℕ
  pub split : written ≡ token ∷ body
  pub are_bytes : AreBytes written
  pub no_list : is_list_tag token ≡ false
  pub content : (f : ℕ) (rest : List ℕ) → read_content d f token (body ++ rest) ≡ ok (payload, rest)

content_short :
    (d : TokenDictionary) (bs : List ℕ)
    → length bs < 256
    → AreBytes bs
    → ReadsContent d (252 ∷ write_int8 (length bs) ++ bs) (bytes bs)
unfolding read_content
content_short d bs h are = record {
  token = 252;
  body = write_int8 (length bs) ++ bs;
  split = refl;
  are_bytes = unfold write_int8 in (omega arith, (omega arith, are));
  no_list = refl;
  content = λ f rest. rw (
      read_sized_bytes d bs rest read_int8 (write_int8 (length bs))
        (λ r. (read_int-write_int (length bs) r).0 h));
}

content_medium :
    (d : TokenDictionary) (bs : List ℕ)
    → length bs < 2 ^ 20
    → AreBytes bs
    → ReadsContent d (253 ∷ write_int20 (length bs) ++ bs) (bytes bs)
unfolding read_content
content_medium d bs h are = record {
  token = 253;
  body = write_int20 (length bs) ++ bs;
  split = refl;
  are_bytes = unfold write_int20 in (omega arith, (omega arith, (omega arith, (omega arith, are))));
  no_list = refl;
  content = λ f rest. rw (
      read_sized_bytes d bs rest read_int20 (write_int20 (length bs))
        (λ r. (read_int-write_int (length bs) r).2 h));
}

pub content-write_bytes :
    (d : TokenDictionary) (bs : List ℕ)
    → length bs < 2 ^ 20
    → AreBytes bs
    → ReadsContent d (write_bytes bs false) (bytes bs)
unfolding write_bytes write_short
content-write_bytes d bs h are =
    rw (leb-false 0x100000 (length bs) h) (elim (Bool-cases (leb 0x100 (length bs))) [
      | inl large ↦ rw large (content_medium d bs h are)
      | inr small ↦ rw small (content_short d bs (ground arith) are)
    ])

-- The start of a list of children: a list tag and the count.
pub record ReadsCount (written : List ℕ) (n : ℕ) : Type 0 where
  pub tag : ℕ
  pub size_bytes : List ℕ
  pub split : written ≡ tag ∷ size_bytes
  pub is_list : is_list_tag tag ≡ true
  pub count : (rest : List ℕ) → read_list_size tag (size_bytes ++ rest) ≡ ok (n, rest)

pub count-write_list_start : (n : ℕ) → 0 < n → n < 2 ^ 16 → ReadsCount (write_list_start n) n
unfolding write_list_start read_list_size read_int8 read_int16
count-write_list_start n pos h = elim (Bool-cases (ltb n 256)) [
  | inl small ↦
      rw ((==_ne n 0 (omega arith)), small)
        (record {
          tag = 248;
          size_bytes = write_int8 n;
          split = refl;
          is_list = refl;
          count = λ rest. (read_int-write_int n rest).0 (ground arith);
        })
  | inr large ↦
      rw ((==_ne n 0 (omega arith)), large)
        (record {
          tag = 249;
          size_bytes = write_int16 n;
          split = refl;
          is_list = refl;
          count = λ rest. (read_int-write_int n rest).1 h;
        })
]

pub write_list_start-AreBytes : (n : ℕ) → AreBytes (write_list_start n)
unfolding write_list_start write_int8 write_int16
write_list_start-AreBytes n = elim (Bool-cases (n == 0)) [
  | inl empty ↦ rw empty (omega arith, tt)
  | inr more ↦ rw more (elim (Bool-cases (ltb n 256)) [
    | inl small ↦ rw small (omega arith, (omega arith, tt))
    | inr large ↦ rw large (omega arith, (omega arith, (omega arith, tt)))
  ])
]

-- The list start takes at least a byte.
pub length-write_list_start_pos : (n : ℕ) → 0 < length (write_list_start n)
unfolding write_list_start
length-write_list_start_pos n = ground arith
