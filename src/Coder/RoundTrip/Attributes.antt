-- ===== src/Coder/RoundTrip/Attributes.antt =====
-- The attributes of a node: what was written is read back in the same order.
use zowpy.Prelude.{
  length, length-append, AreBytes, AreBytes-append, Text, text_eq_iff, ℕ, suc, ◌≤◌, ◌<◌, ◌≡◌, refl,
  ◌∙◌, Bool, true, false, ◌||◌, Option, none, some, List, [], ◌∷◌, ◌++◌, append_assoc, append-nil,
  arith,
}
use zowpy.Coder.Node.{Attributes}
use zowpy.Coder.Dictionary.{TokenDictionary}
use zowpy.Coder.Write.{Out, put, write_string, write_attributes}
use zowpy.Coder.Read.{read_string, key_eq, set_attribute, read_attributes}
use zowpy.Coder.RoundTrip.Plain.{Reads}
use zowpy.Result.{ok}
use zowpy.Coder.Ints.{Reader, ◌>>=◌, read_int8}

-- The text is read back as it was, packed or not.
abbrev pub Carried : TokenDictionary → Text → Type 0
Carried d s = (packed : Bool) → Reads d (write_string d s packed) s

unfoldable pub has_key : Option Text → Attributes → Bool
has_key k [] = false
has_key k ((j, v) ∷ rest) = key_eq k j || has_key k rest

-- No key of the second dict is in the first.
abbrev pub Apart : Attributes → Attributes → Type 0
Apart acc [] = Unit
Apart acc ((k, v) ∷ rest) = (has_key k acc ≡ false) × Apart acc rest

pub Apart-nil : (attrs : Attributes) → Apart [] attrs
unfolding has_key
Apart-nil [] = tt
Apart-nil ((k, v) ∷ rest) = (refl, Apart-nil rest)

-- Every key and value is a text that is carried, and no key stands twice, as in any dict.
abbrev pub AreCarried : TokenDictionary → Attributes → Type 0
AreCarried d [] = Unit
AreCarried d ((some k, some v) ∷ rest) =
    Carried d k × Carried d v × (has_key (some k) rest ≡ false) × AreCarried d rest
AreCarried d (_ ∷ rest) = ⊥

set_attribute-new :
    (k v : Option Text) (acc : Attributes)
    → has_key k acc ≡ false
    → set_attribute k v acc ≡ acc ++ (k, v) ∷ []
unfolding set_attribute has_key
set_attribute-new k v [] h = refl
set_attribute-new k v ((j, w) ∷ acc) h = ground (arith, set_attribute-new k v acc)

key_eq_sym : (j k : Option Text) → key_eq j k ≡ key_eq k j
key_eq_sym none none = refl
key_eq_sym none (some k) = refl
key_eq_sym (some j) none = refl
key_eq_sym (some j) (some k) = ground (arith, text_eq_iff j k, text_eq_iff k j)

has_key-append :
    (k : Option Text) (acc more : Attributes)
    → has_key k (acc ++ more) ≡ has_key k acc || has_key k more
unfolding has_key
has_key-append k [] more = refl
has_key-append k ((j, v) ∷ acc) more = ground (arith, has_key-append k acc more)

Apart-extend :
    (acc : Attributes) (k v : Option Text) (rest : Attributes)
    → Apart acc rest
    → has_key k rest ≡ false
    → Apart (acc ++ (k, v) ∷ []) rest
unfolding has_key
Apart-extend acc k v [] a h = tt
Apart-extend acc k v ((j, w) ∷ rest) a h = (
  rw (has_key-append j acc ((k, v) ∷ [])) (ground (arith, key_eq_sym j k)),
  Apart-extend acc k v rest a.1 (ground arith),
)

-- The loop of `readAttributes` on the bytes of the attributes that are left.
abbrev pub ReadsAttributes : TokenDictionary → Attributes → List ℕ → Type 0
ReadsAttributes d attrs bs =
    (f : ℕ) (acc : Attributes) (rest : List ℕ)
    → length bs ≤ f
    → Apart acc attrs
    → read_attributes (read_int8 >>= read_string d f) (length attrs) acc (bs ++ rest)
      ≡ ok (acc ++ attrs, rest)

read_one :
    (d : TokenDictionary) (f : ℕ) {out : Out} {t : Text} (r : Reads d out t) (rest : List ℕ)
    → length r.body < f
    → (read_int8 >>= read_string d f) (r.token ∷ (r.body ++ rest)) ≡ ok (some t, rest)
unfolding read_int8
read_one d f r rest h = r.read f rest h

read_attributes-step :
    (string : Reader (Option Text)) (n : ℕ) (acc : Attributes) (k v : Option Text)
    (start bs cs : List ℕ)
    → string start ≡ ok (k, bs)
    → string bs ≡ ok (v, cs)
    → read_attributes string (suc n) acc start ≡ read_attributes string n (set_attribute k v acc) cs
unfolding read_attributes
read_attributes-step string n acc k v start bs cs h h' = rw (h, h')

read_attributes-zero :
    (string : Reader (Option Text)) (acc : Attributes) (bs : List ℕ)
    → read_attributes string 0 acc bs ≡ ok (acc ++ [], bs)
unfolding read_attributes
read_attributes-zero string acc bs = rw append-nil

-- One attribute in front of those that are read back.
ReadsAttributes-cons :
    (d : TokenDictionary) (k v : Text) (more : Attributes) (bs : List ℕ) {out out' : Out}
    (key : Reads d out k) (value : Reads d out' v)
    → has_key (some k) more ≡ false
    → ReadsAttributes d more bs
    → ReadsAttributes d
        ((some k, some v) ∷ more)
        (key.token ∷ (key.body ++ value.token ∷ (value.body ++ bs)))
ReadsAttributes-cons d k v more bs key value fresh back f acc rest h a =
    let len = length-append key.body (value.token ∷ (value.body ++ bs)) in
    let len' = length-append value.body bs in
    read_attributes-step (read_int8 >>= read_string d f) (length more) acc (some k) (some v) _
      (value.token ∷ ((value.body ++ bs) ++ rest)) (bs ++ rest)
      (rw append_assoc (read_one d f key _ (omega (arith, len, len'))))
      (rw append_assoc (read_one d f value (bs ++ rest) (omega (arith, len, len'))))
    ∙ rw (set_attribute-new (some k) (some v) acc a.0) (
        back f (acc ++ (some k, some v) ∷ []) rest (omega (arith, len, len'))
          (Apart-extend acc (some k) (some v) more a.1 fresh)
        ∙ rw append_assoc)

-- The encoder writes carried attributes as bytes, without an exception, and the decoder reads them
-- back.
pub write_attributes-Reads :
    (d : TokenDictionary) (attrs : Attributes)
    → AreCarried d attrs
    → (bs : List ℕ) × (write_attributes d attrs ≡ put bs) × AreBytes bs × ReadsAttributes d attrs bs
unfolding write_attributes
write_attributes-Reads d [] c = ([], refl, tt, λ f acc rest h a. read_attributes-zero _ acc rest)
write_attributes-Reads d ((none, v) ∷ rest) c = absurd c
write_attributes-Reads d ((some k, none) ∷ rest) c = absurd c
write_attributes-Reads d ((some k, some v) ∷ more) c =
    let key = c.0 false in
    let value = c.1 true in
    let (bs, written, are_bytes, back) = write_attributes-Reads d more c.3 in
    (
      key.token ∷ (key.body ++ value.token ∷ (value.body ++ bs)),
      rw (key.written, value.written, written),
      (
        key.are_bytes.0,
        AreBytes-append key.body (value.token ∷ (value.body ++ bs)) (key.are_bytes.1)
            (value.are_bytes.0, AreBytes-append value.body bs (value.are_bytes.1) are_bytes),
      ),
      ReadsAttributes-cons d k v more bs key value c.2 back,
    )
