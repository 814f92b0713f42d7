-- ===== src/Jids/Digits.antt =====
-- An address depends on the digits of a jid only.
use zowpy.Prelude.{
  leb, ◌==◌, if◌then◌else◌, Bool-cases, length, drop, All, Text, codes, text_eq, text_eq_ne, ℕ,
  zero, suc, ◌-◌, ◌<◌, ◌≡◌, refl, sym, ap, ◌∙◌, inl, inr, Bool, true, false, ◌||◌, [], ◌∷◌, ◌++◌,
  append-nil, arith,
}
use zowpy.Result.{value_error, Result, ok, err}
use zowpy.Phone.Codes.{is_digit_char, digits_of, digits_of_idem}
use zowpy.Jids.{
  starts_with, has_part, ends_with, without_from, user_server, group_server, is_group_jid, or_none,
  normalize, with_server, to_whatsapp_jid,
}
use zowpy.Python.{contains}

digits_of-append : (s t : Text) → digits_of (s ++ t) ≡ digits_of s ++ digits_of t
unfolding digits_of
digits_of-append [] t = refl
digits_of-append (c ∷ s) t = elim (Bool-cases (is_digit_char c)) [
  | inl digit ↦ rw digit (ap (λ l. c ∷ l) (digits_of-append s t))
  | inr other ↦ rw other (digits_of-append s t)
]

digits_of-none :
    (p : ℕ) (ps : Text) → digits_of (p ∷ ps) ≡ [] → (is_digit_char p ≡ false) × (digits_of ps ≡ [])
unfolding digits_of
digits_of-none p ps h = elim (Bool-cases (is_digit_char p)) [
  | inl digit ↦ absurd (let g = rw digit at h in cc)
  | inr other ↦ (other, rw other at h)
]

digits_of-other : (c : ℕ) (s : Text) → is_digit_char c ≡ false → digits_of (c ∷ s) ≡ digits_of s
unfolding digits_of
digits_of-other c s h = rw h refl

-- A part without digits at the start of a text.
digits_of-starts_with :
    (p s : Text)
    → digits_of p ≡ []
    → starts_with p s ≡ true
    → digits_of (drop (length p) s) ≡ digits_of s
unfolding starts_with
digits_of-starts_with [] s h k = refl
digits_of-starts_with (p ∷ ps) [] h k = absurd cc
digits_of-starts_with (p ∷ ps) (c ∷ s) h k = elim (Bool-cases (p == c)) [
  | inl equal ↦
      let (other, rest) = digits_of-none p ps h in
      let same : p ≡ c = ground arith in
      digits_of-starts_with ps s rest (rw equal at k)
      ∙ sym (digits_of-other c s (ap is_digit_char (sym same) ∙ other))
  | inr unlike ↦ absurd (let g = rw unlike at k in cc)
]

digits_of-without_from :
    (n : ℕ) (p s : Text)
    → 0 < length p
    → digits_of p ≡ []
    → digits_of (without_from n p s) ≡ digits_of (drop n s)
unfolding without_from
digits_of-without_from zero p [] h k = refl
digits_of-without_from (suc n) p [] h k = refl
digits_of-without_from (suc n) p (c ∷ s) h k = digits_of-without_from n p s h k
digits_of-without_from zero [] (c ∷ s) h k = absurd (omega arith)
digits_of-without_from zero (q ∷ qs) (c ∷ s) h k =
    elim (Bool-cases (starts_with (q ∷ qs) (c ∷ s))) [
      | inl starts ↦
          let one : length (q ∷ qs) - 1 ≡ length qs = omega arith in
          rw starts (
            digits_of-without_from (length (q ∷ qs) - 1) (q ∷ qs) s h k
            ∙ ap (λ n. digits_of (drop n s)) one
            ∙ digits_of-starts_with (q ∷ qs) (c ∷ s) k starts)
      | inr other ↦ rw other (
          digits_of-append (c ∷ []) (without_from 0 (q ∷ qs) s)
          ∙ ap (λ l. digits_of (c ∷ []) ++ l) (digits_of-without_from 0 (q ∷ qs) s h k)
          ∙ sym (digits_of-append (c ∷ []) s))
    ]

-- The digits of a jid with its server: a group from 15 digits on.
pub address : Text → Result Text
address [] = err value_error
address (c ∷ cs) = ok ((c ∷ cs) ++ (if leb 15 (length (c ∷ cs)) then group_server else user_server))

normalize-digits_of : (jid : Text) → normalize jid ≡ or_none (digits_of jid)
unfolding normalize
normalize-digits_of [] = unfold digits_of in refl
normalize-digits_of (c ∷ cs) = ap or_none (
    digits_of-without_from 0 group_server
      (without_from 0 (codes "+") (without_from 0 user_server (c ∷ cs))) (omega arith)
      (unfold digits_of is_digit_char in refl)
    ∙ digits_of-without_from 0 (codes "+") (without_from 0 user_server (c ∷ cs)) (omega arith)
        (unfold digits_of is_digit_char in refl)
    ∙ digits_of-without_from 0 user_server (c ∷ cs) (omega arith)
        (unfold digits_of is_digit_char in refl))

abbrev AreDigits : Text → Type 0
AreDigits = All (λ c. is_digit_char c ≡ true)

digits_of-AreDigits : (s : Text) → AreDigits (digits_of s)
unfolding digits_of
digits_of-AreDigits [] = tt
digits_of-AreDigits (c ∷ s) = elim (Bool-cases (is_digit_char c)) [
  | inl digit ↦ rw digit (digit, digits_of-AreDigits s)
  | inr other ↦ rw other (digits_of-AreDigits s)
]

-- A character that is no digit.
AreDigits-contains :
    (c : ℕ) (s : Text) → is_digit_char c ≡ false → AreDigits s → contains c s ≡ false
unfolding contains
AreDigits-contains c [] h k = refl
AreDigits-contains c (a ∷ s) h k = elim (Bool-cases (a == c)) [
  | inl equal ↦
      let same : a ≡ c = ground arith in
      absurd (let no : true ≡ false = sym k.0 ∙ ap is_digit_char same ∙ h in cc)
  | inr unlike ↦ rw unlike (AreDigits-contains c s h k.1)
]

contains-has_part : (p : ℕ) (ps s : Text) → contains p s ≡ false → has_part (p ∷ ps) s ≡ false
unfolding contains has_part starts_with
contains-has_part p ps [] h = refl
contains-has_part p ps (c ∷ s) h = elim (Bool-cases (c == p)) [
  | inl equal ↦ absurd (let no = rw equal at h in cc)
  | inr unlike ↦
      let other : (p == c) ≡ false = ground arith in
      let rest = rw unlike at h in rw other (contains-has_part p ps s rest)
]

contains-ends_with : (p : ℕ) (ps s : Text) → contains p s ≡ false → ends_with (p ∷ ps) s ≡ false
unfolding contains ends_with
contains-ends_with p ps [] h = refl
contains-ends_with p ps (c ∷ s) h = elim (Bool-cases (c == p)) [
  | inl equal ↦ absurd (let no = rw equal at h in cc)
  | inr unlike ↦
      let other : (p == c) ≡ false = ground arith in
      let rest = rw unlike at h in rw other (contains-ends_with p ps s rest)
]

not_status : (s : Text) → contains b'@' s ≡ false → text_eq s (codes "status@broadcast") ≡ false
not_status s h =
    text_eq_ne s (codes "status@broadcast") (λ e.
      (let no : false ≡ true = sym h ∙ ap (contains b'@') e ∙ (unfold contains in refl) in cc))

or_false : (b : Bool) → (b || (false || false)) ≡ b
or_false true = refl
or_false false = refl

AreDigits-is_group_jid : (s : Text) → AreDigits s → is_group_jid s ≡ leb 15 (length s)
unfolding is_group_jid
AreDigits-is_group_jid s h =
    let at_sign : contains b'@' s ≡ false =
      AreDigits-contains b'@' s (unfold is_digit_char in refl) h in
    let dash : contains b'-' s ≡ false =
      AreDigits-contains b'-' s (unfold is_digit_char in refl) h in
    let dot : contains b'.' s ≡ false =
      AreDigits-contains b'.' s (unfold is_digit_char in refl) h in
    let colon : contains b':' s ≡ false =
      AreDigits-contains b':' s (unfold is_digit_char in refl) h in
    let part : has_part group_server s ≡ false = contains-has_part b'@' (codes "g.us") s at_sign in
    rw (dash, dot, colon, part, not_status s at_sign) (or_false (leb 15 (length s)))

with_server-address : (s : Text) → AreDigits s → with_server (or_none s) ≡ address s
unfolding with_server address
with_server-address [] h = refl
with_server-address (c ∷ cs) h =
    let at_sign : contains b'@' (c ∷ cs) ≡ false =
      AreDigits-contains b'@' (c ∷ cs) (unfold is_digit_char in refl) h in
    let no_end : ends_with (codes "@broadcast") (c ∷ cs) ≡ false =
      contains-ends_with b'@' (codes "broadcast") (c ∷ cs) at_sign in
    elim (Bool-cases (leb 15 (length (c ∷ cs)))) [
      | inl group ↦ rw (AreDigits-is_group_jid (c ∷ cs) h, group, no_end) refl
      | inr user ↦ rw (AreDigits-is_group_jid (c ∷ cs) h, user) refl
    ]

server-digits_of : (b : Bool) → digits_of (if b then group_server else user_server) ≡ []
unfolding digits_of is_digit_char
server-digits_of true = refl
server-digits_of false = refl

-- The digits of an address are those it was made of.
address-digits_of : (s r : Text) → digits_of s ≡ s → address s ≡ ok r → digits_of r ≡ s
unfolding address
address-digits_of [] r h k = absurd cc
address-digits_of (c ∷ cs) r h k =
    let server = if leb 15 (length (c ∷ cs)) then group_server else user_server in
    let made : (c ∷ cs) ++ server ≡ r = cc in
    let none_more : digits_of server ≡ [] = server-digits_of (leb 15 (length (c ∷ cs))) in
    ap digits_of (sym made)
    ∙ digits_of-append (c ∷ cs) server
    ∙ ap (λ l. digits_of (c ∷ cs) ++ l) none_more
    ∙ append-nil (digits_of (c ∷ cs))
    ∙ h

-- What the address of a jid is: its digits at the server of the groups, where they are 15 or more,
-- and else at that of the users; ValueError without digits. Nothing but the digits counts, neither
-- a dash nor the server that the jid has.
pub to_whatsapp_jid-address : (jid : Text) → to_whatsapp_jid jid ≡ address (digits_of jid)
unfolding to_whatsapp_jid
to_whatsapp_jid-address jid =
    ap with_server (normalize-digits_of jid)
    ∙ with_server-address (digits_of jid) (digits_of-AreDigits jid)

-- An address is its own address.
pub to_whatsapp_jid_idem : (jid r : Text) → to_whatsapp_jid jid ≡ ok r → to_whatsapp_jid r ≡ ok r
to_whatsapp_jid_idem jid r h =
    let addressed : address (digits_of jid) ≡ ok r = sym (to_whatsapp_jid-address jid) ∙ h in
    to_whatsapp_jid-address r
    ∙ ap address (address-digits_of (digits_of jid) r (digits_of_idem jid) addressed)
    ∙ addressed
