-- ===== src/Sessions/Decoding.antt =====
-- Decoding the jid of a device.
use zowpy.Prelude.{
  ltb, ◌==◌, if◌then◌else◌, Bool-cases, length, Text, ℕ, ◌≡◌, refl, ap, ◌∙◌, inl, inr, true, false,
  ◌||◌, some, [], ◌∷◌, ◌++◌, arith,
}
use zowpy.Python.{contains, before-append}
use zowpy.Python.Decimal.{decimal, int_of-decimal, contains-decimal, pos}
use zowpy.Sessions.{push_char, split_username, int_or_zero, type_of, decode_parts, jid_decode}

-- A part of a user name: no separator in it.
pub record IsPart (s : Text) : Type 0 where
  pub no_at : contains b'@' s ≡ false
  pub no_colon : contains b':' s ≡ false
  pub no_dot : contains b'.' s ≡ false

contains-tail :
    (c a : ℕ) (s : Text) → contains c (a ∷ s) ≡ false → ((a == c) ≡ false) × (contains c s ≡ false)
unfolding contains
contains-tail c a s h = (ground arith, ground arith)

split_username-last :
    (s : Text) → contains b':' s ≡ false → contains b'.' s ≡ false → split_username s ≡ s ∷ []
unfolding split_username push_char
split_username-last [] h k = refl
split_username-last (c ∷ s) h k =
    let (colon, h') = contains-tail b':' c s h in
    let (dot, k') = contains-tail b'.' c s k in rw (colon, dot, split_username-last s h' k') refl

split_username-part :
    (s : Text) (sep : ℕ) (rest : Text)
    → contains b':' s ≡ false
    → contains b'.' s ≡ false
    → (sep == b':' || sep == b'.') ≡ true
    → split_username (s ++ sep ∷ rest) ≡ s ∷ split_username rest
unfolding split_username push_char
split_username-part [] sep rest h k cut = rw cut refl
split_username-part (c ∷ s) sep rest h k cut =
    let (colon, h') = contains-tail b':' c s h in
    let (dot, k') = contains-tail b'.' c s k in
    rw (colon, dot, split_username-part s sep rest h' k' cut) refl

contains-append_of :
    (c : ℕ) (s t : Text) → contains c s ≡ false → contains c t ≡ false → contains c (s ++ t) ≡ false
unfolding contains
contains-append_of c [] t h k = k
contains-append_of c (a ∷ s) t h k =
    let (differ, h') = contains-tail c a s h in rw differ (contains-append_of c s t h' k)

-- The user name of a device: `user.agent:device`.
abbrev pub device_name : Text → ℕ → ℕ → Text
device_name user agent device = user ++ b'.' ∷ (decimal agent ++ b':' ∷ decimal device)

module _ (user : Text) (agent device : ℕ) (part : IsPart user) where
  split_username-device_name :
      split_username (device_name user agent device) ≡ user ∷ decimal agent ∷ decimal device ∷ []
  split_username-device_name =
      split_username-part user b'.' _ part.no_colon part.no_dot refl
      ∙ ap (λ rest. user ∷ rest)
          (split_username-part (decimal agent) b':' (decimal device)
              (contains-decimal b':' agent refl) (contains-decimal b'.' agent refl) refl
            ∙ ap (λ rest. decimal agent ∷ rest)
                (split_username-last (decimal device) (contains-decimal b':' device refl)
                  (contains-decimal b'.' device refl)))

  no_at-device_name : contains b'@' (device_name user agent device) ≡ false
  no_at-device_name = contains-append_of b'@' user _ part.no_at (
      unfold contains in
      contains-append_of b'@' (decimal agent) (b':' ∷ decimal device)
        (contains-decimal b'@' agent refl) (contains-decimal b'@' device refl))

  type_of-decimal :
      type_of user (some (decimal agent)) ≡ some (if ltb (length user) 14 then pos agent else pos 1)
  unfolding type_of int_or_zero
  type_of-decimal = elim (Bool-cases (ltb (length user) 14)) [
    | inl short ↦ rw (short, type_of, int_of-decimal agent) refl
    | inr long ↦ rw (long, type_of) refl
  ]

  decode_parts-decimal :
      decode_parts (user ∷ decimal agent ∷ decimal device ∷ [])
      ≡ some (record {
        recipient_id = user;
        recipient_type = if ltb (length user) 14 then pos agent else pos 1;
        device_id = pos device;
      })
  unfolding decode_parts int_or_zero
  decode_parts-decimal = rw (type_of-decimal, int_of-decimal device, decode_parts, int_or_zero) refl

  -- The jid `user.agent:device@server`, whose user has no separator, is decoded to its user and
  -- device, with its agent where the user has less than 14 characters, and 1 else.
  pub jid_decode-device_name :
      (server : Text)
      → jid_decode (device_name user agent device ++ b'@' ∷ server)
        ≡ some (record {
          recipient_id = user;
          recipient_type = if ltb (length user) 14 then pos agent else pos 1;
          device_id = pos device;
        })
  unfolding jid_decode
  jid_decode-device_name server =
      rw
        (
          before-append b'@' (device_name user agent device) server no_at-device_name,
          split_username-device_name,
          decode_parts-decimal,
        )
        refl
