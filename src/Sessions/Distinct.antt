-- ===== src/Sessions/Distinct.antt =====
-- `deduplicate` keeps one jid for each recipient and device.
use zowpy.Prelude.{
  Bool-cases, All, Text, text_eq_refl, ◌≡◌, refl, sym, ◌∙◌, inl, inr, true, false, some, List, [],
  ◌∷◌, ◌++◌, arith,
}
use zowpy.Python.Decimal.{ℤ, pos, negsuc}
use zowpy.Sessions.{
  Key, jid_to_recipient_device, int_eq, recipient_eq, has_key, deduplicate_from, deduplicate,
  number, name, Recipient,
}

-- `xs` is `ys` with some elements left out, in the same order.
pub data IsSublist : List Text → List Text → Type 0 where
  ends : IsSublist [] []
  keeps : (a : Text) (xs ys : List Text) → IsSublist xs ys → IsSublist (a ∷ xs) (a ∷ ys)
  skips : (a : Text) (xs ys : List Text) → IsSublist xs ys → IsSublist xs (a ∷ ys)

-- The keys of jids, where all can be decoded.
pub data AreKeys : List Text → List Key → Type 0 where
  no_keys : AreKeys [] []
  a_key :
      (jid : Text) (key : Key) (jids : List Text) (keys : List Key)
      → jid_to_recipient_device jid ≡ some key
      → AreKeys jids keys
      → AreKeys (jid ∷ jids) (key ∷ keys)

-- No key twice, and none of those seen.
abbrev pub AreDistinct : List Key → List Key → Type 0
AreDistinct seen [] = Unit
AreDistinct seen (k ∷ ks) = (has_key k seen ≡ false) × AreDistinct (k ∷ seen) ks

-- Every key is among those seen or those kept.
abbrev pub AreCovered : List Key → List Key → List Key → Type 0
AreCovered seen kept = All (λ k. has_key k (seen ++ kept) ≡ true)

-- What is kept of a list of jids with their keys.
pub record Keeps (seen : List Key) (jids out : List Text) (keys : List Key) : Type 0 where
  pub kept : List Key
  pub are_keys : AreKeys out kept
  pub in_order : IsSublist out jids
  pub distinct : AreDistinct seen kept
  pub covered : AreCovered seen kept keys

pub has_key-append_left :
    (k : Key) (xs ys : List Key) → has_key k xs ≡ true → has_key k (xs ++ ys) ≡ true
unfolding has_key
has_key-append_left k [] ys h = absurd (cc)
has_key-append_left k (x ∷ xs) ys h = ground (arith, has_key-append_left k xs ys)

-- A list of keys with one in the middle, or in front.
has_key-middle :
    (k a : Key) (xs ys : List Key) → has_key k (a ∷ xs ++ ys) ≡ has_key k (xs ++ a ∷ ys)
unfolding has_key
has_key-middle k a [] ys = refl
has_key-middle k a (x ∷ xs) ys = ground (arith, has_key-middle k a xs ys)

move :
    (a : Key) (seen kept keys : List Key)
    → AreCovered (a ∷ seen) kept keys
    → AreCovered seen (a ∷ kept) keys
move a seen kept [] h = tt
move a seen kept (k ∷ ks) h = (sym (has_key-middle k a seen kept) ∙ h.0, move a seen kept ks h.1)

int_eq_refl : (n : ℤ) → int_eq n n ≡ true
unfolding int_eq
int_eq_refl (pos n) = ground arith
int_eq_refl (negsuc n) = ground arith

recipient_eq_refl : (r : Recipient) → recipient_eq r r ≡ true
unfolding recipient_eq
recipient_eq_refl (number n) = int_eq_refl n
recipient_eq_refl (name s) = text_eq_refl s

pub has_key_self : (k : Key) (xs ys : List Key) → has_key k (xs ++ k ∷ ys) ≡ true
unfolding has_key
has_key_self k [] ys = rw (recipient_eq_refl k.0, int_eq_refl k.1) refl
has_key_self k (x ∷ xs) ys = ground (arith, has_key_self k xs ys)

deduplicate_from-Keeps :
    (seen : List Key) (jids : List Text) (keys : List Key)
    → AreKeys jids keys
    → (out : List Text) × (deduplicate_from seen jids ≡ some out) × Keeps seen jids out keys
unfolding deduplicate_from
deduplicate_from-Keeps seen _ _ no_keys = (
  [],
  refl,
  record { kept = []; are_keys = no_keys; in_order = ends; distinct = tt; covered = tt },
)
deduplicate_from-Keeps seen _ _ (a_key jid key jids keys e h) =
    elim (Bool-cases (has_key key seen)) [
      | inl old ↦
          let (out, computed, keeps_rest) = deduplicate_from-Keeps seen jids keys h in
          (
            out,
            rw (e, old, deduplicate_from) computed,
            record {
              kept = keeps_rest.kept;
              are_keys = keeps_rest.are_keys;
              in_order = skips jid out jids keeps_rest.in_order;
              distinct = keeps_rest.distinct;
              covered = (has_key-append_left key seen keeps_rest.kept old, keeps_rest.covered);
            },
          )
      | inr new ↦
          let (out, computed, keeps_rest) = deduplicate_from-Keeps (key ∷ seen) jids keys h in
          (
            jid ∷ out,
            rw (e, new, computed, deduplicate_from) refl,
            record {
              kept = key ∷ keeps_rest.kept;
              are_keys = a_key jid key out keeps_rest.kept e keeps_rest.are_keys;
              in_order = keeps jid out jids keeps_rest.in_order;
              distinct = (new, keeps_rest.distinct);
              covered = (
                has_key_self key seen keeps_rest.kept,
                move key seen keeps_rest.kept keys keeps_rest.covered,
              );
            },
          )
    ]

-- For jids that can all be decoded, `deduplicate` returns a list of some of them, in their order,
-- with no key twice and with every key of the list.
pub deduplicate-Keeps :
    (jids : List Text) (keys : List Key)
    → AreKeys jids keys
    → (out : List Text) × (deduplicate jids ≡ some out) × Keeps [] jids out keys
unfolding deduplicate
deduplicate-Keeps jids keys h = deduplicate_from-Keeps [] jids keys h
