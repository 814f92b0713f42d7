-- ===== src/Sessions/Missing.antt =====
-- `jids_without_session` keeps the jids whose recipient and device have no session.
use zowpy.Prelude.{
  Bool-cases, All, Text, ◌≡◌, refl, inl, inr, true, false, some, List, [], ◌∷◌, ◌++◌, arith,
}
use zowpy.Sessions.{Key, has_key, existing_sessions, filter_new, jids_without_session}
use zowpy.Sessions.Distinct.{
  AreCovered, has_key-append_left, has_key_self, IsSublist, ends, keeps, skips, AreKeys, no_keys,
  a_key,
}

-- What is kept of a list of jids with their keys, and why the others are not.
pub record AreMissing (existing : List Key) (jids out : List Text) (keys : List Key) : Type 0 where
  pub kept : List Key
  pub are_keys : AreKeys out kept
  pub in_order : IsSublist out jids
  pub without : All (λ k. has_key k existing ≡ false) kept
  pub covered : AreCovered existing kept keys

has_key-insert :
    (k a : Key) (xs ys : List Key) → has_key k (xs ++ ys) ≡ true → has_key k (xs ++ a ∷ ys) ≡ true
unfolding has_key
has_key-insert k a [] ys h = ground arith
has_key-insert k a (x ∷ xs) ys h = ground (arith, has_key-insert k a xs ys)

AreCovered-insert :
    (a : Key) (existing kept keys : List Key)
    → AreCovered existing kept keys
    → AreCovered existing (a ∷ kept) keys
AreCovered-insert a existing kept [] h = tt
AreCovered-insert a existing kept (k ∷ ks) h =
    (has_key-insert k a existing kept h.0, AreCovered-insert a existing kept ks h.1)

filter_new-AreMissing :
    (existing : List Key) (jids : List Text) (keys : List Key)
    → AreKeys jids keys
    → (out : List Text) × (filter_new existing jids ≡ some out) × AreMissing existing jids out keys
unfolding filter_new
filter_new-AreMissing existing _ _ no_keys = (
  [],
  refl,
  record { kept = []; are_keys = no_keys; in_order = ends; without = tt; covered = tt },
)
filter_new-AreMissing existing _ _ (a_key jid key jids keys e h) =
    let (out, computed, rest) = filter_new-AreMissing existing jids keys h in
    elim (Bool-cases (has_key key existing)) [
      | inl old ↦ (
        out,
        rw (e, computed, filter_new, old) refl,
        record {
          kept = rest.kept;
          are_keys = rest.are_keys;
          in_order = skips jid out jids rest.in_order;
          without = rest.without;
          covered = (has_key-append_left key existing rest.kept old, rest.covered);
        },
      )
      | inr new ↦ (
        jid ∷ out,
        rw (e, computed, filter_new, new) refl,
        record {
          kept = key ∷ rest.kept;
          are_keys = a_key jid key out rest.kept e rest.are_keys;
          in_order = keeps jid out jids rest.in_order;
          without = (new, rest.without);
          covered = (
            has_key_self key existing rest.kept,
            AreCovered-insert key existing rest.kept keys rest.covered,
          );
        },
      )
    ]

-- For jids and sessions that can all be decoded, `jids_without_session` returns those jids, in their
-- order, whose key is not among the sessions: none that is kept is, and each key of the list is
-- among the sessions or is kept.
pub jids_without_session-AreMissing :
    (jids : List Text) (keys jids_maps existing : List Key)
    → AreKeys jids keys
    → existing_sessions jids_maps ≡ some existing
    → (out : List Text) × (jids_without_session jids jids_maps ≡ some out)
      × AreMissing existing jids out keys
unfolding jids_without_session
jids_without_session-AreMissing jids keys jids_maps existing h e =
    let (out, computed, missing_keys) = filter_new-AreMissing existing jids keys h in
    (out, rw (e, computed, jids_without_session) refl, missing_keys)
