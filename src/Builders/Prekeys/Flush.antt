-- ===== src/Builders/Prekeys/Flush.antt =====
-- What `prepare_flush_payload` returns: every prekey under the bytes of its id.
use zowpy.Prelude.{
  length, drop, length-drop-le, All, All-append, text_eq, text_eq_ne, ℕ, zero, suc, ◌^◌, ◌<◌, ◌≡◌,
  refl, sym, ap, ◌∙◌, ◌≢◌, false, Option, some, List, [], ◌∷◌, ◌++◌, map, append_assoc, append-nil,
  arith,
}
use zowpy.Python.Dict.{store}
use zowpy.Builders.Ids.{adjust_id}
use zowpy.Builders.Ids.Values.{int_from_bytes, adjust_id-Adjusted, adjust_array-same}
use zowpy.Builders.Prekeys.{add_prekeys, flush_payload_of, Prekey}

abbrev pub Bytes : List ℕ → Type 0
Bytes = All (λ b. b < 2 ^ 8)

-- No two prekeys have the same id.
abbrev pub AreDistinct : List Prekey → Type 0
AreDistinct [] = Unit
AreDistinct (p ∷ ps) = All (λ q. p.id ≢ q.id) ps × AreDistinct ps

abbrev pub AreByteKeys : List Prekey → Type 0
AreByteKeys = All (λ p. Bytes p.public_key)

-- No entry of the dict stands under the id.
abbrev IsFresh : List (List ℕ × List ℕ) → ℕ → Type 0
IsFresh d id = All (λ e. int_from_bytes e.0 ≢ id) d

-- An entry with the id's number, and the prekey's number and trimmed key.
abbrev pub numbered : List ℕ × List ℕ → ℕ × List ℕ
numbered (id, key) = (int_from_bytes id, key)

abbrev pub trimmed : Prekey → ℕ × List ℕ
trimmed p = (p.id, drop 1 p.public_key)

-- Ids of three bytes, and keys that are short enough for a node.
abbrev pub AreSmall : List Prekey → Type 0
AreSmall = All (λ p. (p.id < 256 ^ 3) × (length p.public_key < 2 ^ 20))

-- An entry that a node can hold.
abbrev pub IsSmall : List ℕ × List ℕ → Type 0
IsSmall e = (length e.0 < 2 ^ 20) × (length e.1 < 2 ^ 20) × Bytes e.0 × Bytes e.1

-- The entries that the loop adds to the dict, in the order of the prekeys.
pub record Stored (prekeys : List Prekey) (d : List (List ℕ × List ℕ)) : Type 0 where
  pub entries : List (List ℕ × List ℕ)
  pub is_there : add_prekeys prekeys d ≡ some (d ++ entries)
  pub numbers : map numbered entries ≡ map trimmed prekeys
  pub sizes : AreSmall prekeys → All IsSmall entries

pub drop-Bytes : (n : ℕ) (bs : List ℕ) → Bytes bs → Bytes (drop n bs)
drop-Bytes zero bs h = h
drop-Bytes (suc n) [] h = tt
drop-Bytes (suc n) (b ∷ bs) h = drop-Bytes n bs h.1

store-fresh :
    (k v : List ℕ) (d : List (List ℕ × List ℕ))
    → IsFresh d (int_from_bytes k)
    → store k v d ≡ d ++ (k, v) ∷ []
unfolding store
store-fresh k v [] h = refl
store-fresh k v ((j, w) ∷ d) h =
    let other : text_eq k j ≡ false = text_eq_ne k j (λ e. h.0 (ap int_from_bytes (sym e))) in
    rw other (ap (λ r. (j, w) ∷ r) (store-fresh k v d h.1))

IsFresh-append :
    (ps : List Prekey) (id : ℕ) (k v : List ℕ) (d : List (List ℕ × List ℕ))
    → int_from_bytes k ≡ id
    → All (λ q. id ≢ q.id) ps
    → All (λ q. IsFresh d q.id) ps
    → All (λ q. IsFresh (d ++ (k, v) ∷ []) q.id) ps
IsFresh-append [] id k v d e h fresh = tt
IsFresh-append (q ∷ ps) id k v d e h fresh = (
  All-append (λ c. int_from_bytes c.0 ≢ q.id) d ((k, v) ∷ []) fresh.0
      (λ same. h.0 (sym e ∙ same), tt),
  IsFresh-append ps id k v d e h.1 fresh.1,
)

add_prekeys-step :
    (p : Prekey) (ps : List Prekey) (d : List (List ℕ × List ℕ)) (id : List ℕ)
    → adjust_id p.id 3 ≡ some id
    → Bytes p.public_key
    → add_prekeys (p ∷ ps) d ≡ add_prekeys ps (store id (drop 1 p.public_key) d)
unfolding add_prekeys
add_prekeys-step p ps d id h b =
    rw (add_prekeys, h, adjust_array-same (drop 1 p.public_key) (drop-Bytes 1 p.public_key b)) refl

pub add_prekeys-Stored :
    (ps : List Prekey) (d : List (List ℕ × List ℕ))
    → AreDistinct ps
    → All (λ p. IsFresh d p.id) ps
    → AreByteKeys ps
    → Stored ps d
add_prekeys-Stored [] d distinct fresh are = record {
  entries = [];
  is_there = unfold add_prekeys in rw append-nil refl;
  numbers = refl;
  sizes = λ small. tt;
}
add_prekeys-Stored (p ∷ ps) d distinct fresh are =
    let a = adjust_id-Adjusted p.id 3 in
    let key = drop 1 p.public_key in
    let e : store a.bs key d ≡ d ++ (a.bs, key) ∷ [] =
      store-fresh a.bs key d (rw a.value (fresh.0)) in
    let r =
      add_prekeys-Stored ps (d ++ (a.bs, key) ∷ []) (distinct.1)
        (IsFresh-append ps p.id a.bs key d a.value (distinct.0) (fresh.1)) (are.1) in
    record {
      entries = (a.bs, key) ∷ r.entries;
      is_there =
          add_prekeys-step p ps d a.bs a.is_there (are.0)
          ∙ ap (add_prekeys ps) e
          ∙ r.is_there
          ∙ ap some (append_assoc d ((a.bs, key) ∷ []) r.entries);
      numbers = rw (a.value, r.numbers) refl;
      sizes = λ small. (
        (
          rw (a.exact (omega arith) (small.0.0)) (omega arith),
          omega (arith, small.0.1, length-drop-le 1 p.public_key),
          a.are_bytes,
          drop-Bytes 1 p.public_key (are.0),
        ),
        r.sizes (small.1),
      );
    }

pub flush_payload_of-some :
    {prekeys : Option (List (List ℕ × List ℕ))}
    {id key signature identity registration : Option (List ℕ)} {ps : List (List ℕ × List ℕ)}
    {i k s n r : List ℕ}
    → prekeys ≡ some ps
    → id ≡ some i
    → key ≡ some k
    → signature ≡ some s
    → identity ≡ some n
    → registration ≡ some r
    → flush_payload_of prekeys id key signature identity registration
      ≡ some (record {
        identity_key = n;
        signed_prekey = (i, k, s);
        prekeys = ps;
        registration_id = r;
      })
unfolding flush_payload_of
flush_payload_of-some a b c d e f = rw (a, b, c, d, e, f) refl
