-- ===== src/Sync/Laws.antt =====
-- The hash does not depend on the order of the values, and removing a key undoes setting it.
use zowpy.Prelude.{
  length, Text, text_eq_refl, ℕ, ◌+◌, ◌≡◌, refl, sym, ap, ◌∙◌, Bool, true, false, not, none, some,
  List, [], ◌∷◌, ◌++◌, arith,
}
use zowpy.Sync.Words.{
  pack_words, mix_words, AreWords, mix_words-AreWords, mix_words_comm, mix_words-cancel,
}
use zowpy.Sync.LtHash.{
  generator, get, pop, put, remove, set, mix, perform, finish, HashState, Generator,
}
use zowpy.Sync.Expansion.{extract_and_expand-words, perform_single-words, IsSha256}

get-put_self : (k : Text) (v : List ℕ) (m : List (Text × List ℕ)) → get k (put k v m) ≡ some v
unfolding get put
get-put_self k v [] = ground (arith, text_eq_refl k)
get-put_self k v ((j, w) ∷ m) = ground (arith, get-put_self k v m)

pop-put_new :
    (k : Text) (v : List ℕ) (m : List (Text × List ℕ)) → get k m ≡ none → pop k (put k v m) ≡ m
unfolding get put pop
pop-put_new k v [] h = ground (arith, text_eq_refl k)
pop-put_new k v ((j, w) ∷ m) h = ground (arith, pop-put_new k v m)

-- A hash of the program's length, as words.
pub record IsHash (hash : List ℕ) : Type 0 where
  pub words : List ℕ
  pub packed : pack_words words ≡ hash
  pub count : length words ≡ 64
  pub small : AreWords words

remove-found :
    (g : Generator) (key value : List ℕ) (byte : ℕ)
    → get key g.state.index_value_map ≡ some (byte ∷ value)
    → remove g key ≡ record g {
      state = record (g.state) { index_value_map = pop key g.state.index_value_map };
      subtract = g.subtract ++ (byte ∷ value) ∷ [];
    }
unfolding remove
remove-found g key value byte h = rw (h, remove)

module _ (hmac : List ℕ → List ℕ → List ℕ) (sha : IsSha256 hmac) where
  values : List ℕ → List ℕ
  values buffer = (extract_and_expand-words hmac sha buffer).0

  values-AreWords : (buffer : List ℕ) → AreWords (values buffer)
  unfolding values
  values-AreWords buffer = (extract_and_expand-words hmac sha buffer).3

  -- The sums of all values, word by word.
  sums : List ℕ → List (List ℕ) → Bool → List ℕ
  sums us [] sum_op = us
  sums us (item ∷ items) sum_op = sums (mix_words sum_op us (values item)) items sum_op

  perform-sums :
      (us : List ℕ) (items : List (List ℕ)) (sum_op : Bool)
      → AreWords us
      → perform hmac items (pack_words us) sum_op ≡ some (pack_words (sums us items sum_op))
  unfolding perform sums values
  perform-sums us [] sum_op h = refl
  perform-sums us (item ∷ items) sum_op h =
      rw (perform_single-words hmac sha us item sum_op h, perform)
        (perform-sums (mix_words sum_op us (values item)) items sum_op
          (mix_words-AreWords sum_op us (values item)))

  sums-swap :
      (us : List ℕ) (xs ys : List (List ℕ)) (a b : List ℕ) (sum_op : Bool)
      → sums us (xs ++ a ∷ b ∷ ys) sum_op ≡ sums us (xs ++ b ∷ a ∷ ys) sum_op
  unfolding sums
  sums-swap us [] ys a b sum_op =
      ap (λ ws. sums ws ys sum_op)
        (mix_words_comm sum_op us (values a) (values b) (values-AreWords a) (values-AreWords b))
  sums-swap us (x ∷ xs) ys a b sum_op = sums-swap (mix_words sum_op us (values x)) xs ys a b sum_op

  -- Two neighbours in the list of values may change places: the order of the values does not
  -- matter, when they are added and when they are taken away.
  pub perform-swap :
      (hash : List ℕ) (xs ys : List (List ℕ)) (a b : List ℕ) (sum_op : Bool)
      → IsHash hash
      → perform hmac (xs ++ a ∷ b ∷ ys) hash sum_op ≡ perform hmac (xs ++ b ∷ a ∷ ys) hash sum_op
  perform-swap hash xs ys a b sum_op h = rw (← h.packed) (
      perform-sums h.words (xs ++ a ∷ b ∷ ys) sum_op h.small
      ∙ ap (λ ws. some (pack_words ws)) (sums-swap h.words xs ys a b sum_op)
      ∙ sym (perform-sums h.words (xs ++ b ∷ a ∷ ys) sum_op h.small))

  -- Adding a value and taking it away gives the hash back.
  perform-cancel :
      (hash v : List ℕ) (p : Bool)
      → IsHash hash
      → (out : List ℕ) × (perform hmac (v ∷ []) hash p ≡ some out)
        × (perform hmac (v ∷ []) out (not p) ≡ some hash)
  unfolding values
  perform-cancel hash v p h =
      let ws = mix_words p h.words (values v) in
      (
        pack_words ws,
        rw (← h.packed) (perform-sums h.words (v ∷ []) p h.small ∙ (unfold sums in refl)),
        perform-sums ws (v ∷ []) (not p) (mix_words-AreWords p h.words (values v))
            ∙ (unfold sums in
                rw (
                  mix_words-cancel p h.words (values v) h.small (values-AreWords v)
                      (h.count ∙ sym (extract_and_expand-words hmac sha v).2),
                  h.packed,
                )),
      )

  finish-set :
      (s : HashState) (key value : List ℕ) (byte : ℕ) (out : List ℕ)
      → get key s.index_value_map ≡ none
      → perform hmac ((byte ∷ value) ∷ []) s.hash true ≡ some out
      → finish hmac (set (generator s) key (byte ∷ value))
        ≡ some (record s {
          version = s.version + 1;
          hash = out;
          index_value_map = put key (byte ∷ value) s.index_value_map;
        })
  unfolding finish set
  finish-set s key value byte out new added = rw (new, added)

  finish-remove :
      (s : HashState) (key value : List ℕ) (byte : ℕ) (out : List ℕ)
      → get key s.index_value_map ≡ some (byte ∷ value)
      → perform hmac ((byte ∷ value) ∷ []) s.hash false ≡ some out
      → finish hmac (remove (generator s) key)
        ≡ some (record s {
          version = s.version + 1;
          hash = out;
          index_value_map = pop key s.index_value_map;
        })
  unfolding finish
  finish-remove s key value byte out there taken =
      rw (remove-found (generator s) key value byte there, taken)

  -- A key that is set in one patch and removed in the next leaves the hash and the map as they were
  -- before both; only the version has gone up, by two.
  pub remove-set :
      (b64 : List ℕ → Text) (s : HashState) (index value : List ℕ) (byte : ℕ) (ignored : List ℕ)
      → IsHash s.hash
      → get (b64 index) s.index_value_map ≡ none
      → (t : HashState) × (finish hmac (mix b64 (generator s) index (byte ∷ value) 0) ≡ some t)
        × (finish hmac (mix b64 (generator t) index ignored 1)
            ≡ some (record s { version = s.version + 2 }))
  unfolding mix
  remove-set b64 s index value byte ignored h new =
      let k = b64 index in
      let (out, added, taken) = perform-cancel s.hash (byte ∷ value) true h in
      let t : HashState = record s {
        version = s.version + 1;
        hash = out;
        index_value_map = put k (byte ∷ value) s.index_value_map;
      } in
      (
        t,
        finish-set s k value byte out new added,
        finish-remove t k value byte s.hash (get-put_self k (byte ∷ value) s.index_value_map) taken
            ∙ (let version : s.version + 1 + 1 ≡ s.version + 2 = omega arith in
                rw (pop-put_new k (byte ∷ value) s.index_value_map new, version)),
      )
