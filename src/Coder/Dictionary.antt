-- ===== src/Coder/Dictionary.antt =====
-- `TokenDictionary` of zowpy/utils/token_dict.py, over any two word lists.
use zowpy.Prelude.{
  ltb, if◌then◌else◌, length, get_elem?, Text, text_eq, text_eq→eq, ℕ, zero, suc, ◌+◌, ◌-◌, ◌≤◌,
  ◌<◌, ◌≡◌, Bool, true, false, ◌&&◌, Option, none, some, List, [], ◌∷◌, arith,
}

pub record TokenDictionary : Type 0 where
  pub dictionary : List Text
  pub secondary_dictionary : List Text

-- `targetDict.index(token)`; `none` says that the token is not in the list.
unfoldable pub position : Text → List Text → Option ℕ
position t [] = none
position t (w ∷ ws) =
    if text_eq t w then some 0 else elim (position t ws) [ none ↦ none | some i ↦ some (suc i) ]

-- `getToken(index)` and `getToken(index, True)`.
unfoldable pub get_token : TokenDictionary → ℕ → Bool → Option Text
get_token d index true = get_elem? d.secondary_dictionary index
get_token d index false =
    if ltb 236 index && ltb index (236 + length d.secondary_dictionary)
    then get_elem? d.secondary_dictionary (index - 237)
    else get_elem? d.dictionary index

-- `getIndex`: the index, and whether it is one of the secondary list.
unfoldable pub get_index : TokenDictionary → Text → Option (ℕ × Bool)
unfolding position
get_index d token = elim (position token d.dictionary) [
  | some i ↦ some (i, false)
  | none ↦ elim (position token d.secondary_dictionary) [ none ↦ none | some i ↦ some (i, true) ]
]

-- The sizes that the one-byte and two-byte codes leave room for.
pub record IsBounded (d : TokenDictionary) : Type 0 where
  pub primary : length d.dictionary ≤ 236
  pub secondary : length d.secondary_dictionary ≤ 1024

position-lt : (t : Text) (ws : List Text) (i : ℕ) → position t ws ≡ some i → i < length ws
unfolding position
position-lt t [] i h = cc
position-lt t (w ∷ ws) zero h = omega arith
position-lt t (w ∷ ws) (suc i) h = ground (arith, position-lt t ws i)

get_elem?-position :
    (t : Text) (ws : List Text) (i : ℕ) → position t ws ≡ some i → get_elem? ws i ≡ some t
unfolding position
get_elem?-position t [] i h = cc
get_elem?-position t (w ∷ ws) zero h = ground (arith, text_eq→eq t w)
get_elem?-position t (w ∷ ws) (suc i) h = ground (arith, get_elem?-position t ws i)

-- An index that `getIndex` hands out is in range, and `getToken` takes it back to the word.
pub get_token-get_index :
    (d : TokenDictionary) (t : Text) (i : ℕ) (secondary : Bool)
    → IsBounded d
    → get_index d t ≡ some (i, secondary)
    → (get_token d i secondary ≡ some t) × (i < (if secondary then 1024 else 236))
unfolding get_index get_token
get_token-get_index d t i true b h = ground (
  arith,
  position-lt t d.secondary_dictionary i,
  get_elem?-position t d.secondary_dictionary i,
  b.secondary,
)
get_token-get_index d t i false b h =
    ground (arith, position-lt t d.dictionary i, get_elem?-position t d.dictionary i, b.primary)
