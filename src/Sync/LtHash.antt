-- ===== src/Sync/LtHash.antt =====
-- `LTHash` of zowpy/protocol/historysync/lthash.py, `HashState` of hash_state.py, and the key
-- expansion of zowpy/utils/tools.py. HMAC and base64 of the standard library are parameters.
use zowpy.Prelude.{
  ◌==◌, if◌then◌else◌, length, take, replicate, Text, codes, text_eq, ℕ, zero, suc, ◌+◌, ◌-◌, ◌/◌,
  min, Bool, true, false, Option, none, some, List, [], ◌∷◌, ◌++◌,
}
use zowpy.Sync.Words.{unpack_words, pack_words, mix_words}

-- The collection's state. `indexValueMap` is an association list in insertion order.
pub record HashState : Type 0 where
  pub collection : Text
  pub version : ℕ
  pub hash : List ℕ
  pub index_value_map : List (Text × List ℕ)

-- A generator: the state, and the values to add and to take away.
pub record Generator : Type 0 where
  pub state : HashState
  pub add : List (List ℕ)
  pub subtract : List (List ℕ)

-- `LTHash(hash_state)`
abbrev pub generator : HashState → Generator
generator s = record { state = s; add = []; subtract = [] }

-- `dict.get`, `dict.pop(key, None)` and assignment.
unfoldable pub get : Text → List (Text × List ℕ) → Option (List ℕ)
get k [] = none
get k ((j, v) ∷ m) = if text_eq k j then some v else get k m

unfoldable pub pop : Text → List (Text × List ℕ) → List (Text × List ℕ)
pop k [] = []
pop k ((j, v) ∷ m) = if text_eq k j then m else (j, v) ∷ pop k m

unfoldable pub put : Text → List ℕ → List (Text × List ℕ) → List (Text × List ℕ)
put k v [] = (k, v) ∷ []
put k v ((j, w) ∷ m) = if text_eq k j then (j, v) ∷ m else (j, w) ∷ put k v m

-- `if prev_op: self.subtract.append(prev_op)`: an empty value is as none.
unfoldable pub subtract_previous : Option (List ℕ) → List (List ℕ) → List (List ℕ)
subtract_previous (some (b ∷ bs)) items = items ++ (b ∷ bs) ∷ []
subtract_previous _ items = items

-- The branch of `mix` at operation 1, REMOVE.
unfoldable pub remove : Generator → Text → Generator
unfolding get pop subtract_previous
remove g key =
    let map = g.state.index_value_map in
    elim (get key map) [
      | none ↦ g
      | some v ↦ record g {
        state = record (g.state) { index_value_map = pop key map };
        subtract = subtract_previous (some v) g.subtract;
      }
    ]

-- The other branch, SET.
unfoldable pub set : Generator → Text → List ℕ → Generator
unfolding get put subtract_previous
set g key value_mac =
    let map = g.state.index_value_map in
    record g {
      state = record (g.state) { index_value_map = put key value_mac map };
      add = g.add ++ value_mac ∷ [];
      subtract = subtract_previous (get key map) g.subtract;
    }

-- `mix`, over `b64encode(…).decode()`.
unfoldable pub mix : (List ℕ → Text) → Generator → List ℕ → List ℕ → ℕ → Generator
unfolding remove set
mix b64 g index_mac value_mac operation =
    if operation == 1 then remove g (b64 index_mac) else set g (b64 index_mac) value_mac

abbrev pub salt : Text
salt = codes "WhatsApp Patch Integrity"

-- `HMAC-SHA256(key, message)` is a parameter.
module _ (hmac : List ℕ → List ℕ → List ℕ) where
  -- The rounds of `expand` that are left, from round `index`, with the last block.
  unfoldable pub expand_from : List ℕ → List ℕ → ℕ → ℕ → ℕ → List ℕ → List ℕ
  expand_from prk info zero index output_size mixin = []
  expand_from prk info (suc rounds) index output_size mixin =
      let step = hmac prk (mixin ++ (info ++ index ∷ [])) in
      let step_size = min output_size (length step) in
      take step_size step ++ expand_from prk info rounds (index + 1) (output_size - step_size) step

  -- `expand`, with `ceil(output_size / 32)` rounds.
  unfoldable pub expand : List ℕ → List ℕ → ℕ → List ℕ
  unfolding expand_from
  expand prk info output_size = expand_from prk info ((output_size + 31) / 32) 1 output_size []

  unfoldable pub extract_and_expand : List ℕ → List ℕ → ℕ → List ℕ
  unfolding expand
  extract_and_expand key info output_size = expand (hmac (replicate 32 0) key) info output_size

  -- `none` is the `struct.error` of a state of odd length.
  unfoldable pub perform_single : List ℕ → List ℕ → Bool → Option (List ℕ)
  unfolding extract_and_expand unpack_words mix_words pack_words
  perform_single input_data buffer sum_op = elim (unpack_words input_data) [
    | none ↦ none
    | some input_values ↦ elim (unpack_words (extract_and_expand buffer salt 128)) [
      | none ↦ none
      | some expanded_values ↦ some (pack_words (mix_words sum_op input_values expanded_values))
    ]
  ]

  -- The loop of `_perform`.
  unfoldable pub perform : List (List ℕ) → List ℕ → Bool → Option (List ℕ)
  unfolding perform_single
  perform [] input_data sum_op = some input_data
  perform (item ∷ items) input_data sum_op = elim (perform_single input_data item sum_op) [
    | none ↦ none
    | some out ↦ perform items out sum_op
  ]

  unfoldable pub finish : Generator → Option HashState
  unfolding perform
  finish g = elim (perform g.subtract g.state.hash false) [
    | none ↦ none
    | some subtracted ↦ elim (perform g.add subtracted true) [
      | none ↦ none
      | some hash ↦ some (record (g.state) { version = g.state.version + 1; hash = hash })
    ]
  ]
