-- ===== src/Coder/Write.antt =====
-- `WriteEncoder` of zowpy/utils/coder.py.

pub mod Total
use zowpy.Prelude.{
  ltb, leb, if◌then◌else◌, length, take, drop, Text, codes, text_eq, ℕ, zero, suc, ◌+◌, ◌*◌, ◌/◌,
  ◌%◌, Bool, true, false, ◌&&◌, Option, none, some, List, [], ◌∷◌, ◌++◌,
}
use zowpy.Result.{Error, index_error, value_error, attribute_error, out_of_fuel, Result, ok, err}
use zowpy.Python.{index_of, before, second_part, contains}
use zowpy.Python.Decimal.{int_of, pos, negsuc}
use zowpy.Coder.Node.{
  Attributes, count_nodes, has_children, is_absent, Payload, absent, bytes, text, char_codes, Node,
  node, Nodes, no_nodes, child, missing,
}
use zowpy.Coder.Dictionary.{get_index, TokenDictionary}
use zowpy.Coder.Ints.{write_int8, write_int20, write_int31, write_list_start}
use zowpy.Coder.Packing.{try_pack}

-- What a method of the encoder appends to `data`, and the exception that it ends with, if any. What
-- was appended before an exception stays there.
abbrev pub Out : Type 0
Out = List ℕ × Option Error

abbrev pub put : List ℕ → Out
put bs = (bs, none)

abbrev pub throw : Error → Out
throw e = ([], some e)

infixr 66 ◌▹◌
unfoldable pub ◌▹◌ : Out → Out → Out
(bs, none) ▹ (cs, e) = (bs ++ cs, e)
(bs, some e) ▹ _ = (bs, some e)

-- `try … except ValueError`
unfoldable pub except_value_error : Out → Out → Out
unfolding ◌▹◌
except_value_error (bs, some value_error) handler = (bs, none) ▹ handler
except_value_error out handler = out

unfoldable pub write_token : ℕ → Out
write_token token = if leb token 255 then put (token ∷ []) else throw value_error

-- The header and the body of a text below 256 characters: packed if that is asked for and works.
unfoldable pub write_short : List ℕ → Bool → List ℕ
write_short bs packed =
    let plain = 252 ∷ write_int8 (length bs) ++ bs in
    if packed && ltb (length bs) 128
    then elim (try_pack 255 bs) [
      | some (header, arr) ↦ header ++ arr
      | none ↦ elim (try_pack 251 bs) [ some (header, arr) ↦ header ++ arr | none ↦ plain ]
    ]
    else plain

-- `writeBytes`, after the characters of a `str` are turned into their codes. A code above 255 is
-- appended as it is; the list is refused where it becomes `bytes` or a `bytearray`.
unfoldable pub write_bytes : List ℕ → Bool → List ℕ
unfolding write_short
write_bytes bs packed =
    let size = length bs in
    if leb 0x100000 size
    then 254 ∷ write_int31 size ++ bs
    else if leb 0x100 size
    then 253 ∷ write_int20 size ++ bs
    else write_short bs packed

-- The code of a word of the secondary list: a page marker, and the place in the page.
unfoldable pub write_double : ℕ → Out
unfolding write_token ◌▹◌
write_double index =
    if ltb (index / 256) 4
    then write_token (236 + index / 256) ▹ write_token (index % 256)
    else throw value_error

-- `data.append(int(device_no))`, which takes any number. A list with a number that is no byte is
-- refused later, where it becomes `bytes` or a `bytearray`: a negative number stands here as 256,
-- which is refused at the same places.
unfoldable pub append_int : Option Text → Out
append_int none = throw index_error
append_int (some s) = elim (int_of s) [
  | none ↦ throw value_error
  | some (pos n) ↦ put (n ∷ [])
  | some (negsuc n) ↦ put (256 ∷ [])
]

abbrev pub lid : Text
lid = codes "lid"

-- `writeJid`, over the `writeString` that it calls back. `user` has no "@", since the caller cut the
-- text at the first one, so `user.split("@")[0]` is `user`.
unfoldable pub write_jid : (Text → Bool → Out) → Text → Text → Out
unfolding ◌▹◌ append_int
write_jid write_string user server =
    if contains b':' user
    then if text_eq server lid
      then put (247 ∷ 1 ∷ [])
        ▹ append_int (second_part b':' user)
        ▹ write_string (before b':' user) true
      else put (247 ∷ 0 ∷ [])
        ▹ append_int (second_part b':' user)
        ▹ write_string (before b'.' user) true
    else if text_eq server lid
    then put (247 ∷ 1 ∷ 0 ∷ []) ▹ write_string user true
    else put (250 ∷ []) ▹ write_string user true ▹ write_string server false

-- `writeString`. A jid costs a unit of fuel: its parts are shorter texts.
unfoldable pub write_string_fuel : TokenDictionary → ℕ → Text → Bool → Out
unfolding write_double write_jid except_value_error
write_string_fuel d zero tag packed = throw out_of_fuel
write_string_fuel d (suc f) tag packed =
    let jid = λ (i : ℕ). write_jid (write_string_fuel d f) (take i tag) (drop (i + 1) tag) in
    elim (get_index d tag) [
      | some (index, secondary) ↦ if secondary then write_double index else write_token index
      | none ↦
          except_value_error
            (elim (index_of b'@' tag) [
              | none ↦ throw value_error
              | some i ↦ if ltb i 1 then throw value_error else jid i
            ])
            (put (write_bytes tag packed))
    ]

unfoldable pub write_string : TokenDictionary → Text → Bool → Out
write_string d tag packed = write_string_fuel d (suc (length tag)) tag packed

-- `getIndex(None)` is None, and None has no `index`.
unfoldable pub write_value : TokenDictionary → Option Text → Bool → Out
write_value d none packed = throw attribute_error
write_value d (some s) packed = write_string d s packed

unfoldable pub write_attributes : TokenDictionary → Attributes → Out
unfolding ◌▹◌ write_value
write_attributes d [] = put []
write_attributes d ((key, value) ∷ rest) =
    write_value d key false ▹ write_value d value true ▹ write_attributes d rest

unfoldable pub write_payload : Payload → Out
write_payload absent = put []
write_payload (bytes bs) = put (write_bytes bs false)
write_payload (text s) = put (write_bytes s false)
write_payload (char_codes cs) = put (write_bytes cs false)

-- `x` of `writeInternal`
abbrev pub node_size : Attributes → Nodes → Payload → ℕ
node_size attributes children payload =
    1
    + length attributes * 2
    + (if has_children children then 1 else 0)
    + (if is_absent payload then 0 else 1)

abbrev pub write_children_start : Nodes → List ℕ
write_children_start children =
    if has_children children then write_list_start (count_nodes children) else []

unfoldable mutual
  unfolding ◌▹◌ write_attributes write_payload

  pub write_internal : TokenDictionary → Node → Out
  write_internal d (node tag attributes children payload) =
      put (write_list_start (node_size attributes children payload))
      ▹ write_string d tag false
      ▹ write_attributes d attributes
      ▹ write_payload payload
      ▹ put (write_children_start children)
      ▹ write_nodes d children

  pub write_nodes : TokenDictionary → Nodes → Out
  write_nodes d no_nodes = put []
  write_nodes d (child n ns) = write_internal d n ▹ write_nodes d ns
  write_nodes d (missing ns) = throw attribute_error

-- An exception leaves no result.
unfoldable pub finish : Out → Result (List ℕ)
finish (bs, none) = ok bs
finish (bs, some e) = err e

-- `protocolNodeToBytes`: the flags, and the node.
unfoldable pub protocol_node_to_bytes : TokenDictionary → Node → Result (List ℕ)
unfolding ◌▹◌ finish
protocol_node_to_bytes d n = finish (put (0 ∷ []) ▹ write_internal d n)
