-- ===== src/Coder/Read.antt =====
-- `ReadDecoder` of zowpy/utils/coder.py. `zlib.decompress` is a parameter of `get_protocol_node`.
pub mod Total
pub mod Shape
use zowpy.Prelude.{
  ltb, leb, ◌==◌, if◌then◌else◌, length, Text, codes, text_eq, ℕ, zero, suc, ◌+◌, ◌-◌, ◌*◌, ◌/◌,
  ◌%◌, Bool, true, false, ◌&&◌, ◌||◌, Option, none, some, List, [], ◌∷◌, ◌++◌,
}
use zowpy.Result.{
  bind, index_error, value_error, exception, zlib_error, not_a_byte, out_of_fuel, Result, ok, err,
}
use zowpy.Python.Decimal.{decimal}
use zowpy.Coder.Node.{
  Attributes, Payload, absent, bytes, text, char_codes, Node, node, Nodes, no_nodes, child, missing,
}
use zowpy.Coder.Dictionary.{get_token, TokenDictionary}
use zowpy.Coder.Ints.{
  Reader, pure, raise, ◌>>=◌, read_int8, read_int20, read_int31, read_list_size, read_array,
}
use zowpy.Coder.Packing.{read_packed8}

-- An empty word counts as no word.
abbrev truthy : Option Text → Option Text
truthy (some (c ∷ s)) = some (c ∷ s)
truthy _ = none

-- A dictionary word, or the exception of its absence.
abbrev required : Option Text → Reader (Option Text)
required none = raise value_error
required (some t) = pure (some t)

unfoldable pub get_token_double : TokenDictionary → ℕ → ℕ → Reader (Option Text)
get_token_double d n n2 = required (truthy (get_token d (n2 + n * 256) true))

-- Where the first list has no word, the next byte is an index into the second one.
read_second : TokenDictionary → Option Text → Reader (Option Text)
read_second d (some t) = pure (some t)
read_second d none = read_int8 >>= λ index. required (truthy (get_token d index true))

unfoldable pub read_token : TokenDictionary → ℕ → Reader (Option Text)
unfolding read_second read_int8
read_token d index = read_second d (truthy (get_token d index false))

-- `"{}".format(user)`
abbrev pub show : Option Text → Text
show none = codes "None"
show (some t) = t

-- A jid with a device: kind 1 is a lid, all else is printed as an agent of a phone number.
unfoldable pub device_jid : ℕ → ℕ → Option Text → Text
device_jid xx device_no user =
    if xx == 1
    then show user ++ b':' ∷ (decimal device_no ++ codes "@lid")
    else show user ++ b'.' ∷ (decimal xx ++ b':' ∷ (decimal device_no ++ codes "@s.whatsapp.net"))

unfoldable pub join_jid : Option Text → Option Text → Reader (Option Text)
join_jid _ none = raise exception
join_jid none (some server) = pure (some server)
join_jid (some user) (some server) = pure (some (user ++ b'@' ∷ server))

abbrev pub some_text : List ℕ → Reader (Option Text)
some_text s = pure (some s)

-- A length, and as many bytes.
abbrev pub read_sized : Reader ℕ → Reader (List ℕ)
read_sized size = size >>= read_array

-- The branches of `readString` that read no string in turn.
unfoldable pub read_simple : TokenDictionary → ℕ → Reader (Option Text)
unfolding read_token get_token_double read_int8 read_array read_int20 read_int31 read_packed8
read_simple d token =
    if ltb 2 token && ltb token 236
    then read_token d token
    else if token == 0
    then pure none
    else if leb 236 token && leb token 239
    then read_int8 >>= get_token_double d (token - 236)
    else if token == 251 || token == 255
    then read_packed8 token >>= some_text
    else if token == 252
    then read_sized read_int8 >>= some_text
    else if token == 253
    then read_sized read_int20 >>= some_text
    else if token == 254
    then read_sized read_int31 >>= some_text
    else raise exception

-- `readString`. Each string inside a jid takes bytes of its own, so the length of the data bounds
-- the fuel.
unfoldable pub read_string : TokenDictionary → ℕ → ℕ → Reader (Option Text)
unfolding read_simple read_int8 device_jid join_jid
read_string d zero token = raise out_of_fuel
read_string d (suc f) token =
    let inner = read_int8 >>= λ t. read_string d f t in
    if token == 247
    then (do
      xx ← read_int8
      device_no ← read_int8
      user ← inner
      pure (some (device_jid xx device_no user)))
    else if token == 250
    then (do user ← inner; server ← inner; join_jid user server)
    else read_simple d token

abbrev pub key_eq : Option Text → Option Text → Bool
key_eq none none = true
key_eq (some s) (some t) = text_eq s t
key_eq _ _ = false

-- `attribs[key] = value`: a key that is there keeps its place.
unfoldable pub set_attribute : Option Text → Option Text → Attributes → Attributes
set_attribute k v [] = (k, v) ∷ []
set_attribute k v ((j, w) ∷ rest) =
    if key_eq k j then (j, v) ∷ rest else (j, w) ∷ set_attribute k v rest

-- `readAttributes`, over `readString`: the loop, with the dict filled so far.
unfoldable pub read_attributes : Reader (Option Text) → ℕ → Attributes → Reader Attributes
unfolding set_attribute
read_attributes string zero attribs = pure attribs
read_attributes string (suc n) attribs =
    string >>= λ key. string >>= λ value. read_attributes string n (set_attribute key value attribs)

abbrev pub is_list_tag : ℕ → Bool
is_list_tag b = b == 248 || b == 0 || b == 249

abbrev some_bytes : List ℕ → Reader Payload
some_bytes bs = pure (bytes bs)

abbrev some_codes : List ℕ → Reader Payload
some_codes cs = pure (char_codes cs)

abbrev payload_of : Option Text → Payload
payload_of none = absent
payload_of (some s) = text s

abbrev some_payload : Option Text → Reader Payload
some_payload s = pure (payload_of s)

-- The content of a node that is no list of children.
unfoldable pub read_content : TokenDictionary → ℕ → ℕ → Reader Payload
unfolding read_string read_array read_int8 read_int20 read_int31 read_packed8
read_content d f read2 =
    if read2 == 252
    then read_sized read_int8 >>= some_bytes
    else if read2 == 253
    then read_sized read_int20 >>= some_bytes
    else if read2 == 254
    then read_sized read_int31 >>= some_bytes
    else if read2 == 255 || read2 == 251
    then read_packed8 read2 >>= some_codes
    else read_string d f read2 >>= some_payload

abbrev option_child : Option Node → Nodes → Nodes
option_child none ns = missing ns
option_child (some n) ns = child n ns

-- The loop of `readList`, over `nextTreeInternal`.
unfoldable pub read_children : Reader (Option Node) → ℕ → Reader Nodes
read_children tree zero = pure no_nodes
read_children tree (suc n) = do
  first ← tree
  rest ← read_children tree n
  pure (option_child first rest)

-- `(size - 2 + size % 2) / 2`, at a size that is not 0.
abbrev pub attrib_count : ℕ → ℕ
attrib_count size = (size + size % 2 - 2) / 2

-- The end of `nextTreeInternal`: what stands behind the attributes, if the size announces it.
unfoldable pub read_rest :
    TokenDictionary → ℕ → Reader (Option Node) → ℕ → Text → Attributes → Reader (Option Node)
unfolding read_int8 read_list_size read_content read_children
read_rest d f tree size tag attribs =
    if size % 2 == 1 then pure (some (node tag attribs no_nodes absent)) else do
      read2 ← read_int8
      if is_list_tag read2
          then (do
            count ← read_list_size read2
            children ← read_children tree count
            pure (some (node tag attribs children absent)))
          else (do
            payload ← read_content d f read2
            pure (some (node tag attribs no_nodes payload)))

-- `nextTreeInternal`. A tag that is None, or an empty list, is a ValueError.
unfoldable pub read_named :
    TokenDictionary → ℕ → Reader (Option Node) → ℕ → Option Text → Reader (Option Node)
unfolding read_rest read_attributes read_string
read_named d f tree size none = raise value_error
read_named d f tree size (some tag) = if size == 0 then raise value_error else do
  attribs ← read_attributes (read_int8 >>= read_string d f) (attrib_count size) []
  read_rest d f tree size tag attribs

-- The token behind a stream start, if there is one.
abbrev after_start : ℕ → Reader ℕ
after_start start = if start == 1 then read_int8 else pure start

-- A stream start may stand before the tag; a stream end is no node.
unfoldable pub next_tree : TokenDictionary → ℕ → Reader (Option Node)
unfolding read_named read_string read_list_size read_int8
next_tree d zero = raise out_of_fuel
next_tree d (suc f) =
    let tree = next_tree d f in
    do
      first ← read_int8
      size ← read_list_size first
      start ← read_int8
      token ← after_start start
      if token == 2 then pure none else read_string d f token >>= read_named d f tree size

unfoldable pub decode : TokenDictionary → List ℕ → Result (Option Node)
unfolding next_tree
decode d bs = bind (next_tree d (suc (length bs)) bs) λ (n, rest). ok n

-- `bytearray(data)` takes numbers below 256 only.
unfoldable pub fit_bytes : List ℕ → Bool
fit_bytes [] = true
fit_bytes (b ∷ bs) = ltb b 256 && fit_bytes bs

-- `getProtocolNode`, behind the conversion of the data. What is left of the data behind the node is
-- not looked at.
unfoldable pub read_flags :
    (List ℕ → Option (List ℕ)) → TokenDictionary → List ℕ → Result (Option Node)
unfolding decode
read_flags decompress d [] = err index_error
read_flags decompress d (flags ∷ body) =
    if flags / 2 % 2 == 1
    then elim (decompress body) [ none ↦ err zlib_error | some plain ↦ decode d plain ]
    else if flags % 2 == 1
    then err value_error
    else decode d body

-- `getProtocolNode`: a list with a number that is no byte is a ValueError. Data that is `bytes` holds
-- none.
unfoldable pub get_protocol_node :
    (List ℕ → Option (List ℕ)) → TokenDictionary → List ℕ → Result (Option Node)
unfolding fit_bytes read_flags
get_protocol_node decompress d data_ =
    if fit_bytes data_ then read_flags decompress d data_ else err not_a_byte
