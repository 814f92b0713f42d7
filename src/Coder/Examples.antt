-- ===== src/Coder/Examples.antt =====
-- Runs of the encoder and the decoder, and the theorems at concrete inputs.
use zowpy.Prelude.{
  Text, codes, ℕ, ◌/◌, ◌%◌, ◌^◌, ◌≤◌, ◌<◌, ◌≡◌, refl, ◌≢◌, ◌↔◌, inl, true, false, Option, none,
  some, List, [], ◌∷◌, ◌++◌, arith,
}
use zowpy.Result.{bind, not_a_byte, out_of_fuel, ok, err}
use zowpy.Python.{index_of, before, contains}
use zowpy.Coder.Node.{absent, bytes, Node, node, no_nodes, child}
use zowpy.Coder.Dictionary.{get_index, TokenDictionary, IsBounded}
use zowpy.Coder.Ints.{read_int31, write_int31, write_list_start}
use zowpy.Coder.Write.{
  write_bytes, write_string_fuel, write_string, write_internal, protocol_node_to_bytes,
}
use zowpy.Coder.Read.{fit_bytes, get_protocol_node}
use zowpy.Coder.RoundTrip.Attributes.{Carried, has_key}
use zowpy.Coder.RoundTrip.Nodes.{Faithful, with_content, parent, none_left}
use zowpy.Coder.RoundTrip.Trees.{decode-encode}
use zowpy.Python.Decimal.{decimal, int_of, int_of-decimal, pos}
use zowpy.Coder.RoundTrip.Carry.{is_safe, is_safe→IsSafe, is_safe-Carried, is_safe-Carried_jid}
use zowpy.Coder.Packing.{try_pack}
use zowpy.Coder.Ints.RoundTrip.{read_int31-write_int31_iff}
use zowpy.Coder.Write.Total.{protocol_node_to_bytes-ne_out_of_fuel}
use zowpy.Coder.Read.Total.{get_protocol_node-ne_out_of_fuel}
use zowpy.Coder.Read.Shape.{decode-encode_both_ne}
use zowpy.Coder.RoundTrip.Plain.{Reads}
use zowpy.Coder.RoundTrip.Strings.{write_string_fuel-Reads, IsSafe}
use zowpy.Coder.RoundTrip.Jids.{jid-Reads}
use zowpy.Coder.RoundTrip.Devices.{with_device, as_agent_zero, device_jid-Reads}

-- The first words of the lists of zowpy/utils/token_dict.py.
abbrev words : TokenDictionary
words = record {
  dictionary =
      codes ""
      ∷ codes "xmlstreamstart"
      ∷ codes "xmlstreamend"
      ∷ codes "s.whatsapp.net"
      ∷ codes "type"
      ∷ codes "participant"
      ∷ codes "from"
      ∷ [];
  secondary_dictionary = codes "read-self" ∷ codes "active" ∷ codes "fbns" ∷ [];
}

words-IsBounded : IsBounded words
words-IsBounded = omega arith

abbrev to_jid : Text
to_jid = codes "5511988887777" ++ b'@' ∷ codes "s.whatsapp.net"

abbrev enc : Node
enc = node (codes "enc") [] no_nodes (bytes (1 ∷ 2 ∷ 255 ∷ []))

abbrev message : Node
message =
    node (codes "message")
      ((some (codes "from"), some to_jid) ∷ (some (codes "id"), some (codes "3EB0F")) ∷ [])
      (child enc no_nodes) absent

abbrev no_zlib : List ℕ → Option (List ℕ)
no_zlib bs = none

plain_word : (s : Text) → is_safe words s ≡ true → contains b'@' s ≡ false → Carried words s
plain_word s = is_safe-Carried words s words-IsBounded

message-Faithful : Faithful words message
unfolding is_safe fit_bytes contains get_index has_key
message-Faithful =
    parent (codes "message") _ enc no_nodes (plain_word (codes "message") refl refl)
      (
        plain_word (codes "from") refl refl,
        is_safe-Carried_jid words (codes "5511988887777") (codes "s.whatsapp.net") words-IsBounded
            refl refl refl,
        refl,
        (plain_word (codes "id") refl refl, plain_word (codes "3EB0F") refl refl, refl, tt),
      )
      (omega arith) (omega arith)
      (with_content (codes "enc") [] (1 ∷ 2 ∷ 255 ∷ []) (plain_word (codes "enc") refl refl) tt
        (omega arith) (omega arith) (omega arith, (omega arith, (omega arith, tt))))
      none_left

decode-encode_example :
    bind (protocol_node_to_bytes words message) (get_protocol_node no_zlib words)
    ≡ ok (some message)
decode-encode_example = decode-encode no_zlib words message message-Faithful

get_protocol_node-ne_out_of_fuel_example :
    get_protocol_node no_zlib words (0 ∷ 248 ∷ 250 ∷ 250 ∷ []) ≢ err out_of_fuel
get_protocol_node-ne_out_of_fuel_example =
    get_protocol_node-ne_out_of_fuel no_zlib words (0 ∷ 248 ∷ 250 ∷ 250 ∷ [])

protocol_node_to_bytes-ne_out_of_fuel_example :
    protocol_node_to_bytes words message ≢ err out_of_fuel
protocol_node_to_bytes-ne_out_of_fuel_example = protocol_node_to_bytes-ne_out_of_fuel words message

IsSafe-word : (s : Text) → is_safe words s ≡ true → IsSafe words s
IsSafe-word s h = is_safe→IsSafe words s h

jid-Reads_example :
    Reads words (write_string words (codes "5511" ++ b'@' ∷ codes "lid") true) (codes "5511:0@lid")
unfolding is_safe fit_bytes contains get_index
jid-Reads_example =
    jid-Reads words (codes "5511") (codes "lid") true words-IsBounded
      (record { safe = IsSafe-word (codes "5511") refl; no_at = refl; no_colon = refl })
      (IsSafe-word (codes "lid") refl) refl refl

device_jid-Reads_example :
    Reads words
      (write_string words (with_device (codes "5511.1") 7 ++ b'@' ∷ codes "g.us") true)
      (as_agent_zero (codes "5511") 7)
unfolding is_safe fit_bytes contains get_index decimal before
device_jid-Reads_example =
    device_jid-Reads words (codes "5511.1") (codes "g.us") 7 true words-IsBounded (omega arith) (cc)
      refl refl (IsSafe-word (codes "5511") refl) refl

write_string_fuel-Reads_example :
    Reads words (write_string_fuel words 1 (codes "active") false) (codes "active")
unfolding is_safe fit_bytes contains get_index index_of
write_string_fuel-Reads_example =
    write_string_fuel-Reads words 0 (codes "active") false words-IsBounded
      (IsSafe-word (codes "active") refl) (inl refl)

read_int31-write_int31_iff_example :
    ((read_int31 (write_int31 0x100000 ++ []) ≡ ok (0x100000, []))
      ↔ (0x100000 / 2 ^ 24 ≡ 0x100000 / 2 ^ 16 % 2 ^ 8))
    × (2 ^ 20 ≤ 0x100000
        → 0x100000 < 2 ^ 24
        → read_int31 (write_int31 0x100000 ++ []) ≢ ok (0x100000, []))
read_int31-write_int31_iff_example = read_int31-write_int31_iff 0x100000 [] (omega arith)

decode-encode_both_ne_example :
    bind
      (protocol_node_to_bytes words (node (codes "enc") [] (child enc no_nodes) (bytes (1 ∷ []))))
      (get_protocol_node no_zlib words)
    ≢ ok (some (node (codes "enc") [] (child enc no_nodes) (bytes (1 ∷ []))))
decode-encode_both_ne_example =
    decode-encode_both_ne no_zlib words (codes "enc") [] enc no_nodes (bytes (1 ∷ [])) (cc)

int_of-decimal_example : int_of (decimal 4096) ≡ some (pos 4096)
int_of-decimal_example = int_of-decimal 4096

-- An attribute with characters above 255 is encoded, but what is encoded is no data.
unread_example :
    bind
      (protocol_node_to_bytes words
        (node (codes "enc") ((some (codes "id"), some (300 ∷ 322 ∷ [])) ∷ []) no_nodes absent))
      (get_protocol_node no_zlib words)
    ≡ err not_a_byte
unfolding protocol_node_to_bytes get_protocol_node fit_bytes write_internal write_string
    write_string_fuel get_index index_of write_list_start write_bytes try_pack
unread_example = refl
