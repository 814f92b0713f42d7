-- ===== src/Nodes/Dicts.antt =====
-- A node is rebuilt from its dict.
use zowpy.Prelude.{
  All, Text, ℕ, ◌+◌, ◌*◌, ◌/◌, ◌%◌, ◌^◌, ◌<◌, ◌≡◌, refl, false, Option, none, some, List, [], ◌∷◌,
  arith,
}
use zowpy.Coder.Node.{Attributes, Payload, absent, bytes, Node, node, Nodes, no_nodes, child}
use zowpy.Nodes.{
  hex_digit, hex, hex_value, is_blank, from_hex, payload_to_dict, payload_from_dict, dict_of,
  node_of, to_dict, children_to_dict, from_dict, children_from_dict, NodeDict, node_dict, NodeDicts,
  no_dicts, more_dicts,
}

pub hex_value-digit : (n : ℕ) → n < 16 → hex_value (hex_digit n) ≡ some n
unfolding hex_value
hex_value-digit n h = ground arith

hex_digit-is_blank : (n : ℕ) → n < 16 → is_blank (hex_digit n) ≡ false
hex_digit-is_blank n h = ground arith

pub from_hex-hex : (bs : List ℕ) → All (λ b. b < 2 ^ 8) bs → from_hex (hex bs) ≡ some bs
unfolding from_hex hex
from_hex-hex [] h = refl
from_hex-hex (b ∷ bs) h =
    let high : b / 16 < 16 = omega arith in
    let low : b % 16 < 16 = omega arith in
    let whole : b / 16 * 16 + b % 16 ≡ b = omega arith in
    rw
      (
        hex_digit-is_blank (b / 16) high,
        hex_value-digit (b / 16) high,
        hex_value-digit (b % 16) low,
        from_hex-hex bs h.1,
        whole,
      )
      refl

-- Content that survives: none, or bytes that are not empty.
pub data IsKept : Payload → Type 0 where
  none_kept : IsKept absent
  bytes_kept : (b : ℕ) (bs : List ℕ) → All (λ c. c < 2 ^ 8) (b ∷ bs) → IsKept (bytes (b ∷ bs))

mutual
  pub data IsWhole : Node → Type 0 where
    whole :
        (tag : Text) (attributes : Attributes) (children : Nodes) (payload : Payload)
        → AreWhole children
        → IsKept payload
        → IsWhole (node tag attributes children payload)

  pub data AreWhole : Nodes → Type 0 where
    no_more : AreWhole no_nodes
    one_more : (n : Node) (ns : Nodes) → IsWhole n → AreWhole ns → AreWhole (child n ns)

payload_from_dict-bytes :
    (digits : Text) (b : ℕ) (bs : List ℕ)
    → from_hex digits ≡ some (b ∷ bs)
    → payload_from_dict (some digits) ≡ some (bytes (b ∷ bs))
unfolding payload_from_dict
payload_from_dict-bytes [] b bs h = absurd (unfold from_hex in ground arith)
payload_from_dict-bytes (c ∷ s) b bs h = rw (h, payload_from_dict) refl

payload_from_dict-to_dict :
    (payload : Payload)
    → IsKept payload
    → (data_ : Option Text) × (payload_to_dict payload ≡ some data_)
      × (payload_from_dict data_ ≡ some payload)
unfolding payload_to_dict payload_from_dict
payload_from_dict-to_dict _ none_kept = (none, refl, refl)
payload_from_dict-to_dict _ (bytes_kept b bs h) = (
  some (hex (b ∷ bs)),
  refl,
  payload_from_dict-bytes (hex (b ∷ bs)) b bs (from_hex-hex (b ∷ bs) h),
)

to_dict-node :
    (tag : Text) (attributes : Attributes) (children : Nodes) (payload : Payload) (ds : NodeDicts)
    (data_ : Option Text)
    → children_to_dict children ≡ some ds
    → payload_to_dict payload ≡ some data_
    → to_dict (node tag attributes children payload) ≡ some (node_dict tag attributes ds data_)
unfolding to_dict dict_of
to_dict-node tag attributes children payload ds data_ h k = rw (h, k)

from_dict-node :
    (tag : Text) (attributes : Attributes) (children : Nodes) (payload : Payload) (ds : NodeDicts)
    (data_ : Option Text)
    → children_from_dict ds ≡ some children
    → payload_from_dict data_ ≡ some payload
    → from_dict (node_dict tag attributes ds data_) ≡ some (node tag attributes children payload)
unfolding from_dict node_of
from_dict-node tag attributes children payload ds data_ h k = rw (h, k)

children_to_dict-child :
    (n : Node) (ns : Nodes) (d : NodeDict) (ds : NodeDicts)
    → to_dict n ≡ some d
    → children_to_dict ns ≡ some ds
    → children_to_dict (child n ns) ≡ some (more_dicts d ds)
unfolding children_to_dict
children_to_dict-child n ns d ds h k = rw (h, k) refl

children_from_dict-more :
    (n : Node) (ns : Nodes) (d : NodeDict) (ds : NodeDicts)
    → from_dict d ≡ some n
    → children_from_dict ds ≡ some ns
    → children_from_dict (more_dicts d ds) ≡ some (child n ns)
unfolding children_from_dict
children_from_dict-more n ns d ds h k = rw (h, k) refl

mutual
  unfolding to_dict children_to_dict from_dict children_from_dict

  IsWhole-rebuilt :
      (n : Node) → IsWhole n → (d : NodeDict) × (to_dict n ≡ some d) × (from_dict d ≡ some n)
  IsWhole-rebuilt _ (whole tag attributes children payload all kept) =
      let (ds, there, back) = AreWhole-rebuilt children all in
      let (data_, over, again) = payload_from_dict-to_dict payload kept in
      (
        node_dict tag attributes ds data_,
        to_dict-node tag attributes children payload ds data_ there over,
        from_dict-node tag attributes children payload ds data_ back again,
      )

  AreWhole-rebuilt :
      (ns : Nodes)
      → AreWhole ns
      → (ds : NodeDicts) × (children_to_dict ns ≡ some ds) × (children_from_dict ds ≡ some ns)
  AreWhole-rebuilt _ no_more = (no_dicts, refl, refl)
  AreWhole-rebuilt _ (one_more n ns h hs) =
      let (d, there, back) = IsWhole-rebuilt n h in
      let (ds, over, again) = AreWhole-rebuilt ns hs in
      (
        more_dicts d ds,
        children_to_dict-child n ns d ds there over,
        children_from_dict-more n ns d ds back again,
      )

-- A node has a dict, and `from_dict` makes the same node of it, where it and every node below it has no
-- content or content that is bytes, at least one of them, and no None among its children.
pub from_dict-to_dict :
    (n : Node) → IsWhole n → (d : NodeDict) × (to_dict n ≡ some d) × (from_dict d ≡ some n)
from_dict-to_dict n h = IsWhole-rebuilt n h
