-- ===== src/Coder/RoundTrip/Trees.antt =====
-- Trees of nodes: decoding undoes encoding.
use zowpy.Prelude.{
  length, length-append, AreBytes, AreBytes-append, Text, ℕ, suc, ◌+◌, ◌-◌, ◌*◌, ◌%◌, ◌^◌, ◌<◌, ◌≡◌,
  refl, true, false, Option, some, List, [], ◌∷◌, ◌++◌, append_assoc, append-nil, arith,
}
use zowpy.Result.{bind, ok}
use zowpy.Coder.Node.{Attributes, count_nodes, absent, bytes, Node, node, Nodes, no_nodes, child}
use zowpy.Coder.Dictionary.{TokenDictionary}
use zowpy.Coder.Ints.{read_int8, write_list_start}
use zowpy.Coder.Write.{put, ◌▹◌, write_bytes, write_payload, write_internal, protocol_node_to_bytes}
use zowpy.Coder.Read.{read_rest, fit_bytes, read_flags, get_protocol_node}
use zowpy.Coder.RoundTrip.Attributes.{Carried, AreCarried}
use zowpy.Coder.RoundTrip.Contents.{
  content-write_bytes, count-write_list_start, write_list_start-AreBytes,
}
use zowpy.Coder.RoundTrip.Nodes.{
  ReadsNodes-nil, ReadsNodes-cons, ReadsNode-build, Faithful, leaf, with_content, parent,
  AllFaithful, none_left, one_more, ReadsNode, ReadsNodes,
}

module _ (d : TokenDictionary) (tag : Text) (attrs : Attributes) (carried : Carried d tag)
    (attributes : AreCarried d attrs) (few : length attrs < 2 ^ 15 - 1) where
  leaf-Reads : ReadsNode d (node tag attrs no_nodes absent)
  leaf-Reads =
      ReadsNode-build d tag attrs no_nodes absent [] carried attributes (omega arith) (omega arith)
        (unfold ◌▹◌ write_payload write_internal in refl) tt
        λ k rest h.
          let odd : (1 + length attrs * 2 + 0 + 0) % 2 ≡ 1 = omega arith in
          unfold read_rest in rw odd

  content-Reads :
      (bs : List ℕ)
      → length bs < 2 ^ 20
      → AreBytes bs
      → ReadsNode d (node tag attrs no_nodes (bytes bs))
  content-Reads bs short are =
      let c = content-write_bytes d bs short are in
      ReadsNode-build d tag attrs no_nodes (bytes bs) (write_bytes bs false) carried attributes
        (omega arith) (omega arith) (unfold ◌▹◌ write_payload write_internal in rw append-nil)
        c.are_bytes
        λ k rest h.
          let even : (1 + length attrs * 2 + 0 + 1) % 2 ≡ 0 = omega arith in
          unfold read_rest read_int8 in rw (even, c.split, c.no_list, c.content k rest)

  parent-Reads :
      (first : Node) (others : Nodes)
      → count_nodes others < 2 ^ 16 - 1
      → ReadsNodes d (child first others)
      → ReadsNode d (node tag attrs (child first others) absent)
  parent-Reads first others short ns =
      let n = suc (count_nodes others) in
      let c = count-write_list_start n (omega arith) (omega arith) in
      ReadsNode-build d tag attrs (child first others) absent
        (write_list_start n ++ ns.written_bytes) carried attributes (omega arith) (omega arith)
        (rw (ns.written) (unfold ◌▹◌ write_payload in refl))
        (AreBytes-append (write_list_start n) ns.written_bytes (write_list_start-AreBytes n)
          ns.are_bytes)
        λ k rest h.
          let even : (1 + length attrs * 2 + 1 + 0) % 2 ≡ 0 = omega arith in
          let len = length-append (write_list_start n) ns.written_bytes in
          unfold read_rest read_int8 in
          rw (
            even,
            append_assoc,
            c.split,
            c.is_list,
            c.count (ns.written_bytes ++ rest),
            ns.back k rest (omega (arith, len)),
          )

mutual
  Faithful-Reads : {d : TokenDictionary} {n : Node} → Faithful d n → ReadsNode d n
  Faithful-Reads {d} (leaf tag attrs c a few) = leaf-Reads d tag attrs c a few
  Faithful-Reads {d} (with_content tag attrs bs c a few short are) =
      content-Reads d tag attrs c a few bs short are
  Faithful-Reads {d} (parent tag attrs first others c a few short h hs) =
      parent-Reads d tag attrs c a few first others short
        (ReadsNodes-cons d first others (Faithful-Reads h) (AllFaithful-Reads hs))

  AllFaithful-Reads : {d : TokenDictionary} {ns : Nodes} → AllFaithful d ns → ReadsNodes d ns
  AllFaithful-Reads {d} none_left = ReadsNodes-nil d
  AllFaithful-Reads {d} (one_more first others h hs) =
      ReadsNodes-cons d first others (Faithful-Reads h) (AllFaithful-Reads hs)

protocol_node_to_bytes-put :
    (d : TokenDictionary) (n : Node) (bs : List ℕ)
    → write_internal d n ≡ put bs
    → protocol_node_to_bytes d n ≡ ok (0 ∷ bs)
unfolding protocol_node_to_bytes
protocol_node_to_bytes-put d n bs h = rw h

AreBytes-fit_bytes : (bs : List ℕ) → AreBytes bs → fit_bytes bs ≡ true
unfolding fit_bytes
AreBytes-fit_bytes [] h = refl
AreBytes-fit_bytes (b ∷ bs) h = ground (arith, AreBytes-fit_bytes bs h.1)

-- Decoding the bytes of a node gives that node: for every tree whose tags, keys and values are carried,
-- which means that each of them is written as bytes that are read back as the same text, packed or not;
-- where no node has a key twice, 2 ^ 15 - 1 attributes or more, 2 ^ 16 children or more, None among its
-- children, or content beside children; and where every content is bytes, fewer than 2 ^ 20 of them.
pub decode-encode :
    (decompress : List ℕ → Option (List ℕ)) (d : TokenDictionary) (n : Node)
    → Faithful d n
    → bind (protocol_node_to_bytes d n) (get_protocol_node decompress d) ≡ ok (some n)
unfolding get_protocol_node fit_bytes read_flags
decode-encode decompress d n h =
    let r = Faithful-Reads h in
    let back = r.back (suc (length r.written_bytes)) [] (omega arith) in
    rw (
      protocol_node_to_bytes-put d n r.written_bytes r.written,
      AreBytes-fit_bytes r.written_bytes r.are_bytes,
      rw append-nil at back,
    )
