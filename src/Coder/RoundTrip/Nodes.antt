-- ===== src/Coder/RoundTrip/Nodes.antt =====
-- A whole node is decoded as it was encoded.
use zowpy.Prelude.{
  ==_ne, length, length-append, AreBytes, AreBytes-append, Text, ℕ, suc, ◌-◌, ◌^◌, ◌≤◌, ◌<◌, ◌≡◌,
  refl, ◌∙◌, ◌⊎◌, inl, inr, false, some, List, [], ◌∷◌, ◌++◌, append_assoc, arith,
}
use zowpy.Result.{exception, ok, err}
use zowpy.Coder.Node.{
  Attributes, count_nodes, Payload, absent, bytes, Node, node, Nodes, no_nodes, child,
}
use zowpy.Coder.Dictionary.{TokenDictionary}
use zowpy.Coder.Ints.{read_int8, write_list_start}
use zowpy.Coder.Write.{
  Out, put, ◌▹◌, write_payload, node_size, write_children_start, write_internal, write_nodes,
}
use zowpy.Coder.Read.{
  read_simple, read_string, read_children, attrib_count, read_rest, read_named, next_tree,
}
use zowpy.Coder.RoundTrip.Plain.{read_string-simple, Reads}
use zowpy.Coder.RoundTrip.Jids.{spend}
use zowpy.Coder.RoundTrip.Attributes.{
  Carried, Apart-nil, AreCarried, ReadsAttributes, write_attributes-Reads,
}
use zowpy.Coder.RoundTrip.Contents.{
  count-write_list_start, write_list_start-AreBytes, length-write_list_start_pos,
}

-- The stream tokens start no string.
stream_token-refused :
    (d : TokenDictionary) (f token : ℕ) (bs : List ℕ) {n : ℕ}
    → n < f
    → (token ≡ 1) ⊎ (token ≡ 2)
    → read_string d f token bs ≡ err exception
stream_token-refused d f token bs h (inl e) =
    rw e (read_string-simple d f 1 bs h (omega arith) (omega arith) ∙ (unfold read_simple in refl))
stream_token-refused d f token bs h (inr e) =
    rw e (read_string-simple d f 2 bs h (omega arith) (omega arith) ∙ (unfold read_simple in refl))

token_no_stream :
    {d : TokenDictionary} {out : Out} {t : Text} (r : Reads d out t)
    → (r.token ≡ 1) ⊎ (r.token ≡ 2)
    → ⊥
token_no_stream {d} r e =
    let f = suc (length r.body) in
    let bad = stream_token-refused d f r.token (r.body ++ []) {n = length r.body} (omega arith) e in
    cc (bad, r.read f [] (omega arith))

-- Everything up to the content, which is left to `read_rest`.
next_tree-header :
    (d : TokenDictionary) (k size : ℕ) (tag : Text) (attrs : Attributes) (abs after : List ℕ)
    {out : Out} (t : Reads d out tag)
    → 0 < size
    → size < 2 ^ 16
    → attrib_count size ≡ length attrs
    → ReadsAttributes d attrs abs
    → length t.body < k
    → length abs ≤ k
    → next_tree d (suc k) (write_list_start size ++ (t.token ∷ (t.body ++ (abs ++ after))))
      ≡ read_rest d k (next_tree d k) size tag attrs after
next_tree-header d k size tag attrs abs after t pos small count_eq attributes ht ha =
    let c = count-write_list_start size pos small in
    unfold next_tree read_named read_int8 in
    rw
      (
        c.split,
        c.count (t.token ∷ (t.body ++ (abs ++ after))),
        ==_ne t.token 1 (λ e. token_no_stream t (inl e)),
        ==_ne t.token 2 (λ e. token_no_stream t (inr e)),
        t.read k (abs ++ after) ht,
        ==_ne size 0 (omega arith),
        count_eq,
      )
      (rw (attributes k [] after ha (Apart-nil attrs)))

-- Nodes that the encoding can carry: the texts are carried, the counts fit 16 bits, the content is bytes
-- and below 1 MiB, and a node has content or children, never both.
mutual
  pub data Faithful (d : TokenDictionary) : Node → Type 0 where
    leaf :
        (tag : Text) (attrs : Attributes)
        → Carried d tag
        → AreCarried d attrs
        → length attrs < 2 ^ 15 - 1
        → Faithful d (node tag attrs no_nodes absent)
    with_content :
        (tag : Text) (attrs : Attributes) (bs : List ℕ)
        → Carried d tag
        → AreCarried d attrs
        → length attrs < 2 ^ 15 - 1
        → length bs < 2 ^ 20
        → AreBytes bs
        → Faithful d (node tag attrs no_nodes (bytes bs))
    parent :
        (tag : Text) (attrs : Attributes) (first : Node) (others : Nodes)
        → Carried d tag
        → AreCarried d attrs
        → length attrs < 2 ^ 15 - 1
        → count_nodes others < 2 ^ 16 - 1
        → Faithful d first
        → AllFaithful d others
        → Faithful d (node tag attrs (child first others) absent)

  pub data AllFaithful (d : TokenDictionary) : Nodes → Type 0 where
    none_left : AllFaithful d no_nodes
    one_more :
        (first : Node) (others : Nodes)
        → Faithful d first
        → AllFaithful d others
        → AllFaithful d (child first others)

-- The bytes of a node, and that they are read back with enough fuel.
pub record ReadsNode (d : TokenDictionary) (n : Node) : Type 0 where
  pub written_bytes : List ℕ
  pub written : write_internal d n ≡ put written_bytes
  pub are_bytes : AreBytes written_bytes
  pub back :
      (f : ℕ) (rest : List ℕ)
      → length written_bytes ≤ f
      → next_tree d f (written_bytes ++ rest) ≡ ok (some n, rest)

pub record ReadsNodes (d : TokenDictionary) (ns : Nodes) : Type 0 where
  pub written_bytes : List ℕ
  pub written : write_nodes d ns ≡ put written_bytes
  pub are_bytes : AreBytes written_bytes
  pub back :
      (f : ℕ) (rest : List ℕ)
      → length written_bytes ≤ f
      → read_children (next_tree d f) (count_nodes ns) (written_bytes ++ rest) ≡ ok (ns, rest)

pub ReadsNodes-nil : (d : TokenDictionary) → ReadsNodes d no_nodes
unfolding write_internal read_children
ReadsNodes-nil d = record {
  written_bytes = [];
  written = refl;
  are_bytes = tt;
  back = λ f rest h. refl;
}

pub ReadsNodes-cons :
    (d : TokenDictionary) (n : Node) (ns : Nodes)
    → ReadsNode d n
    → ReadsNodes d ns
    → ReadsNodes d (child n ns)
unfolding write_internal read_children
ReadsNodes-cons d n ns r rs = record {
  written_bytes = r.written_bytes ++ rs.written_bytes;
  written = rw (r.written, rs.written);
  are_bytes = AreBytes-append r.written_bytes rs.written_bytes r.are_bytes rs.are_bytes;
  back = λ f rest h.
      let len = length-append r.written_bytes rs.written_bytes in
      rw (
        append_assoc,
        r.back f (rs.written_bytes ++ rest) (omega (arith, len)),
        rs.back f rest (omega (arith, len)),
      );
}

-- A node whose content `after` is read back by `read_rest`.
module _ (d : TokenDictionary) (tag : Text) (attrs : Attributes) (children : Nodes)
    (payload : Payload) (after : List ℕ) where
  abbrev pub size : ℕ
  size = node_size attrs children payload

  pub ReadsNode-build :
      Carried d tag
      → AreCarried d attrs
      → size < 2 ^ 16
      → attrib_count size ≡ length attrs
      → (write_payload payload ▹ put (write_children_start children) ▹ write_nodes d children)
        ≡ put after
      → AreBytes after
      → ((k : ℕ) (rest : List ℕ)
          → length after ≤ k
          → read_rest d k (next_tree d k) size tag attrs (after ++ rest)
            ≡ ok (some (node tag attrs children payload), rest))
      → ReadsNode d (node tag attrs children payload)
  unfolding write_internal
  ReadsNode-build carried attributes small count_eq tail are content_back =
      let t = carried false in
      let (abs, written_abs, abs_bytes, back_abs) = write_attributes-Reads d attrs attributes in
      let bytes' = write_list_start size ++ (t.token ∷ (t.body ++ (abs ++ after))) in
      record {
        written_bytes = bytes';
        written = rw (t.written, written_abs, tail);
        are_bytes =
            AreBytes-append (write_list_start size) (t.token ∷ (t.body ++ (abs ++ after)))
              (write_list_start-AreBytes size)
              (
                t.are_bytes.0,
                AreBytes-append t.body (abs ++ after) (t.are_bytes.1)
                    (AreBytes-append abs after abs_bytes are),
              );
        back = λ f rest h.
            let l1 = length-write_list_start_pos size in
            let l2 = length-append (write_list_start size) (t.token ∷ (t.body ++ (abs ++ after))) in
            let l3 = length-append t.body (abs ++ after) in
            let l4 = length-append abs after in
            spend {n = 0}
              (λ f'.
                length bytes' ≤ f'
                → next_tree d f' (bytes' ++ rest)
                  ≡ ok (some (node tag attrs children payload), rest))
              f
              (λ k _ h'. simp append_assoc (
                next_tree-header d k size tag attrs abs (after ++ rest) t (omega arith) small
                  count_eq back_abs (omega arith) (omega arith)
                ∙ content_back k rest (omega arith)))
              (omega arith) h;
      }
