-- ===== src/Coder/Read/Shape.antt =====
-- What the decoder never returns: a node with both content and children.
use mathlib.Core.Path.{subst}
use zowpy.Prelude.{
  ◌==◌, if◌then◌else◌, Bool-cases, Option-cases, length, Text, ℕ, zero, suc, ◌/◌, ◌%◌, ◌≡◌, refl,
  ◌≢◌, ◌⊎◌, inl, inr, Bool, true, false, Option, none, some, List, [], ◌∷◌, arith,
}
use zowpy.Result.{bind, bind-eq-ok, Error, Result, ok, err}
use zowpy.Coder.Node.{Attributes, Payload, absent, Node, node, Nodes, no_nodes, child}
use zowpy.Coder.Dictionary.{TokenDictionary}
use zowpy.Coder.Ints.{Reader, ◌>>=◌, read_int8, read_list_size}
use zowpy.Coder.Read.{
  read_string, read_attributes, is_list_tag, read_content, read_children, attrib_count, read_rest,
  read_named, next_tree, decode, fit_bytes, read_flags, get_protocol_node, after_start,
}
use zowpy.Coder.Write.{protocol_node_to_bytes}

-- If the call returns, its value satisfies `P`.
data Gives {ℓ κ} {A : Type ℓ} (P : A → Type κ) : Result (A × List ℕ) → Type (ℓ ⊔ κ) where
  gives : {a : A} {rest : List ℕ} → P a → Gives P (ok (a, rest))
  fails : {e : Error} → Gives P (err e)

Gives-bind {ℓ κ ℓ'} :
    {A : Type ℓ} {B : Type ℓ'} {P : B → Type κ} (r : Result (A × List ℕ)) (q : A → Reader B)
    → ((a : A) (rest : List ℕ) → Gives P (q a rest))
    → Gives P (bind r λ (a, rest). q a rest)
Gives-bind (ok (a, rest)) q h = h a rest
Gives-bind (err e) q h = fails

Gives-if {ℓ κ} :
    {A : Type ℓ} {P : A → Type κ} (b : Bool) (p q : Reader A) (bs : List ℕ)
    → Gives P (p bs)
    → Gives P (q bs)
    → Gives P ((if b then p else q) bs)
Gives-if true p q bs hp hq = hp
Gives-if false p q bs hp hq = hq

abbrev OneContent : Option Node → Type 0
OneContent none = Unit
OneContent (some (node tag attrs children payload)) = (children ≡ no_nodes) ⊎ (payload ≡ absent)

module _ (d : TokenDictionary) (f : ℕ) (tree : Reader (Option Node)) where
  read_rest-OneContent :
      (size : ℕ) (tag : Text) (attrs : Attributes) (bs : List ℕ)
      → Gives OneContent (read_rest d f tree size tag attrs bs)
  unfolding read_rest
  read_rest-OneContent size tag attrs bs = elim (Bool-cases (size % 2 == 1)) [
    | inl odd ↦ rw odd (gives (inl refl))
    | inr even ↦ rw even (
        Gives-bind (read_int8 bs) _ λ read2 rest. elim (Bool-cases (is_list_tag read2)) [
          | inl list ↦ rw list (
              Gives-bind (read_list_size read2 rest) _ λ count rest'.
                Gives-bind (read_children tree count rest') _ λ children rest''. gives (inr refl))
          | inr no_list ↦
              rw no_list
                (Gives-bind (read_content d f read2 rest) _ λ payload rest'. gives (inl refl))
        ])
  ]

  read_named-OneContent :
      (size : ℕ) (tag : Option Text) (bs : List ℕ)
      → Gives OneContent (read_named d f tree size tag bs)
  unfolding read_named
  read_named-OneContent size none bs = fails
  read_named-OneContent size (some tag) bs = elim (Bool-cases (size == 0)) [
    | inl zero_size ↦ rw zero_size fails
    | inr positive ↦ rw positive (
        Gives-bind (read_attributes (read_int8 >>= read_string d f) (attrib_count size) [] bs) _
          λ attrs rest. read_rest-OneContent size tag attrs rest)
  ]

next_tree-OneContent :
    (d : TokenDictionary) (f : ℕ) (bs : List ℕ) → Gives OneContent (next_tree d f bs)
unfolding next_tree
next_tree-OneContent d zero bs = fails
next_tree-OneContent d (suc f) bs = Gives-bind (read_int8 bs) _ λ first r1.
    Gives-bind (read_list_size first r1) _ λ size r2. Gives-bind (read_int8 r2) _ λ start r3.
      Gives-bind (after_start start r3) _ λ token r4. elim (Bool-cases (token == 2)) [
        | inl end ↦ rw end (gives tt)
        | inr more ↦ rw more (
            Gives-bind (read_string d f token r4) _
              λ tag r5. read_named-OneContent d f (next_tree d f) size tag r5)
      ]

Gives-ok {ℓ κ} :
    {A : Type ℓ} {P : A → Type κ} {r : Result (A × List ℕ)} {a : A}
    → Gives P r
    → bind r (λ (n, rest). ok n) ≡ ok a
    → P a
Gives-ok {P = P} (gives p) e = subst P (cc) p
Gives-ok fails e = cc

decode-OneContent :
    (d : TokenDictionary) (bs : List ℕ) (n : Option Node) → decode d bs ≡ ok n → OneContent n
unfolding decode
decode-OneContent d bs n h = Gives-ok (next_tree-OneContent d (suc (length bs)) bs) h

read_flags-one_content :
    (decompress : List ℕ → Option (List ℕ)) (d : TokenDictionary) (bs : List ℕ) (tag : Text)
    (attrs : Attributes) (children : Nodes) (payload : Payload)
    → read_flags decompress d bs ≡ ok (some (node tag attrs children payload))
    → (children ≡ no_nodes) ⊎ (payload ≡ absent)
unfolding read_flags
read_flags-one_content decompress d [] tag attrs children payload h = absurd (cc)
read_flags-one_content decompress d (flags ∷ body) tag attrs children payload h =
    elim (Option-cases (decompress body)) [
      | inl bad ↦ elim (Bool-cases (flags / 2 % 2 == 1)) [
        | inl deflated ↦ absurd (cc (rw (deflated, bad) at h))
        | inr plain ↦
            decode-OneContent d body (some (node tag attrs children payload))
              (ground (arith, rw plain at h))
      ]
      | inr (inflated, good) ↦ elim (Bool-cases (flags / 2 % 2 == 1)) [
        | inl deflated ↦
            decode-OneContent d inflated (some (node tag attrs children payload))
              (rw (deflated, good) at h)
        | inr plain ↦
            decode-OneContent d body (some (node tag attrs children payload))
              (ground (arith, rw plain at h))
      ]
    ]

-- Whatever the data, a decoded node has no children or no content.
pub get_protocol_node-one_content :
    (decompress : List ℕ → Option (List ℕ)) (d : TokenDictionary) (bs : List ℕ) (tag : Text)
    (attrs : Attributes) (children : Nodes) (payload : Payload)
    → get_protocol_node decompress d bs ≡ ok (some (node tag attrs children payload))
    → (children ≡ no_nodes) ⊎ (payload ≡ absent)
unfolding get_protocol_node
get_protocol_node-one_content decompress d bs tag attrs children payload h =
    elim (Bool-cases (fit_bytes bs)) [
      | inl fit ↦ read_flags-one_content decompress d bs tag attrs children payload (rw fit at h)
      | inr unfit ↦ absurd (cc (rw unfit at h))
    ]

-- So a node with both is never decoded as it was encoded, though the encoder writes both.
pub decode-encode_both_ne :
    (decompress : List ℕ → Option (List ℕ)) (d : TokenDictionary) (tag : Text) (attrs : Attributes)
    (first : Node) (others : Nodes) (payload : Payload)
    → payload ≢ absent
    → bind
        (protocol_node_to_bytes d (node tag attrs (child first others) payload))
        (get_protocol_node decompress d)
      ≢ ok (some (node tag attrs (child first others) payload))
decode-encode_both_ne decompress d tag attrs first others payload h e =
    let n = node tag attrs (child first others) payload in
    let (bs, _, back) =
      bind-eq-ok (protocol_node_to_bytes d n) (get_protocol_node decompress d) e in
    elim (get_protocol_node-one_content decompress d bs tag attrs (child first others) payload
      back) [ inl none_there ↦ cc | inr nothing ↦ h nothing ]
