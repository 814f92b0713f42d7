-- ===== src/Coder/Write/Total.antt =====
-- The encoder's recursion into jids ends: the parts of a jid are shorter than the jid.
use zowpy.Prelude.{
  ltb, if◌then◌else◌, Option-cases, length, take, drop, length-take-le, length-drop_lt, Text, ℕ,
  zero, suc, ◌+◌, ◌≤◌, ◌<◌, ◌≢◌, inl, inr, Bool, true, false, Option, none, some, List, [], ◌∷◌,
  arith,
}
use zowpy.Result.{value_error, out_of_fuel, err}
use zowpy.Python.{index_of, before, index_of-lt, length-before-le}
use zowpy.Coder.Write.{
  Out, put, throw, ◌▹◌, except_value_error, write_token, write_bytes, write_double, append_int,
  write_jid, write_string_fuel, write_string, write_value, write_attributes, write_payload,
  write_internal, write_nodes, protocol_node_to_bytes,
}
use zowpy.Coder.Node.{
  Attributes, Payload, absent, bytes, text, char_codes, Node, node, Nodes, no_nodes, child, missing,
}
use zowpy.Coder.Dictionary.{get_index, TokenDictionary}

-- The call did not run out of fuel.
abbrev InFuel : Out → Type 0
InFuel out = out.1 ≢ some out_of_fuel

▹-InFuel : (a b : Out) → InFuel a → InFuel b → InFuel (a ▹ b)
unfolding ◌▹◌
▹-InFuel (bs, none) (cs, e) ha hb = hb
▹-InFuel (bs, some e) b ha hb = ha

except-InFuel : (a b : Out) → InFuel a → InFuel b → InFuel (except_value_error a b)
unfolding except_value_error ◌▹◌
except-InFuel (bs, none) b ha hb = ha
except-InFuel (bs, some value_error) (cs, e) ha hb = hb
except-InFuel (bs, some e) b ha hb = ha

append_int-InFuel : (s : Option Text) → InFuel (append_int s)
unfolding append_int
append_int-InFuel none = cc
append_int-InFuel (some s) = ground arith

put-InFuel : (bs : List ℕ) → InFuel (put bs)
put-InFuel bs = cc

write_token-InFuel : (i : ℕ) → InFuel (write_token i)
unfolding write_token
write_token-InFuel i = ground arith

write_double-InFuel : (i : ℕ) → InFuel (write_double i)
unfolding write_double
write_double-InFuel i = ground arith

if-InFuel : (b : Bool) (x y : Out) → InFuel x → InFuel y → InFuel (if b then x else y)
if-InFuel true x y hx hy = hx
if-InFuel false x y hx hy = hy

ruleset fuel_rules = (
  ▹-InFuel, except-InFuel, append_int-InFuel, put-InFuel, write_token-InFuel, write_double-InFuel,
  if-InFuel,
)

-- `writeJid` calls back on texts that are no longer than its own.
write_jid-InFuel :
    (w : Text → Bool → Out) (user server : Text)
    → ((t : Text) (packed : Bool) → length t ≤ length user → InFuel (w t packed))
    → InFuel (w server false)
    → InFuel (write_jid w user server)
unfolding write_jid
write_jid-InFuel w user server h hs =
    let whole = h user true (omega arith) in
    let colon = h (before b':' user) true (length-before-le b':' user) in
    let dot = h (before b'.' user) true (length-before-le b'.' user) in
    search (fuel_rules, whole, colon, dot, hs) depth 12

-- Every text is written with any fuel above its length.
write_string_fuel-InFuel :
    (d : TokenDictionary) (f : ℕ) (s : Text) (packed : Bool)
    → length s < f
    → InFuel (write_string_fuel d f s packed)
unfolding write_string_fuel
write_string_fuel-InFuel d zero s packed h = absurd (omega arith)
write_string_fuel-InFuel d (suc f) s packed h = elim (Option-cases (get_index d s)) [
  | inr ((index, secondary), e) ↦
      rw (e, write_string_fuel)
        (if-InFuel secondary (write_double index) (write_token index) (write_double-InFuel index)
          (write_token-InFuel index))
  | inl e ↦ elim (Option-cases (index_of b'@' s)) [
    | inl e' ↦ rw (e, e', write_string_fuel) (cc)
    | inr (i, e') ↦
        rw (e, e', write_string_fuel)
          (except-InFuel _ _
            (if-InFuel (ltb i 1) (throw value_error)
              (write_jid (write_string_fuel d f) (take i s) (drop (i + 1) s)) (cc)
              (write_jid-InFuel (write_string_fuel d f) (take i s) (drop (i + 1) s)
                (λ t p le.
                  write_string_fuel-InFuel d f t p
                    (omega (arith, length-take-le i s, index_of-lt b'@' s i e')))
                (write_string_fuel-InFuel d f (drop (i + 1) s) false
                  (omega (arith, length-drop_lt i s (index_of-lt b'@' s i e'))))))
            (put-InFuel (write_bytes s packed)))
  ]
]

write_value-InFuel :
    (d : TokenDictionary) (s : Option Text) (packed : Bool) → InFuel (write_value d s packed)
unfolding write_value write_string
write_value-InFuel d none packed = cc
write_value-InFuel d (some s) packed =
    write_string_fuel-InFuel d (suc (length s)) s packed (omega arith)

write_string-InFuel :
    (d : TokenDictionary) (s : Text) (packed : Bool) → InFuel (write_string d s packed)
unfolding write_string
write_string-InFuel d s packed = write_string_fuel-InFuel d (suc (length s)) s packed (omega arith)

write_attributes-InFuel :
    (d : TokenDictionary) (attrs : Attributes) → InFuel (write_attributes d attrs)
unfolding write_attributes
write_attributes-InFuel d [] = cc
write_attributes-InFuel d ((k, v) ∷ rest) =
    let more = write_attributes-InFuel d rest in search (fuel_rules, write_value-InFuel, more)

write_payload-InFuel : (p : Payload) → InFuel (write_payload p)
unfolding write_payload
write_payload-InFuel absent = cc
write_payload-InFuel (bytes bs) = cc
write_payload-InFuel (text s) = cc
write_payload-InFuel (char_codes cs) = cc

mutual
  unfolding write_internal

  write_internal-InFuel : (d : TokenDictionary) (n : Node) → InFuel (write_internal d n)
  write_internal-InFuel d (node tag attrs children payload) =
      let rest = write_nodes-InFuel d children in
      search (fuel_rules, write_string-InFuel, write_attributes-InFuel, write_payload-InFuel, rest)
        depth 12

  write_nodes-InFuel : (d : TokenDictionary) (ns : Nodes) → InFuel (write_nodes d ns)
  write_nodes-InFuel d no_nodes = cc
  write_nodes-InFuel d (child n ns) =
      ▹-InFuel (write_internal d n) (write_nodes d ns) (write_internal-InFuel d n)
        (write_nodes-InFuel d ns)
  write_nodes-InFuel d (missing ns) = cc

-- The encoder ends on every tree: the fuel that each text is given is enough, so it returns bytes or
-- raises an exception of the program.
pub protocol_node_to_bytes-ne_out_of_fuel :
    (d : TokenDictionary) (n : Node) → protocol_node_to_bytes d n ≢ err out_of_fuel
unfolding protocol_node_to_bytes
protocol_node_to_bytes-ne_out_of_fuel d n h = ground (arith, write_internal-InFuel d n)
