-- ===== src/Coder/Read/Total.antt =====
-- The decoder ends on every input, and its fuel is enough.
use mathlib.Core.Path.{subst}
use zowpy.Prelude.{
  if◌then◌else◌, Option-cases, length, length-drop-le, Text, ℕ, zero, suc, ◌≤◌, ◌<◌, ◌≡◌, refl, sym,
  ap, ◌≢◌, inl, inr, Bool, true, false, Option, none, some, List, [], ◌∷◌, arith,
}
use zowpy.Result.{bind, Error, value_error, exception, out_of_fuel, Result, ok, err}
use zowpy.Coder.Read.{
  get_token_double, read_token, join_jid, read_sized, read_simple, read_string, set_attribute,
  read_attributes, read_content, read_children, read_rest, read_named, next_tree, decode,
  read_flags, get_protocol_node, required, read_second, after_start,
}
use zowpy.Coder.Dictionary.{TokenDictionary}
use zowpy.Coder.Packing.{unpack_byte, unpack_all, unpack_text, read_packed8}
use zowpy.Coder.Ints.{
  Reader, pure, raise, ◌>>=◌, read_int8, read_int16, read_int20, read_int31, read_list_size,
  read_array,
}
use zowpy.Coder.Node.{Attributes, Node, no_nodes}

-- A call that returns leaves at most `k` bytes, and a call that raises did not run out of fuel.
data Ends {ℓ} {A : Type ℓ} (k : ℕ) : Result (A × List ℕ) → Type ℓ where
  returns : {a : A} {rest : List ℕ} → length rest ≤ k → Ends k (ok (a, rest))
  raises : {e : Error} → e ≢ out_of_fuel → Ends k (err e)

-- On data of at most `m` bytes the reader ends and does not make the data longer.
abbrev Tame {ℓ} : {A : Type ℓ} → ℕ → Reader A → Type ℓ
Tame m r = (k : ℕ) (bs : List ℕ) → length bs ≤ k → k ≤ m → Ends k (r bs)

Ends-weaken {ℓ} : {A : Type ℓ} {j k : ℕ} {r : Result (A × List ℕ)} → j ≤ k → Ends j r → Ends k r
Ends-weaken h (returns le) = returns (omega arith)
Ends-weaken h (raises ne) = raises ne

Ends-bind {ℓ κ} :
    {A : Type ℓ} {B : Type κ} {j k : ℕ} {r : Result (A × List ℕ)} (q : A → Reader B)
    → Ends j r
    → ((a : A) (rest : List ℕ) → length rest ≤ j → Ends k (q a rest))
    → Ends k (bind r λ (a, rest). q a rest)
Ends-bind q (returns {a} {rest} le) h = h a rest le
Ends-bind q (raises ne) h = raises ne

module _ {ℓ} {A : Type ℓ} where
  Tame-pure : (m : ℕ) (a : A) → Tame m (pure a)
  Tame-pure m a k bs le le_m = returns le

  Tame-raise : (m : ℕ) (e : Error) → e ≢ out_of_fuel → Tame m (raise {A = A} e)
  Tame-raise m e ne k bs le le_m = raises ne

  Tame-if : (m : ℕ) (b : Bool) (p q : Reader A) → Tame m p → Tame m q → Tame m (if b then p else q)
  Tame-if m true p q hp hq = hp
  Tame-if m false p q hp hq = hq

  Tame-result :
      (m : ℕ) (r : Result A) → r ≢ err out_of_fuel → Tame m (λ rest. bind r λ a. ok (a, rest))
  Tame-result m (ok a) h k bs le le_m = returns le
  Tame-result m (err e) h k bs le le_m = raises (λ p. h (ap err p))

module _ {ℓ κ} {A : Type ℓ} {B : Type κ} where
  Tame-bind :
      (m : ℕ) (p : Reader A) (q : A → Reader B)
      → Tame m p
      → ((a : A) → Tame m (q a))
      → Tame m (p >>= q)
  Tame-bind m p q hp hq k bs le le_m =
      Ends-bind q (hp k bs le le_m) (λ a rest le'. hq a k rest le' le_m)

-- What follows a byte has one byte less to read.
Tame-byte {ℓ} :
    {A : Type ℓ} (m : ℕ) (q : ℕ → Reader A)
    → ((a m' : ℕ) → m ≡ suc m' → Tame m' (q a))
    → Tame m (read_int8 >>= q)
unfolding read_int8
Tame-byte m q h k [] le le_m = raises (cc)
Tame-byte zero q h k (b ∷ bs) le le_m = absurd (omega arith)
Tame-byte (suc m) q h zero (b ∷ bs) le le_m = absurd (omega arith)
Tame-byte (suc m) q h (suc k) (b ∷ bs) le le_m =
    Ends-weaken (omega arith) (h b m refl k bs (omega arith) (omega arith))

read_int8-Tame : (m : ℕ) → Tame m read_int8
unfolding read_int8
read_int8-Tame m k [] le le_m = raises (cc)
read_int8-Tame m k (b ∷ bs) le le_m = returns (omega arith)

read_array-Tame : (m n : ℕ) → Tame m (read_array n)
unfolding read_array
read_array-Tame m n k bs le le_m = returns (omega (arith, length-drop-le n bs))

value_ne : value_error ≢ out_of_fuel
value_ne = cc

exception_ne : exception ≢ out_of_fuel
exception_ne = cc

ruleset tame_rules = (
  Tame-pure, Tame-raise, Tame-if, Tame-bind, read_int8-Tame, read_array-Tame, value_ne,
  exception_ne,
)

read_int16-Tame : (m : ℕ) → Tame m read_int16
unfolding read_int16
read_int16-Tame m = search tame_rules

read_int20-Tame : (m : ℕ) → Tame m read_int20
unfolding read_int20
read_int20-Tame m = search tame_rules

read_int31-Tame : (m : ℕ) → Tame m read_int31
unfolding read_int31
read_int31-Tame m = search (tame_rules) depth 9

read_list_size-Tame : (m token : ℕ) → Tame m (read_list_size token)
unfolding read_list_size
read_list_size-Tame m token = search (tame_rules, read_int16-Tame)

unpack_all-ne_out_of_fuel : (n : ℕ) (vs : List ℕ) → unpack_all n vs ≢ err out_of_fuel
unfolding unpack_all unpack_byte
unpack_all-ne_out_of_fuel n [] = cc
unpack_all-ne_out_of_fuel n (v ∷ []) = ground arith
unpack_all-ne_out_of_fuel n (v ∷ w ∷ vs) = ground (arith, unpack_all-ne_out_of_fuel n (w ∷ vs))

unpack_text-ne_out_of_fuel :
    (n : ℕ) (remove : Bool) (vs : List ℕ) → unpack_text n remove vs ≢ err out_of_fuel
unfolding unpack_text
unpack_text-ne_out_of_fuel n true vs = cc
unpack_text-ne_out_of_fuel n false vs = unpack_all-ne_out_of_fuel n vs

read_packed8-Tame : (m n : ℕ) → Tame m (read_packed8 n)
unfolding read_packed8
read_packed8-Tame m n = search (tame_rules, Tame-result, unpack_text-ne_out_of_fuel)

required-Tame : (m : ℕ) (o : Option Text) → Tame m (required o)
required-Tame m none = search tame_rules
required-Tame m (some t) = search tame_rules

get_token_double-Tame : (d : TokenDictionary) (m n n2 : ℕ) → Tame m (get_token_double d n n2)
unfolding get_token_double
get_token_double-Tame d m n n2 = required-Tame m _

read_second-Tame : (d : TokenDictionary) (m : ℕ) (o : Option Text) → Tame m (read_second d o)
unfolding read_second
read_second-Tame d m none = search (tame_rules, required-Tame)
read_second-Tame d m (some t) = search tame_rules

read_token-Tame : (d : TokenDictionary) (m index : ℕ) → Tame m (read_token d index)
unfolding read_token
read_token-Tame d m index = read_second-Tame d m _

ruleset string_rules = (
  tame_rules, read_token-Tame, get_token_double-Tame, read_packed8-Tame, read_int20-Tame,
  read_int31-Tame,
)

read_sized-Tame : (m : ℕ) (size : Reader ℕ) → Tame m size → Tame m (read_sized size)
read_sized-Tame m size h = search tame_rules

read_simple-Tame : (d : TokenDictionary) (m token : ℕ) → Tame m (read_simple d token)
unfolding read_simple
read_simple-Tame d m token = search (string_rules, read_sized-Tame) depth 12

join_jid-Tame : (m : ℕ) (user server : Option Text) → Tame m (join_jid user server)
unfolding join_jid
join_jid-Tame m _ none = search tame_rules
join_jid-Tame m none (some server) = search tame_rules
join_jid-Tame m (some user) (some server) = search tame_rules

-- A string on data that is shorter than the fuel, if those inside it are tame.
read_string-step :
    (d : TokenDictionary) (f token : ℕ)
    → ((f' : ℕ) → f ≡ suc f' → (t : ℕ) → Tame f' (read_string d f t))
    → Tame f (read_string d (suc f) token)
unfolding read_string
read_string-step d f token h =
    let inner : Tame f (read_int8 >>= λ t. read_string d f t) =
      Tame-byte f (λ t. read_string d f t) (λ t f' e. h f' e t) in
    search (tame_rules, inner, join_jid-Tame, read_simple-Tame) depth 12

read_string-Tame : (d : TokenDictionary) (f token : ℕ) → Tame f (read_string d (suc f) token)
read_string-Tame d zero token = read_string-step d zero token (λ f' e. absurd (omega arith))
read_string-Tame d (suc f) token =
    read_string-step d (suc f) token
      λ f' e t. subst (λ k. Tame k (read_string d (suc f) t)) (omega arith) (read_string-Tame d f t)

-- One more byte less than the fuel is one more string.
string-Tame : (d : TokenDictionary) (f : ℕ) → Tame f (read_int8 >>= read_string d f)
string-Tame d f =
    Tame-byte f (read_string d f)
      λ t f' e. subst (λ k. Tame f' (read_string d k t)) (sym e) (read_string-Tame d f' t)

read_attributes-Tame :
    (m : ℕ) (string : Reader (Option Text)) (n : ℕ) (attribs : Attributes)
    → Tame m string
    → Tame m (read_attributes string n attribs)
unfolding read_attributes
read_attributes-Tame m string zero attribs h = Tame-pure m attribs
read_attributes-Tame m string (suc n) attribs h = Tame-bind m string _ h λ key.
    Tame-bind m string _ h
      λ value. read_attributes-Tame m string n (set_attribute key value attribs) h

read_children-Tame :
    (m : ℕ) (tree : Reader (Option Node)) (n : ℕ) → Tame m tree → Tame m (read_children tree n)
unfolding read_children
read_children-Tame m tree zero h = Tame-pure m no_nodes
read_children-Tame m tree (suc n) h =
    let rest = read_children-Tame m tree n h in search (tame_rules, rest)

read_content-Tame :
    (d : TokenDictionary) (f m token : ℕ)
    → ((t : ℕ) → Tame m (read_string d f t))
    → Tame m (read_content d f token)
unfolding read_content
read_content-Tame d f m token h = search (string_rules, read_sized-Tame) depth 12

module _ (d : TokenDictionary) (f m : ℕ) (strings : (t : ℕ) → Tame m (read_string d f t)) where
  module _ (tree : Reader (Option Node)) (trees : Tame m tree) where
    read_rest-Tame :
        (size : ℕ) (tag : Text) (attribs : Attributes)
        → Tame m (read_rest d f tree size tag attribs)
    unfolding read_rest
    read_rest-Tame size tag attribs =
        search
          (tame_rules, read_list_size-Tame, read_children-Tame, read_content-Tame, trees, strings)
          depth 12

    read_named-Tame : (size : ℕ) (tag : Option Text) → Tame m (read_named d f tree size tag)
    unfolding read_named
    read_named-Tame size none = search tame_rules
    read_named-Tame size (some tag) =
        search (tame_rules, read_attributes-Tame, read_rest-Tame, strings) depth 12

after_start-Tame : (m start : ℕ) → Tame m (after_start start)
after_start-Tame m start = search tame_rules

next_tree-step :
    (d : TokenDictionary) (f : ℕ)
    → ((m : ℕ) → f ≡ suc m → (t : ℕ) → Tame m (read_string d f t))
    → ((m : ℕ) → f ≡ suc m → Tame m (next_tree d f))
    → Tame f (next_tree d (suc f))
unfolding next_tree
next_tree-step d f strings trees = Tame-byte f _ λ first m e.
    let named : (size : ℕ) (tag : Option Text) → Tame m (read_named d f (next_tree d f) size tag) =
      read_named-Tame d f m (strings m e) (next_tree d f) (trees m e) in
    let string : (t : ℕ) → Tame m (read_string d f t) = strings m e in
    search (tame_rules, read_list_size-Tame, after_start-Tame, string, named) depth 12

next_tree-Tame : (d : TokenDictionary) (f : ℕ) → Tame f (next_tree d (suc f))
next_tree-Tame d zero =
    next_tree-step d zero (λ m e. absurd (omega arith)) (λ m e. absurd (omega arith))
next_tree-Tame d (suc f) =
    next_tree-step d (suc f)
      (λ m e t.
        subst (λ k. Tame k (read_string d (suc f) t)) (omega arith) (read_string-Tame d f t))
      (λ m e. subst (λ k. Tame k (next_tree d (suc f))) (omega arith) (next_tree-Tame d f))

Ends-ne_out_of_fuel {ℓ} :
    {A : Type ℓ} {k : ℕ} {r : Result (A × List ℕ)} → Ends k r → r ≢ err out_of_fuel
Ends-ne_out_of_fuel (returns le) h = cc
Ends-ne_out_of_fuel (raises ne) h = ground (arith, ne)

-- With fuel above the length of the data a string is read or refused, and the fuel never runs out.
pub read_string-ne_out_of_fuel :
    (d : TokenDictionary) (f token : ℕ) (bs : List ℕ)
    → length bs < f
    → read_string d f token bs ≢ err out_of_fuel
read_string-ne_out_of_fuel d zero token bs h = absurd (omega arith)
read_string-ne_out_of_fuel d (suc f) token bs h =
    Ends-ne_out_of_fuel (read_string-Tame d f token (length bs) bs (omega arith) (omega arith))

next_tree-ne_out_of_fuel :
    (d : TokenDictionary) (bs : List ℕ) → next_tree d (suc (length bs)) bs ≢ err out_of_fuel
next_tree-ne_out_of_fuel d bs =
    Ends-ne_out_of_fuel (next_tree-Tame d (length bs) (length bs) bs (omega arith) (omega arith))

decode-ne_out_of_fuel : (d : TokenDictionary) (bs : List ℕ) → decode d bs ≢ err out_of_fuel
unfolding decode
decode-ne_out_of_fuel d bs h = ground (arith, next_tree-ne_out_of_fuel d bs)

read_flags-ne_out_of_fuel :
    (decompress : List ℕ → Option (List ℕ)) (d : TokenDictionary) (bs : List ℕ)
    → read_flags decompress d bs ≢ err out_of_fuel
unfolding read_flags
read_flags-ne_out_of_fuel decompress d [] = cc
read_flags-ne_out_of_fuel decompress d (flags ∷ body) = elim (Option-cases (decompress body)) [
  | inl bad ↦ rw bad (ground (arith, decode-ne_out_of_fuel d body))
  | inr (plain, good) ↦
      rw good (ground (arith, decode-ne_out_of_fuel d body, decode-ne_out_of_fuel d plain))
]

-- The decoder ends on every sequence of numbers: it returns a node or None, or raises an exception of
-- the program. The fuel of the model is always enough.
pub get_protocol_node-ne_out_of_fuel :
    (decompress : List ℕ → Option (List ℕ)) (d : TokenDictionary) (bs : List ℕ)
    → get_protocol_node decompress d bs ≢ err out_of_fuel
unfolding get_protocol_node
get_protocol_node-ne_out_of_fuel decompress d bs =
    ground (arith, read_flags-ne_out_of_fuel decompress d bs)
