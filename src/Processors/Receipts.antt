-- ===== src/Processors/Receipts.antt =====
-- `ReceiptProcessor` of receipt.py with `IncomingReceiptProtocolEntity` of protocol/entities/receipt.py,
-- `AckProcessor` of ack.py and `PresenceProcessor` of presence.py.
use zowpy.Prelude.{
  if◌then◌else◌, Bool-cases, Text, codes, ℕ, ◌≡◌, refl, ◌⊎◌, inl, inr, true, false, Option, none,
  some, List, [], ◌∷◌, ◌++◌,
}
use zowpy.Result.{Error, attribute_error, Result, ok, err}
use zowpy.Coder.Node.{Node}
use zowpy.Nodes.{get_attribute_value, tag_is, get_all_children}
use zowpy.Iq.Dispatch.{attribute_of, is_text, emits}
use zowpy.Builders.{optional}
use zowpy.Builders.Receipts.{build_ack}
use zowpy.Processors.{
  Data, Outcome, attr, or_word, or_none, nodes_in, entry, child_of, optional_text, texts, no_value,
  emits, sends, Value, Action, NodeProcessor,
}

-- The ids of the items that have one.
abbrev pub item_ids : List Node → List Text
item_ids [] = []
item_ids (n ∷ ns) = elim (attr "id" n) [
  | none ↦ item_ids ns
  | some [] ↦ item_ids ns
  | some (c ∷ cs) ↦ (c ∷ cs) ∷ item_ids ns
]

unfoldable pub listed_items : Node → Result (List Text)
unfolding get_all_children
listed_items n = elim (get_all_children (codes "item") (nodes_in n)) [
  | none ↦ err attribute_error
  | some items ↦ ok (item_ids items)
]

unfoldable pub items_of : Result (Option Node) → Result (List Text)
unfolding listed_items
items_of (err e) = err e
items_of (ok none) = ok []
items_of (ok (some n)) = listed_items n

abbrev pub items_value : List Text → Value
items_value [] = no_value
items_value (id ∷ ids) = texts (id ∷ ids)

abbrev pub status_of : Option Text → Text
status_of receipt_type = if is_text "read" receipt_type then codes "read" else codes "received"

abbrev pub receipt_fields : Node → List Text → Data
receipt_fields n items =
    entry "id" (optional_text (some (or_word (attr "id" n) [])))
    ∷ entry "type" (optional_text (attr "type" n))
    ∷ entry "from" (optional_text (some (or_word (attr "from" n) [])))
    ∷ entry "participant" (optional_text (or_none (attr "participant" n)))
    ∷ entry "timestamp" (optional_text (attr "t" n))
    ∷ entry "offline" (optional_text (attr "offline" n))
    ∷ entry "items" (items_value items)
    ∷ []

abbrev pub status_entry : Node → Text × Value
status_entry n = entry "status" (optional_text (some (status_of (attr "type" n))))

-- `_send_ack_for_receipt`
unfoldable pub receipt_ack : Node → Node
unfolding build_ack
receipt_ack n =
    build_ack (or_word (attr "id" n) []) (or_word (attr "from" n) []) (or_word (attr "type" n) [])
      (or_none (attr "participant" n)) (codes "receipt")

-- `process`, once the items are read.
unfoldable pub report_receipt : Node → Result (List Text) → Outcome
unfolding receipt_ack
report_receipt n (err e) = (err e, [])
report_receipt n (ok items) =
    let fields = receipt_fields n items in
    let receipt_data = fields ++ status_entry n ∷ [] in
    (
      ok (some receipt_data),
      emits (codes "receipt") receipt_data
          ∷ emits (codes "msg_log") (status_entry n ∷ fields)
          ∷ (if is_text "delivered" (attr "type" n) then [] else sends (receipt_ack n) ∷ []),
    )

unfoldable pub process_receipt : Node → Outcome
unfolding child_of items_of report_receipt
process_receipt n = report_receipt n (items_of (child_of "list" n))

unfoldable pub process_ack : Node → Outcome
process_ack n =
    let ack_data =
      entry "id" (optional_text (attr "id" n))
      ∷ entry "class" (optional_text (attr "class" n))
      ∷ entry "type" (optional_text (attr "type" n))
      ∷ entry "from" (optional_text (attr "from" n))
      ∷ [] in
    (ok (some ack_data), emits (codes "ack") ack_data ∷ [])

unfoldable pub process_presence : Node → Outcome
process_presence n =
    let presence_data =
      entry "type" (optional_text (attr "type" n))
      ∷ entry "from" (optional_text (attr "from" n))
      ∷ [] in
    (ok (some presence_data), emits (codes "presence") presence_data ∷ [])

abbrev pub receipt_processor : ℕ → NodeProcessor
receipt_processor identity = record {
  identity = identity;
  class_name = codes "ReceiptProcessor";
  priority = 5;
  can_handle = λ n. tag_is (codes "receipt") n;
  handle = process_receipt;
}

abbrev pub ack_processor : ℕ → NodeProcessor
ack_processor identity = record {
  identity = identity;
  class_name = codes "AckProcessor";
  priority = 5;
  can_handle = λ n. tag_is (codes "ack") n;
  handle = process_ack;
}

abbrev pub presence_processor : ℕ → NodeProcessor
presence_processor identity = record {
  identity = identity;
  class_name = codes "PresenceProcessor";
  priority = 1;
  can_handle = λ n. tag_is (codes "presence") n;
  handle = process_presence;
}

-- What the peer reads off an acknowledgement.
abbrev pub IsAckOf : Node → Node → Type 0
IsAckOf n ack =
    (tag_is (codes "ack") ack ≡ true)
    × (attr "id" ack ≡ some (or_word (attr "id" n) []))
    × (attr "to" ack ≡ some (or_word (attr "from" n) []))
    × (attr "class" ack ≡ some (codes "receipt"))
    × (attr "type" ack ≡ or_none (attr "type" n))
    × (attr "participant" ack ≡ or_none (attr "participant" n))

read_type :
    (t p : Option Text)
    → attribute_of "type"
        (optional "type" (some (or_word t [])) ++ optional "participant" (or_none p))
      ≡ or_none t
unfolding get_attribute_value
read_type none none = refl
read_type none (some []) = refl
read_type none (some (c ∷ cs)) = refl
read_type (some []) none = refl
read_type (some []) (some []) = refl
read_type (some []) (some (c ∷ cs)) = refl
read_type (some (b ∷ bs)) p = refl

read_participant :
    (t p : Option Text)
    → attribute_of "participant"
        (optional "type" (some (or_word t [])) ++ optional "participant" (or_none p))
      ≡ or_none p
unfolding get_attribute_value
read_participant none none = refl
read_participant none (some []) = refl
read_participant none (some (c ∷ cs)) = refl
read_participant (some []) none = refl
read_participant (some []) (some []) = refl
read_participant (some []) (some (c ∷ cs)) = refl
read_participant (some (b ∷ bs)) none = refl
read_participant (some (b ∷ bs)) (some []) = refl
read_participant (some (b ∷ bs)) (some (c ∷ cs)) = refl

receipt_ack-IsAckOf : (n : Node) → IsAckOf n (receipt_ack n)
unfolding receipt_ack build_ack get_attribute_value
receipt_ack-IsAckOf n = (
  refl,
  refl,
  refl,
  refl,
  read_type (attr "type" n) (attr "participant" n),
  read_participant (attr "type" n) (attr "participant" n),
)

-- What was done about a receipt: it was reported twice, and acknowledged unless it says "delivered".
abbrev pub IsReported : Node → Data → List Action → Type 0
IsReported n data_ actions =
    (log : Data) × ((is_text "delivered" (attr "type" n) ≡ true)
        × (actions ≡ emits (codes "receipt") data_ ∷ emits (codes "msg_log") log ∷ [])
      ⊎ ((ack : Node) × (is_text "delivered" (attr "type" n) ≡ false)
          × IsAckOf n ack
          × (actions
              ≡ emits (codes "receipt") data_ ∷ emits (codes "msg_log") log ∷ sends ack ∷ [])))

report_receipt-IsReported :
    (n : Node) (read : Result (List Text))
    → ((e : Error) × (read ≡ err e) × (report_receipt n read ≡ (err e, [])))
      ⊎ ((data_ : Data) × ((report_receipt n read).0 ≡ ok (some data_))
          × IsReported n data_ ((report_receipt n read).1))
unfolding report_receipt
report_receipt-IsReported n (err e) = inl (e, refl, refl)
report_receipt-IsReported n (ok items) =
    let log = status_entry n ∷ receipt_fields n items in
    inr (
      receipt_fields n items ++ status_entry n ∷ [],
      refl,
      (
        log,
        elim (Bool-cases (is_text "delivered" (attr "type" n))) [
          | inl delivered ↦ inl (delivered, rw delivered refl)
          | inr other ↦ inr (receipt_ack n, other, receipt_ack-IsAckOf n, rw other refl)
        ],
      ),
    )

-- A receipt whose items can be read is reported, and then acknowledged exactly once, with its id, sender,
-- type and participant, unless its type is "delivered". Else `process` raises and nothing is sent.
pub process_receipt-acks :
    (n : Node)
    → ((e : Error) × (items_of (child_of "list" n) ≡ err e) × (process_receipt n ≡ (err e, [])))
      ⊎ ((data_ : Data) × ((process_receipt n).0 ≡ ok (some data_))
          × IsReported n data_ ((process_receipt n).1))
unfolding process_receipt
process_receipt-acks n = report_receipt-IsReported n (items_of (child_of "list" n))
