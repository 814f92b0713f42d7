-- ===== src/Phone/Country.antt =====
-- `CountryPhoneData` of zowpy/utils/phone.py. A missing key and a missing entry are `none`. An entry
-- has the shape of those of proto/countries.json: all leaves are texts.
use zowpy.Prelude.{
  if◌then◌else◌, Bool-cases, length, get_elem?, All, Text, codes, text_eq, ℕ, ◌<◌, ◌≡◌, refl, ◌≢◌,
  ◌⊎◌, inl, inr, true, Option, none, some, List, [], ◌∷◌, arith,
}
use zowpy.Phone.Codes.{digits_of, in_set, get_country_code, get_country_code-IsCodeOf}

-- The `operator` object of an item.
pub record Operator : Type 0 where
  pub mcc : Option Text
  pub mnc : Option Text
  pub iso : Option Text
  pub country : Option Text

-- An item of the list `operators`, that is an object with or without `operator`, or no object.
pub data Item : Type 0 where
  object : Option Operator → Item
  other : Item

-- An entry. `operators` is `raw.get("ddi") or {}` at `"operators"`, or the empty list.
pub record Entry : Type 0 where
  pub locale : Option Text
  pub language : Option Text
  pub operators : List Item

-- The file: entries by country code.
abbrev pub Countries : Type 0
Countries = List (Text × Entry)

unfoldable pub find_entry : Text → Countries → Option Entry
find_entry code [] = none
find_entry code ((k, entry) ∷ data_) = if text_eq code k then some entry else find_entry code data_

-- A text that is there and is not empty, which Python counts as true, or else the other text.
unfoldable pub or_else : Option Text → Text → Text
or_else none default = default
or_else (some []) default = default
or_else (some (c ∷ s)) default = c ∷ s

unfoldable pub first_item : List Item → Option Operator
first_item [] = none
first_item (object op ∷ items) = op
first_item (other ∷ items) = none

-- `_first_operator`, `none` for an entry that is not there.
unfoldable pub first_operator : Option Entry → Option Operator
unfolding first_item
first_operator none = none
first_operator (some entry) = first_item entry.operators

unfoldable pub operators_in : List Item → List Operator
operators_in [] = []
operators_in (object (some op) ∷ items) = op ∷ operators_in items
operators_in (object none ∷ items) = operators_in items
operators_in (other ∷ items) = operators_in items

-- The property `operators`.
unfoldable pub all_operators : Option Entry → List Operator
unfolding operators_in
all_operators none = []
all_operators (some entry) = operators_in entry.operators

abbrev default_locale : Text
default_locale = codes "us"

abbrev default_language : Text
default_language = codes "en"

abbrev default_code : Text
default_code = codes "000"

-- `op.get(field)`, where there is an operator.
unfoldable pub field_of : (Operator → Option Text) → Option Operator → Option Text
field_of field none = none
field_of field (some op) = field op

unfoldable pub locale_of : Option Entry → Text
unfolding or_else field_of first_operator
locale_of none = default_locale
locale_of (some entry) =
    or_else entry.locale
      (or_else (field_of (λ op. op.iso) (first_operator (some entry))) default_locale)

unfoldable pub language_of : Option Entry → Text
unfolding or_else
language_of none = default_language
language_of (some entry) = or_else entry.language default_language

unfoldable pub mcc_of : Option Entry → Text
unfolding or_else field_of first_operator
mcc_of raw = or_else (field_of (λ op. op.mcc) (first_operator raw)) default_code

unfoldable pub mnc_of : Option Entry → Text
unfolding or_else field_of first_operator
mnc_of raw = or_else (field_of (λ op. op.mnc) (first_operator raw)) default_code

unfoldable pub country_lg_lc : Countries → Text → Text × Text
unfolding find_entry language_of locale_of
country_lg_lc data_ code = (language_of (find_entry code data_), locale_of (find_entry code data_))

unfoldable pub country_mcc_mnc : Countries → Text → Text × Text
unfolding find_entry mcc_of mnc_of
country_mcc_mnc data_ code = (mcc_of (find_entry code data_), mnc_of (find_entry code data_))

-- `self._cc_set`
unfoldable pub code_set : Countries → List Text
code_set [] = []
code_set ((k, entry) ∷ data_) = k ∷ code_set data_

-- `get_mcc_mnc(phone_number)`
unfoldable pub phone_mcc_mnc : Countries → Text → Text × Text
unfolding country_mcc_mnc code_set
phone_mcc_mnc data_ phone_number =
    country_mcc_mnc data_ (get_country_code (code_set data_) phone_number)

-- Every item has an operator.
abbrev pub AreOperators : List Item → Type 0
AreOperators = All (λ item. (op : Operator) × (item ≡ object (some op)))

or_else-ne : (o : Option Text) (default : Text) → default ≢ [] → or_else o default ≢ []
unfolding or_else
or_else-ne none default h = h
or_else-ne (some []) default h = h
or_else-ne (some (c ∷ s)) default h = λ e. absurd (cc)

language_of-ne : (raw : Option Entry) → language_of raw ≢ []
unfolding language_of
language_of-ne none = λ e. cc
language_of-ne (some entry) = or_else-ne entry.language default_language (λ e. cc)

locale_of-ne : (raw : Option Entry) → locale_of raw ≢ []
unfolding locale_of
locale_of-ne none = λ e. cc
locale_of-ne (some entry) = or_else-ne entry.locale _ (or_else-ne _ default_locale (λ e. cc))

-- The language, the locale, the MCC and the MNC of a number are never empty, whatever the file has.
pub country-nonempty :
    (data_ : Countries) (code phone_number : Text)
    → ((country_lg_lc data_ code).0 ≢ [])
      × ((country_lg_lc data_ code).1 ≢ [])
      × ((phone_mcc_mnc data_ phone_number).0 ≢ [])
      × ((phone_mcc_mnc data_ phone_number).1 ≢ [])
unfolding country_lg_lc phone_mcc_mnc country_mcc_mnc mcc_of mnc_of
country-nonempty data_ code phone_number = (
  language_of-ne (find_entry code data_),
  locale_of-ne (find_entry code data_),
  or_else-ne _ default_code (λ e. cc),
  or_else-ne _ default_code (λ e. cc),
)

-- Where a set has the code, the file has an entry for it.
in_set-find_entry :
    (data_ : Countries) (code : Text)
    → in_set code (code_set data_) ≡ true
    → (entry : Entry) × (find_entry code data_ ≡ some entry)
unfolding code_set find_entry in_set
in_set-find_entry [] code h = absurd (cc)
in_set-find_entry ((k, entry) ∷ data_) code h = elim (Bool-cases (text_eq code k)) [
  | inl same ↦ (entry, rw same refl)
  | inr differ ↦
      let (found, e) = in_set-find_entry data_ code (ground arith) in (found, rw differ e)
]

-- A code that is found for a number with digits either has an entry in the file or is one digit.
pub get_country_code-find_entry :
    (data_ : Countries) (phone_number : Text) (c : ℕ) (s : Text)
    → digits_of phone_number ≡ c ∷ s
    → (c ≡ b'1' → length (c ∷ s) < 10)
    → ((entry : Entry) × (find_entry (get_country_code (code_set data_) phone_number) data_
          ≡ some entry))
      ⊎ (length (get_country_code (code_set data_) phone_number) ≡ 1)
get_country_code-find_entry data_ phone_number c s digits short =
    elim (get_country_code-IsCodeOf (code_set data_) phone_number c s digits short).known [
      | inl member ↦ inl (in_set-find_entry data_ _ member)
      | inr single ↦ inr single
    ]

first_item-operators_in :
    (items : List Item) → AreOperators items → first_item items ≡ get_elem? (operators_in items) 0
unfolding first_item operators_in
first_item-operators_in [] h = refl
first_item-operators_in (item ∷ items) h = rw (h.0.1, first_item, operators_in) refl

-- The first operator is the first of all of them, where every item of the list has one.
pub first_operator-all_operators :
    (entry : Entry)
    → AreOperators entry.operators
    → first_operator (some entry) ≡ get_elem? (all_operators (some entry)) 0
unfolding first_operator all_operators
first_operator-all_operators entry h = first_item-operators_in entry.operators h
