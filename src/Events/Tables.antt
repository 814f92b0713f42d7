-- ===== src/Events/Tables.antt =====
-- Dicts of handlers.
use zowpy.Prelude.{
  ==_refl, ==_ne, Bool-cases, All, Text, text_eq, text_eq→eq, text_eq_refl, ◌≡◌, refl, ap, ◌≢◌, inl,
  inr, true, false, List, [], ◌∷◌, ◌++◌,
}
use zowpy.Events.{
  Table, handlers_of, append_handler, pop_event, remove_handler, remove_from, Handler,
}

pub handlers_of-pop_event :
    (event : Text) (table : Table) → handlers_of event (pop_event event table) ≡ []
unfolding handlers_of pop_event
handlers_of-pop_event event [] = refl
handlers_of-pop_event event ((e, hs) ∷ table) = elim (Bool-cases (text_eq event e)) [
  | inl same ↦ rw same (handlers_of-pop_event event table)
  | inr differ ↦ rw (differ, differ) (handlers_of-pop_event event table)
]

text_eq_clash : (s t u : Text) → text_eq s t ≡ false → text_eq t u ≡ true → text_eq s u ≡ false
text_eq_clash s t u h k = rw (← text_eq→eq t u k) h

pub handlers_of-pop_event_ne :
    (other event : Text) (table : Table)
    → text_eq other event ≡ false
    → handlers_of other (pop_event event table) ≡ handlers_of other table
unfolding handlers_of pop_event
handlers_of-pop_event_ne other event [] h = refl
handlers_of-pop_event_ne other event ((e, hs) ∷ table) h = elim (Bool-cases (text_eq event e)) [
  | inl same ↦
      rw (same, text_eq_clash other event e h same) (handlers_of-pop_event_ne other event table h)
  | inr differ ↦ rw differ (elim (Bool-cases (text_eq other e)) [
    | inl here ↦ rw (here, handlers_of) refl
    | inr there ↦ rw (there, handlers_of) (handlers_of-pop_event_ne other event table h)
  ])
]

pub handlers_of-append_handler :
    (event : Text) (h : Handler) (table : Table)
    → handlers_of event (append_handler event h table) ≡ handlers_of event table ++ h ∷ []
unfolding handlers_of append_handler
handlers_of-append_handler event h [] = rw (text_eq_refl event) refl
handlers_of-append_handler event h ((e, hs) ∷ table) = elim (Bool-cases (text_eq event e)) [
  | inl same ↦ rw (same, same) refl
  | inr differ ↦ rw (differ, differ) (handlers_of-append_handler event h table)
]

pub handlers_of-append_handler_ne :
    (other event : Text) (h : Handler) (table : Table)
    → text_eq other event ≡ false
    → handlers_of other (append_handler event h table) ≡ handlers_of other table
unfolding handlers_of append_handler
handlers_of-append_handler_ne other event h [] k = rw k refl
handlers_of-append_handler_ne other event h ((e, hs) ∷ table) k =
    elim (Bool-cases (text_eq event e)) [
      | inl same ↦ rw (same, text_eq_clash other event e k same) refl
      | inr differ ↦ rw differ (elim (Bool-cases (text_eq other e)) [
        | inl here ↦ rw (here, handlers_of) refl
        | inr there ↦ rw (there, handlers_of) (handlers_of-append_handler_ne other event h table k)
      ])
    ]

pub handlers_of-remove_from :
    (event : Text) (h : Handler) (table : Table)
    → handlers_of event (remove_from event h table) ≡ remove_handler h (handlers_of event table)
unfolding handlers_of remove_from remove_handler
handlers_of-remove_from event h [] = refl
handlers_of-remove_from event h ((e, hs) ∷ table) = elim (Bool-cases (text_eq event e)) [
  | inl same ↦ rw (same, same) refl
  | inr differ ↦ rw (differ, differ) (handlers_of-remove_from event h table)
]

-- The handler is not in the list.
abbrev pub IsAbsent : Handler → List Handler → Type 0
IsAbsent h = All (λ k. k.identity ≢ h.identity)

pub remove_handler-append :
    (h : Handler) (hs : List Handler) → IsAbsent h hs → remove_handler h (hs ++ h ∷ []) ≡ hs
unfolding remove_handler
remove_handler-append h [] k = rw (==_refl h.identity) refl
remove_handler-append h (x ∷ xs) k =
    rw (==_ne x.identity h.identity k.0) (ap (λ ys. x ∷ ys) (remove_handler-append h xs k.1))

pub remove_handler-absent :
    (h : Handler) (hs : List Handler) → IsAbsent h hs → remove_handler h hs ≡ hs
unfolding remove_handler
remove_handler-absent h [] k = refl
remove_handler-absent h (x ∷ xs) k =
    rw (==_ne x.identity h.identity k.0) (ap (λ ys. x ∷ ys) (remove_handler-absent h xs k.1))
