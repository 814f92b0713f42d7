-- ===== src/Client/Window.antt =====
-- Which sent messages can be found again.
use zowpy.Prelude.{
  leb, if◌then◌else◌, Bool-cases, length, drop, length-append, All, Text, ℕ, zero, suc, ◌+◌, ◌-◌,
  ◌≤◌, ◌<◌, ◌≡◌, refl, ap, ◌∙◌, inl, inr, Bool, true, false, some, List, [], ◌∷◌, ◌++◌,
  append_assoc, append-nil, arith,
}
use zowpy.Coder.Node.{Node}
use zowpy.Client.Sent.{max_sent_queue, has_id, enqueue_sent_message, get_enqueued_message}

pub enqueue_all : List Node → List Node → List Node
enqueue_all queue [] = queue
enqueue_all queue (n ∷ ns) = enqueue_all (enqueue_sent_message queue n) ns

drop-append_one :
    (k : ℕ) (xs : List Node) (n : Node)
    → k ≤ length xs
    → drop k xs ++ n ∷ [] ≡ drop k (xs ++ n ∷ [])
drop-append_one zero xs n h = refl
drop-append_one (suc k) [] n h = absurd (omega arith)
drop-append_one (suc k) (x ∷ xs) n h = drop-append_one k xs n (omega arith)

drop_one-drop : (k : ℕ) (xs : List Node) → drop 1 (drop k xs) ≡ drop (suc k) xs
drop_one-drop zero xs = refl
drop_one-drop (suc k) [] = refl
drop_one-drop (suc k) (x ∷ xs) = drop_one-drop k xs

length-drop : (k : ℕ) (xs : List Node) → length (drop k xs) ≡ length xs - k
length-drop zero xs = omega arith
length-drop (suc k) [] = omega arith
length-drop (suc k) (x ∷ xs) = omega (arith, length-drop k xs)

-- One message more, after those that were sent.
enqueue-last :
    (sent : List Node) (n : Node)
    → enqueue_sent_message (drop (length sent - max_sent_queue) sent) n
      ≡ drop (length (sent ++ n ∷ []) - max_sent_queue) (sent ++ n ∷ [])
unfolding enqueue_sent_message
enqueue-last sent n =
    let k = length sent - max_sent_queue in
    let size = length-drop k sent in
    let whole = length-append sent (n ∷ []) in
    elim (Bool-cases (leb max_sent_queue (length (drop k sent)))) [
      | inl full ↦
          let next : length (sent ++ n ∷ []) - max_sent_queue ≡ suc k = ground arith in
          rw (full, next, drop_one-drop k sent) (drop-append_one (suc k) sent n (ground arith))
      | inr space ↦
          let next : length (sent ++ n ∷ []) - max_sent_queue ≡ k = ground arith in
          rw (space, next) (drop-append_one k sent n (ground arith))
    ]

enqueue_all-last_from :
    (sent ns : List Node)
    → enqueue_all (drop (length sent - max_sent_queue) sent) ns
      ≡ drop (length (sent ++ ns) - max_sent_queue) (sent ++ ns)
unfolding enqueue_all
enqueue_all-last_from sent [] = rw (append-nil sent) refl
enqueue_all-last_from sent (n ∷ ns) =
    ap (λ q. enqueue_all q ns) (enqueue-last sent n)
    ∙ enqueue_all-last_from (sent ++ n ∷ []) ns
    ∙ ap (λ l. drop (length l - max_sent_queue) l) (append_assoc sent (n ∷ []) ns)

-- After messages were sent, from an empty queue, the queue holds the last 256 of them, or all.
pub enqueue_all-last : (ns : List Node) → enqueue_all [] ns ≡ drop (length ns - max_sent_queue) ns
enqueue_all-last ns = enqueue_all-last_from [] ns

abbrev pub AreOthers : Text → List Node → Type 0
AreOthers i = All (λ n. has_id i n ≡ false)

get-append :
    (i : Text) (keep : Bool) (before after : List Node) (n : Node)
    → AreOthers i before
    → has_id i n ≡ true
    → get_enqueued_message i keep (before ++ n ∷ after)
      ≡ (some n, before ++ (if keep then n ∷ after else after))
unfolding get_enqueued_message
get-append i keep [] after n h k = rw k refl
get-append i keep (m ∷ before) after n h k = rw (h.0, get-append i keep before after n h.1 k) refl

enqueue-others :
    (before : List Node) (n : Node) (after : List Node) (m : Node) (i : Text)
    → AreOthers i before
    → suc (length after) < max_sent_queue
    → (rest : List Node) × AreOthers i rest
      × (enqueue_sent_message (before ++ n ∷ after) m ≡ rest ++ n ∷ (after ++ m ∷ []))
unfolding enqueue_sent_message
enqueue-others [] n after m i h k =
    let space : leb max_sent_queue (length (n ∷ after)) ≡ false = ground arith in
    ([], tt, rw space refl)
enqueue-others (b ∷ before) n after m i h k =
    elim (Bool-cases (leb max_sent_queue (length (b ∷ before ++ n ∷ after)))) [
      | inl full ↦ (before, h.1, rw full (append_assoc before (n ∷ after) (m ∷ [])))
      | inr space ↦ (b ∷ before, h, rw space (append_assoc (b ∷ before) (n ∷ after) (m ∷ [])))
    ]

enqueue_all-others :
    (before : List Node) (n : Node) (after ms : List Node) (i : Text)
    → AreOthers i before
    → length after + length ms < max_sent_queue
    → (rest : List Node) × AreOthers i rest
      × (enqueue_all (before ++ n ∷ after) ms ≡ rest ++ n ∷ (after ++ ms))
unfolding enqueue_all
enqueue_all-others before n after [] i h k = (before, h, rw (append-nil after) refl)
enqueue_all-others before n after (m ∷ ms) i h k =
    let (next, others, one) = enqueue-others before n after m i h (omega arith) in
    let (rest, others_left, all_sent) =
      enqueue_all-others next n (after ++ m ∷ []) ms i others
        (omega (arith, length-append after (m ∷ []))) in
    (
      rest,
      others_left,
      ap (λ q. enqueue_all q ms) one
          ∙ all_sent
          ∙ ap (λ l. rest ++ n ∷ l) (append_assoc after (m ∷ []) ms),
    )

enqueue-first :
    (queue : List Node) (n : Node) (i : Text)
    → AreOthers i queue
    → (rest : List Node) × AreOthers i rest × (enqueue_sent_message queue n ≡ rest ++ n ∷ [])
unfolding enqueue_sent_message
enqueue-first [] n i h = ([], tt, refl)
enqueue-first (m ∷ queue) n i h = elim (Bool-cases (leb max_sent_queue (length (m ∷ queue)))) [
  | inl full ↦ (queue, h.1, rw full refl)
  | inr space ↦ (m ∷ queue, h, rw space refl)
]

-- A message that was sent, when no other in the queue had its id, is found by its id until 256 more
-- were sent, whatever their ids.
pub get_enqueued_message-enqueue_all :
    (queue : List Node) (n : Node) (ms : List Node) (i : Text) (keep : Bool)
    → AreOthers i queue
    → has_id i n ≡ true
    → length ms < max_sent_queue
    → (get_enqueued_message i keep (enqueue_all (enqueue_sent_message queue n) ms)).0 ≡ some n
get_enqueued_message-enqueue_all queue n ms i keep h k l =
    let (first, others, one) = enqueue-first queue n i h in
    let (rest, others_left, all_sent) = enqueue_all-others first n [] ms i others (omega arith) in
    ap (λ q. (get_enqueued_message i keep (enqueue_all q ms)).0) one
    ∙ ap (λ q. (get_enqueued_message i keep q).0) all_sent
    ∙ ap (λ r. r.0) (get-append i keep rest ms n others_left k)
