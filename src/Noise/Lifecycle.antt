-- ===== src/Noise/Lifecycle.antt =====
-- When the protocol is ready to send.
use zowpy.Prelude.{
  if◌then◌else◌, Option-cases, ◌≡◌, refl, ap, ◌∙◌, ◌⊎◌, inl, inr, Bool, true, false, ◌||◌, Option,
  none, some, List, [], ◌∷◌,
}
use zowpy.Result.{Error, runtime_error, Result, ok, err}
use zowpy.Noise.Stream.{Segment}
use zowpy.Noise.Transport.{Ciphers}
use zowpy.Noise.Protocol.{
  new_protocol, is_ready, start, reset_protocol, send_data, receive, Protocol, Performed,
}

module _ (ciphers : Ciphers) (Key : Type 0) where
  pub data ProtocolCall : Type 0 where
    starts : Performed ciphers Key → ProtocolCall
    sends : Segment → ProtocolCall
    receives restarts : ProtocolCall

  after_call : Protocol ciphers Key → ProtocolCall → Protocol ciphers Key
  after_call p (starts performed) = (start ciphers Key p performed).1
  after_call p (sends segment) = (send_data ciphers Key p segment).1
  after_call p receives = (receive ciphers Key p).1
  after_call p restarts = reset_protocol ciphers Key p

  pub after_calls : Protocol ciphers Key → List ProtocolCall → Protocol ciphers Key
  unfolding after_call
  after_calls p [] = p
  after_calls p (c ∷ cs) = after_calls (after_call p c) cs

  abbrev pub succeeds : Performed ciphers Key → Bool
  succeeds performed = elim performed.result [
    | ok (some pair) ↦ true
    | ok none ↦ false
    | err e ↦ false
  ]

  -- Whether a start has succeeded since the last reset.
  pub has_started : Bool → List ProtocolCall → Bool
  has_started before [] = before
  has_started before (starts performed ∷ cs) = has_started (succeeds performed || before) cs
  has_started before (sends segment ∷ cs) = has_started before cs
  has_started before (receives ∷ cs) = has_started before cs
  has_started before (restarts ∷ cs) = has_started false cs

  Result-Option-cases {ℓ} :
      {A : Type ℓ} (r : Result (Option A))
      → ((e : Error) × (r ≡ err e)) ⊎ ((r ≡ ok none) ⊎ ((a : A) × (r ≡ ok (some a))))
  Result-Option-cases (err e) = inl (e, refl)
  Result-Option-cases (ok none) = inr (inl refl)
  Result-Option-cases (ok (some a)) = inr (inr (a, refl))

  start-is_ready :
      (p : Protocol ciphers Key) (performed : Performed ciphers Key)
      → is_ready ciphers Key (start ciphers Key p performed).1
        ≡ (succeeds performed || is_ready ciphers Key p)
  unfolding start
  start-is_ready p performed = elim (Result-Option-cases performed.result) [
    | inl (e, failed) ↦ rw (failed, start) refl
    | inr (inl none_made) ↦ rw (none_made, start) refl
    | inr (inr (pair, made)) ↦ rw (made, start) refl
  ]

  send_data-is_ready :
      (p : Protocol ciphers Key) (segment : Segment)
      → is_ready ciphers Key (send_data ciphers Key p segment).1 ≡ is_ready ciphers Key p
  unfolding send_data
  send_data-is_ready p segment = elim (Option-cases p.transport) [
    | inl idle ↦ rw idle refl
    | inr (t, there) ↦ rw there refl
  ]

  receive-is_ready :
      (p : Protocol ciphers Key)
      → is_ready ciphers Key (receive ciphers Key p).1 ≡ is_ready ciphers Key p
  unfolding receive
  receive-is_ready p = elim (Option-cases p.transport) [
    | inl idle ↦ rw idle refl
    | inr (t, there) ↦ rw there refl
  ]

  after_calls-is_ready :
      (p : Protocol ciphers Key) (cs : List ProtocolCall)
      → is_ready ciphers Key (after_calls p cs) ≡ has_started (is_ready ciphers Key p) cs
  unfolding after_calls has_started after_call
  after_calls-is_ready p [] = refl
  after_calls-is_ready p (starts performed ∷ cs) =
      after_calls-is_ready (start ciphers Key p performed).1 cs
      ∙ ap (λ b. has_started b cs) (start-is_ready p performed)
  after_calls-is_ready p (sends segment ∷ cs) =
      after_calls-is_ready (send_data ciphers Key p segment).1 cs
      ∙ ap (λ b. has_started b cs) (send_data-is_ready p segment)
  after_calls-is_ready p (receives ∷ cs) =
      after_calls-is_ready (receive ciphers Key p).1 cs
      ∙ ap (λ b. has_started b cs) (receive-is_ready p)
  after_calls-is_ready p (restarts ∷ cs) =
      after_calls-is_ready (reset_protocol ciphers Key p) cs
      ∙ ap (λ b. has_started b cs) (unfold reset_protocol in refl)

  send_data-result :
      (p : Protocol ciphers Key) (segment : Segment)
      → (send_data ciphers Key p segment).0
        ≡ (if is_ready ciphers Key p then ok tt else err runtime_error)
  unfolding send_data
  send_data-result p segment = elim (Option-cases p.transport) [
    | inl idle ↦ rw idle refl
    | inr (t, there) ↦ rw there refl
  ]

  -- After any calls, `send` works if a start has succeeded since the last reset, and raises
  -- RuntimeError if none has.
  pub send_data-after_calls :
      (cs : List ProtocolCall) (segment : Segment)
      → (send_data ciphers Key (after_calls (new_protocol ciphers Key) cs) segment).0
        ≡ (if has_started false cs then ok tt else err runtime_error)
  send_data-after_calls cs segment =
      send_data-result (after_calls (new_protocol ciphers Key) cs) segment
      ∙ ap (λ b. if b then ok tt else err runtime_error)
          (after_calls-is_ready (new_protocol ciphers Key) cs)
