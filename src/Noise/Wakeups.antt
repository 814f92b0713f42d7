-- ===== src/Noise/Wakeups.antt =====
-- Readers that wait when a stream is cancelled.
use zowpy.Prelude.{replicate, ℕ, zero, suc, ◌≡◌, refl, ap, List, [], ◌∷◌}
use zowpy.Result.{cancelled}
use zowpy.Noise.Stream.{reply_of, resume_read, cancel, Stream, Reply, raises, waits}

-- What the readers get that wait in `get` on the read queue, in the order in which they came.
unfoldable pub wake : ℕ → Stream → List Reply
unfolding resume_read
wake zero s = []
wake (suc n) s = let (reply, t) = resume_read s in reply ∷ wake n t

waits-forever : (n : ℕ) (s : Stream) → s.read_queue ≡ [] → wake n s ≡ replicate n waits
unfolding wake resume_read reply_of
waits-forever zero s h = refl
waits-forever (suc n) s h = rw h (ap (λ l. waits ∷ l) (waits-forever n _ refl))

-- Cancelling a stream on whose empty queue readers wait ends the wait of the first reader with the
-- cancellation; every other reader goes on waiting.
pub wake-cancel :
    (n : ℕ) (s : Stream)
    → s.read_queue ≡ []
    → wake (suc n) (cancel s) ≡ raises cancelled ∷ replicate n waits
unfolding wake cancel resume_read reply_of
wake-cancel n s h = rw h (ap (λ l. raises cancelled ∷ l) (waits-forever n _ refl))
