-- ===== src/Sync/Examples.antt =====
-- The theorems on the collection hash at a concrete state.
use zowpy.Prelude.{
  length, replicate, AreBytes, codes, ℕ, zero, suc, ◌+◌, ◌%◌, ◌^◌, ◌<◌, ◌≡◌, refl, ap, some, List,
  [], ◌∷◌, arith,
}
use zowpy.Sync.Words.{pack_words}
use zowpy.Sync.LtHash.{generator, get, mix, finish, HashState}
use zowpy.Sync.Expansion.{IsSha256}
use zowpy.Sync.Laws.{remove-set, IsHash}

-- A stand-in for HMAC with outputs of the right size.
toy_hmac : List ℕ → List ℕ → List ℕ
toy_hmac key message = replicate 32 (length message % 2 ^ 8)

replicate-AreBytes : (n b : ℕ) → b < 2 ^ 8 → AreBytes (replicate n b)
replicate-AreBytes zero b h = tt
replicate-AreBytes (suc n) b h = (h, replicate-AreBytes n b h)

length-replicate : (n b : ℕ) → length (replicate n b) ≡ n
length-replicate zero b = refl
length-replicate (suc n) b = ap suc (length-replicate n b)

toy_hmac-IsSha256 : IsSha256 toy_hmac
unfolding toy_hmac
toy_hmac-IsSha256 = record {
  size = λ key message. length-replicate 32 (length message % 2 ^ 8);
  in_bytes = λ key message. replicate-AreBytes 32 (length message % 2 ^ 8) (omega arith);
}

abbrev zeros : List ℕ
zeros = replicate 128 0

zeros-IsHash : IsHash zeros
unfolding pack_words
zeros-IsHash = record { words = replicate 64 0; packed = refl; count = refl; small = omega arith }

abbrev contacts : HashState
contacts = record { collection = codes "regular"; version = 4; hash = zeros; index_value_map = [] }

remove-set_example :
    (t : HashState) × (finish toy_hmac
        (mix (λ mac. mac) (generator contacts) (7 ∷ []) (9 ∷ 9 ∷ []) 0)
      ≡ some t)
    × (finish toy_hmac (mix (λ mac. mac) (generator t) (7 ∷ []) [] 1)
        ≡ some (record contacts { version = 4 + 2 }))
unfolding get
remove-set_example =
    remove-set toy_hmac toy_hmac-IsSha256 (λ mac. mac) contacts (7 ∷ []) (9 ∷ []) 9 [] zeros-IsHash
      refl
