-- ===== src/Store/Examples.antt =====
-- The theorems on the store at a concrete database.
use zowpy.Prelude.{Text, codes, ℕ, ◌*◌, ◌^◌, ◌≡◌, refl, false, Option, none, some, List, [], ◌∷◌}
use zowpy.Result.{value_error, Result, ok, err}
use zowpy.Store.{Rows, new_store, Libraries}
use zowpy.Store.Coherence.{IsLossless}
use zowpy.Store.ReadThrough.{
  store_run, row_run, store_run-row_run, StoreCall, reads, writes, deletes,
}

abbrev parse : Text → Result (Option ℕ)
parse (n ∷ []) = ok (some n)
parse other = err value_error

-- Numbers, each written as one character.
abbrev numbers : Libraries ℕ
numbers = record {
  dumps = λ n. ok (n ∷ []);
  loads = parse;
  deletes = false;
  serialize = λ n. ok [];
}

numbers-IsLossless : IsLossless numbers
numbers-IsLossless = record {
  reads_back = λ v t e. (let same : v ∷ [] ≡ t = cc in rw (← same) refl);
  some_text = λ v e. (let no : v ∷ [] ≡ [] = cc in cc);
}

abbrev some_rows : Rows
some_rows = (codes "username", some (5 ∷ [])) ∷ (codes "password", none) ∷ []

abbrev store_calls : List (StoreCall ℕ)
store_calls =
    reads 0 (codes "username")
    ∷ writes (10 ^ 6) (codes "password") (some 8)
    ∷ reads (10 ^ 9) (codes "password")
    ∷ deletes (codes "username")
    ∷ reads (2 * 10 ^ 9) (codes "username")
    ∷ []

store_run-row_run_example :
    store_run numbers (new_store ℕ (some some_rows)) store_calls
    ≡ row_run numbers (some some_rows) store_calls
store_run-row_run_example =
    store_run-row_run numbers (some some_rows) store_calls numbers-IsLossless
