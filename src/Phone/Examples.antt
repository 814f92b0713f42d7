-- ===== src/Phone/Examples.antt =====
-- The theorems on phone numbers at concrete inputs.
use zowpy.Prelude.{codes, refl, [], ◌∷◌, arith}
use zowpy.Phone.Codes.{digits_of, get_country_code, get_country_code-IsCodeOf, IsCodeOf}

get_country_code-IsCodeOf_example :
    IsCodeOf (codes "55" ∷ []) (codes "5511") (get_country_code (codes "55" ∷ []) (codes "+55 11"))
unfolding digits_of
get_country_code-IsCodeOf_example =
    get_country_code-IsCodeOf (codes "55" ∷ []) (codes "+55 11") b'5' (codes "511") refl
      (λ e. absurd (omega arith))
