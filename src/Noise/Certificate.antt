-- ===== src/Noise/Certificate.antt =====
-- `AsyncCertMan.is_valid` of zowpy/noise/certman/certman.py. The protobuf messages are a parameter; a
-- time is in microseconds, a time of a certificate in seconds.
use zowpy.Prelude.{
  ltb, if◌then◌else◌, text_eq, ℕ, ◌*◌, ◌^◌, Bool, false, not, ◌||◌, Option, none, some,
}
use zowpy.Result.{attribute_error, decode_error, Result, ok, err}
use zowpy.Noise.Stream.{Segment}

-- What is read of a chain, and of the details of its leaf. A field that is not set is empty or 0.
pub record Chain : Type 0 where
  pub has_leaf : Bool
  pub details : Segment

pub record Details : Type 0 where
  pub not_before : ℕ
  pub not_after : ℕ
  pub key : Segment

pub record Certificates : Type 0 where
  pub parse_chain : Segment → Option Chain
  pub parse_details : Segment → Option Details

module _ {Key : Type 0} (certificates : Certificates) (data_of : Key → Segment) where
  -- `cert_details.key != rs.data`, and what is returned then. There is no `data` of None.
  unfoldable pub check_key : Option Key → Details → Result Bool
  check_key none details = err attribute_error
  check_key (some rs) details = ok (text_eq details.key (data_of rs))

  unfoldable pub check_leaf : ℕ → Option Key → Bool → Details → Result Bool
  unfolding check_key
  check_leaf now rs has_leaf details =
      if not has_leaf
      then ok false
      else if ltb now (details.not_before * 10 ^ 6) || ltb (details.not_after * 10 ^ 6) now
      then ok false
      else check_key rs details

  unfoldable pub is_valid : ℕ → Option Key → Segment → Result Bool
  unfolding check_leaf
  is_valid now rs certificate_data = elim (certificates.parse_chain certificate_data) [
    | none ↦ err decode_error
    | some chain ↦ elim (certificates.parse_details chain.details) [
      | none ↦ err decode_error
      | some details ↦ check_leaf now rs chain.has_leaf details
    ]
  ]
