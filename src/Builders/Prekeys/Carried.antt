-- ===== src/Builders/Prekeys/Carried.antt =====
-- The iq that uploads keys through the encoder and the decoder of zowpy/utils/coder.py.
use zowpy.Prelude.{
  length, length-drop-le, Text, ℕ, suc, ◌^◌, ◌<◌, ◌≡◌, refl, ap, Option, some, List, [], ◌∷◌, map,
  arith,
}
use zowpy.Coder.Node.{Node}
use zowpy.Coder.Dictionary.{TokenDictionary}
use zowpy.Builders.Prekeys.{flush_iq, Prekey, SignedPrekey}
use zowpy.Builders.Prekeys.Flush.{numbered, trimmed, AreSmall, drop-Bytes}
use zowpy.Builders.Prekeys.Published.{
  upload_node, IsFlush-Prepared, announced, payload_of_flush, flush_iq-Prepared, IsFlush,
}
use zowpy.Result.{bind, ok}
use zowpy.Coder.Write.{protocol_node_to_bytes}
use zowpy.Coder.Read.{get_protocol_node}
use zowpy.Coder.RoundTrip.Trees.{decode-encode}
use zowpy.Builders.Prekeys.Sendable.{
  CanUpload-Words, upload_node-Faithful, CanUpload, IsSmallPayload,
}
use zowpy.Builders.Prekeys.Upload.{read_upload}

-- Keys that fit: fewer than 2 ^ 16 prekeys, ids of three bytes, a registration id of four, and keys
-- below 1 MiB.
pub record Fits (signed : SignedPrekey) (prekeys : List Prekey) (identity : List ℕ)
    (registration : ℕ) : Type 0 where
  pub few : length prekeys < 2 ^ 16
  pub small : AreSmall prekeys
  pub signed_id : signed.id < 256 ^ 3
  pub signed_key : length signed.public_key < 2 ^ 20
  pub signature : length signed.signature < 2 ^ 20
  pub identity_key : length identity < 2 ^ 20
  pub registration_id : registration < 256 ^ 4

length-same :
    (es : List (List ℕ × List ℕ)) (ps : List Prekey)
    → map numbered es ≡ map trimmed ps
    → length es ≡ length ps
length-same [] [] h = refl
length-same [] (p ∷ ps) h = absurd cc
length-same (e ∷ es) [] h = absurd cc
length-same (e ∷ es) (p ∷ ps) h = ap suc (length-same es ps cc)

-- For prekeys of different ids, keys that are bytes, sizes that fit and words that can be sent: the iq of
-- a flush is built and encoded, a decoder reads that iq from the bytes, and every key is read off it
-- under its id, in order, with the signed prekey, the identity and the registration id.
pub flush_iq-arrives :
    (decompress : List ℕ → Option (List ℕ)) (d : TokenDictionary) (generated : Text)
    (signed : SignedPrekey) (prekeys : List Prekey) (identity : List ℕ) (registration : ℕ)
    → CanUpload d generated
    → IsFlush signed prekeys identity
    → Fits signed prekeys identity registration
    → (n : Node) × (flush_iq generated signed prekeys identity registration ≡ some n)
      × (bind (protocol_node_to_bytes d n) (get_protocol_node decompress d) ≡ ok (some n))
      × (read_upload n ≡ some (announced signed prekeys identity registration))
flush_iq-arrives decompress d generated signed prekeys identity registration can h fits =
    let p = IsFlush-Prepared signed prekeys identity registration h in
    let f = flush_iq-Prepared generated signed prekeys identity registration p in
    let short = length-same p.stored.entries prekeys p.stored.numbers in
    let small : IsSmallPayload (payload_of_flush p) = record {
      few = omega (arith, short, fits.few);
      keys = p.stored.sizes fits.small;
      identity = omega (arith, length-drop-le 1 identity, fits.identity_key);
      registration = rw (p.registration_id.exact (omega arith) fits.registration_id) (omega arith);
      signed_id = rw (p.signed_id.exact (omega arith) fits.signed_id) (omega arith);
      signed_key = omega (arith, length-drop-le 1 signed.public_key, fits.signed_key);
      signature = fits.signature;
      identity_bytes = drop-Bytes 1 identity h.identity_key;
      registration_bytes = p.registration_id.are_bytes;
      signed_id_bytes = p.signed_id.are_bytes;
      signed_key_bytes = drop-Bytes 1 signed.public_key h.signed_key;
      signature_bytes = h.signature;
    } in
    (
      upload_node generated (payload_of_flush p) 5,
      f.0,
      decode-encode decompress d (upload_node generated (payload_of_flush p) 5)
          (upload_node-Faithful (CanUpload-Words can) (payload_of_flush p) 5 (omega arith) small),
      f.1,
    )
