-- ===== src/Nbf/RoundTrip.antt =====
-- crates/nova-nbf/src/lib.rs: what `encode` wrote, `decode` reads.
pub mod Readers
pub mod Nested
pub mod Documents
pub mod Again
use novabase.Common.{
  ℕ, zero, suc, ◌+◌, ◌-◌, ◌*◌, ◌/◌, ◌%◌, ◌^◌, ◌<◌, ◌≤◌, ◌≡◌, refl, sym, ap, ◌∙◌, Bool, true, false,
  not, ◌&&◌, Option, none, some, List, [], ◌∷◌, ◌++◌, length, arith, ltb, leb, ◌==◌, if◌then◌else◌,
}
use novabase.Common.Int.{ℤ, pos, negsuc}
use novabase.Storage.Bytes.{Bytes}
use novabase.Core.Text.{is_utf8}
use novabase.Core.Value.{
  NovaValue, Values, Document, Fields, null, boolean, int64, float64, string, array, document,
  timestamp, nova_id, no_values, value, with_id, no_fields, field,
}
use novabase.Core.Fields.{Above}
use novabase.Nbf.Encode.{is_nan, nan_bits}

-- A text of the program: UTF-8, with a length of 64 bits.
abbrev pub IsText : Bytes → Type 0
IsText s = (is_utf8 s ≡ true) × (length s < 2 ^ 64)

-- An `i64`
abbrev pub IsInt64 : ℤ → Type 0
IsInt64 (pos n) = n < 2 ^ 63
IsInt64 (negsuc n) = n < 2 ^ 63

-- A value as the types of the source have it: words of 64 bits, UTF-8, ids of 16 bytes, and fields
-- in the order of their keys.
unfoldable mutual
  pub IsValue : NovaValue → Type 0
  IsValue null = Unit {0}
  IsValue (boolean b) = Unit {0}
  IsValue (int64 i) = IsInt64 i
  IsValue (float64 bits) = bits < 2 ^ 64
  IsValue (string s) = IsText s
  IsValue (array vs) = AreValues vs
  IsValue (document d) = IsDocument d
  IsValue (timestamp millis) = IsInt64 millis
  IsValue (nova_id id) = length id ≡ 16

  pub AreValues : Values → Type 0
  AreValues no_values = Unit {0}
  AreValues (value v vs) = IsValue v × AreValues vs

  pub IsDocument : Document → Type 0
  IsDocument (with_id id fs) = (length id ≡ 16) × AreFields fs

  pub AreFields : Fields → Type 0
  AreFields no_fields = Unit {0}
  AreFields (field k v fs) = IsText k × Above k fs × IsValue v × AreFields fs

-- A value whose numbers that are NaN are all `f64::NAN`.
unfoldable mutual
  pub canonical : NovaValue → NovaValue
  canonical null = null
  canonical (boolean b) = boolean b
  canonical (int64 i) = int64 i
  canonical (float64 bits) = float64 (if is_nan bits then nan_bits else bits)
  canonical (string s) = string s
  canonical (array vs) = array (canonical_values vs)
  canonical (document d) = document (canonical_document d)
  canonical (timestamp millis) = timestamp millis
  canonical (nova_id id) = nova_id id

  pub canonical_values : Values → Values
  canonical_values no_values = no_values
  canonical_values (value v vs) = value (canonical v) (canonical_values vs)

  pub canonical_document : Document → Document
  canonical_document (with_id id fs) = with_id id (canonical_fields fs)

  pub canonical_fields : Fields → Fields
  canonical_fields no_fields = no_fields
  canonical_fields (field k v fs) = field k (canonical v) (canonical_fields fs)
