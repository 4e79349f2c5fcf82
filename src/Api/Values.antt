-- ===== src/Api/Values.antt =====
-- The values of a route's parameters, `UrlSegmentValue` of wallet/src/wallet-api/routes.rs. A string is
-- its bytes.
use cape.Base.{
  ℕ, ◌+◌, ◌-◌, ◌*◌, ◌%◌, Bool, true, false, ◌&&◌, Option, none, some, [], ◌∷◌, Outcome, ok, err,
  ◌==◌, nat_eq, list_eq, leb, ltb, if◌then◌else◌,
}
use cape.Cap.{Bytes, u64_mod, u128_mod}

-- `CapeAPIError`; `other` stands for an error of another library, which `?` passes on.
pub data CapeApiError : Type 0 where
  wallet_failed open_wallet missing_wallet param tag deserialize_failed internal other :
      CapeApiError

abbrev pub Call : Type 0 → Type 0
Call A = Outcome CapeApiError A

unfoldable pub status : CapeApiError → ℕ
status wallet_failed = 500
status internal = 500
status other = 500
status e = 400

pub record TaggedBase64 : Type 0 where
  pub tag : Bytes
  pub value : Bytes

pub data UrlSegmentType : Type 0 where
  boolean_type hexadecimal_type integer_type tagged_base64_type base64_type literal_type :
      UrlSegmentType

pub data UrlSegmentValue : Type 0 where
  boolean : Bool → UrlSegmentValue
  hexadecimal : ℕ → UrlSegmentValue
  integer : ℕ → UrlSegmentValue
  identifier : TaggedBase64 → UrlSegmentValue
  base64 : Bytes → UrlSegmentValue
  unparsed : Bytes → UrlSegmentValue
  parse_failed : UrlSegmentType → Bytes → UrlSegmentValue
  literal : Bytes → UrlSegmentValue

-- What is called of tagged_base64, base64 and the standard library's check of UTF-8.
pub record Encodings : Type 0 where
  pub parse_tagged : Bytes → Option TaggedBase64
  pub to_tagged_string : TaggedBase64 → Bytes
  pub decode_base64 : Bytes → Option Bytes
  pub is_utf8 : Bytes → Bool

-- The digit of a byte, if it is one below the radix.
abbrev below : ℕ → ℕ → Option ℕ
below radix d = if ltb d radix then some d else none

abbrev digit : ℕ → ℕ → Option ℕ
digit radix b =
    if leb 48 b && leb b 57
    then below radix (b - 48)
    else if leb 65 b && leb b 70
    then below radix (b - 55)
    else if leb 97 b && leb b 102
    then below radix (b - 87)
    else none

-- `from_str_radix` of `u128`: the digits after those that gave the number so far.
unfoldable pub digits_from : ℕ → ℕ → Bytes → Option ℕ
digits_from radix n [] = some n
digits_from radix n (b ∷ bytes) = elim (digit radix b) [
  | none ↦ none
  | some d ↦
      (let next = n * radix + d in
        let rest = digits_from radix next bytes in if ltb next u128_mod then rest else none)
]

-- A sign may come first, and one digit has to.
unfoldable pub from_str_radix : ℕ → Bytes → Option ℕ
from_str_radix radix [] = none
from_str_radix radix (b ∷ []) = digits_from radix 0 (b ∷ [])
from_str_radix radix (b ∷ bytes) =
    if b == 43 then digits_from radix 0 bytes else digits_from radix 0 (b ∷ bytes)

-- "true" and "false"
unfoldable pub parse_bool : Bytes → Option Bool
parse_bool value =
    if value == (116 ∷ 114 ∷ 117 ∷ 101 ∷ [])
    then some true
    else if value == (102 ∷ 97 ∷ 108 ∷ 115 ∷ 101 ∷ [])
    then some false
    else none

module _ (encodings : Encodings) where
  abbrev mapped : {A : Type 0} → (A → UrlSegmentValue) → Option A → Option UrlSegmentValue
  mapped make none = none
  mapped make (some a) = some (make a)

  unfoldable pub parse : UrlSegmentType → Bytes → Option UrlSegmentValue
  parse boolean_type value = mapped boolean (parse_bool value)
  parse hexadecimal_type value = mapped hexadecimal (from_str_radix 16 value)
  parse integer_type value = mapped integer (from_str_radix 10 value)
  parse tagged_base64_type value = mapped identifier (encodings.parse_tagged value)
  parse base64_type value = mapped base64 (encodings.decode_base64 value)
  parse literal_type value = some (literal value)

  unfoldable pub as_string : UrlSegmentValue → Call Bytes
  as_string (literal s) = ok s
  as_string (identifier tb64) = if encodings.is_utf8 tb64.value then ok tb64.value else err other
  as_string (base64 bytes) = if encodings.is_utf8 bytes then ok bytes else err other
  as_string v = err param

unfoldable pub as_boolean : UrlSegmentValue → Call Bool
as_boolean (boolean b) = ok b
as_boolean v = err param

unfoldable pub as_u64 : UrlSegmentValue → Call ℕ
as_u64 (integer i) = ok (i % u64_mod)
as_u64 v = err param

unfoldable pub as_u128 : UrlSegmentValue → Call ℕ
as_u128 (integer i) = ok i
as_u128 v = err param

unfoldable pub as_identifier : UrlSegmentValue → Call TaggedBase64
as_identifier (identifier i) = ok i
as_identifier v = err param

unfoldable pub as_base64 : UrlSegmentValue → Call Bytes
as_base64 (base64 i) = ok i
as_base64 v = err param
