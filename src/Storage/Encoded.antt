-- ===== src/Storage/Encoded.antt =====
-- serialization/src/encoded.rs: bytes that encode a value of a type.
use rpi4_usb_io_breaker.Base.{Bool, true, false, if◌then◌else◌, Option, none, some, ◌≡◌, refl}
use rpi4_usb_io_breaker.Core.Data.{Data}
use rpi4_usb_io_breaker.Core.Error.{Result, ok, panicked}

-- `Codec` of parity-scale-codec: `encode`, and `decode_all`, which fails on bytes that are no encoding
pub record Codec (A : Type 0) : Type 0 where
  pub encode : A → Data
  pub decode_all : Data → Option A

-- what parity-scale-codec documents: an encoding decodes to the value that it encodes
abbrev pub RoundTrips : {A : Type 0} → Codec A → Type 0
RoundTrips {A = A} codec = (a : A) → codec.decode_all (codec.encode a) ≡ some a

-- `Encoded<_, T>`, of which the type is not kept
pub record Encoded (A : Type 0) : Type 0 where
  pub bytes : Data

expect : {A : Type 0} → Option A → Result A
expect none = panicked
expect (some a) = ok a

module _ {A : Type 0} (codec : Codec A) where
  -- `Encoded::new`
  unfoldable pub new : A → Encoded A
  new obj = record { bytes = codec.encode obj }

  -- `Encoded::from_bytes_unchecked`: the check is a debug assertion
  unfoldable pub from_bytes_unchecked : Bool → Data → Result (Encoded A)
  from_bytes_unchecked debug_assertions bytes =
      if debug_assertions
      then elim (codec.decode_all bytes) [
        | none ↦ panicked
        | some _ ↦ ok (record { bytes = bytes })
      ]
      else ok (record { bytes = bytes })

  -- `Encoded::decode`
  unfoldable pub decode : Encoded A → Result A
  unfolding expect
  decode e = expect (codec.decode_all e.bytes)

  module _ (law : RoundTrips codec) where
    -- With or without the debug assertions, an encoding is accepted, as the encoded value.
    pub from_bytes_unchecked-encode :
        (debug : Bool) (a : A) → from_bytes_unchecked debug (codec.encode a) ≡ ok (new a)
    unfolding from_bytes_unchecked new
    from_bytes_unchecked-encode true a = rw (law a) refl
    from_bytes_unchecked-encode false a = refl

    -- Decoding what was encoded gives the value.
    pub decode-new : (a : A) → decode (new a) ≡ ok a
    unfolding decode new
    decode-new a = rw (law a) refl
