-- ===== src/Proto/Observation/RoundTrip.antt =====
-- Bytes on the wire come back as they were.
use client_rust_test.Base.{◌≡◌, refl, Bytes, IsByte, All}
use client_rust_test.Proto.Base64.RoundTrip.{b64_decode-b64_encode}
use client_rust_test.Proto.Observation.{bytes_obs, as_slice}

-- What an observation records of a byte string reads back as that string, UTF-8 or not.
pub as_slice-bytes_obs : (v : Bytes) → All IsByte v → as_slice (bytes_obs v) ≡ v
unfolding as_slice bytes_obs
as_slice-bytes_obs v h = rw (b64_decode-b64_encode v h, as_slice) refl
