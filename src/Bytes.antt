-- ===== src/Bytes.antt =====
-- `BinaryWriter` (src/utils/binary_writer.cpp) and the reads of a stream of bytes (`read_pod` and
-- `read_string` of src/lsmtree/sstable/metadata/sstable_manifest.cpp). A stream is the list of its bytes.
use native.Mathlib.Omega.{pow_step}
use htap_storage_lsm_tree.Common.{
  ℕ, zero, suc, ◌+◌, ◌-◌, ◌*◌, ◌/◌, ◌%◌, ◌^◌, ◌<◌, ◌≡◌, refl, ap, subst, false, length-append,
  take-length, drop-length, String, List, [], ◌∷◌, ◌++◌, length, take, drop, ltb, if◌then◌else◌,
  Result, ok, err, runtime_error, ℤ, pos, negsuc, IsInt64, arith, and_then,
}

-- The bytes of an unsigned integer of the given width, the least significant first.
unfoldable pub write_le : ℕ → ℕ → List ℕ
write_le zero n = []
write_le (suc w) n = n % 256 ∷ write_le w (n / 256)

abbrev pub write_u8 : ℕ → List ℕ
write_u8 n = write_le 1 n

abbrev pub write_u16 : ℕ → List ℕ
write_u16 n = write_le 2 n

abbrev pub write_u32 : ℕ → List ℕ
write_u32 n = write_le 4 n

abbrev pub write_u64 : ℕ → List ℕ
write_u64 n = write_le 8 n

-- `std::bit_cast<uint64_t>(value)`, and back
unfoldable pub to_u64 : ℤ → ℕ
to_u64 (pos n) = n
to_u64 (negsuc n) = 18446744073709551615 - n

unfoldable pub from_u64 : ℕ → ℤ
from_u64 n = if ltb n 9223372036854775808 then pos n else negsuc (18446744073709551615 - n)

abbrev pub write_i64 : ℤ → List ℕ
write_i64 k = write_le 8 (to_u64 k)

unfoldable pub read_le : List ℕ → ℕ
read_le [] = 0
read_le (b ∷ bs) = b + 256 * read_le bs

-- `in.read` of `n` bytes, with the check of `gcount`: the bytes read and the rest of the stream.
unfoldable pub read_bytes : String → ℕ → List ℕ → Result (List ℕ × List ℕ)
read_bytes message n in_ =
    if ltb (length in_) n then err (runtime_error message) else ok (take n in_, drop n in_)

unfoldable pub read_pod : ℕ → List ℕ → Result (ℕ × List ℕ)
read_pod width in_ =
    and_then (λ p. ok (read_le p.0, p.1)) (read_bytes "Manifest: unexpected end of file" width in_)

pub length-write_le : (w n : ℕ) → length (write_le w n) ≡ w
unfolding write_le
length-write_le zero n = refl
length-write_le (suc w) n = ap suc (length-write_le w (n / 256))

pub read_le-write_le : (w n : ℕ) → n < 256 ^ w → read_le (write_le w n) ≡ n
unfolding write_le read_le
read_le-write_le zero n h = ground arith
read_le-write_le (suc w) n h =
    omega (arith, read_le-write_le w (n / 256) (omega (arith, pow_step 256 w)))

pub read_bytes-append :
    (message : String) (bs rest : List ℕ)
    → read_bytes message (length bs) (bs ++ rest) ≡ ok (bs, rest)
unfolding read_bytes
read_bytes-append message bs rest =
    let long : ltb (length (bs ++ rest)) (length bs) ≡ false =
      ground (arith, length-append bs rest) in
    simp (long, take-length bs rest, drop-length bs rest) refl

pub read_pod-write_le :
    (w n : ℕ) (rest : List ℕ) → n < 256 ^ w → read_pod w (write_le w n ++ rest) ≡ ok (n, rest)
unfolding read_pod
read_pod-write_le w n rest h =
    let read : read_bytes "Manifest: unexpected end of file" w (write_le w n ++ rest)
        ≡ ok (write_le w n, rest) =
      subst
        (λ k.
          read_bytes "Manifest: unexpected end of file" k (write_le w n ++ rest)
          ≡ ok (write_le w n, rest))
        (length-write_le w n)
        (read_bytes-append "Manifest: unexpected end of file" (write_le w n) rest) in
    simp (read, read_le-write_le w n h) refl

pub from_u64-to_u64 : (k : ℤ) → IsInt64 k → from_u64 (to_u64 k) ≡ k
unfolding from_u64 to_u64
from_u64-to_u64 (pos n) h = ground arith
from_u64-to_u64 (negsuc n) h = ground arith

pub to_u64-lt : (k : ℤ) → IsInt64 k → to_u64 k < 256 ^ 8
unfolding to_u64
to_u64-lt (pos n) h = omega arith
to_u64-lt (negsuc n) h = omega arith
