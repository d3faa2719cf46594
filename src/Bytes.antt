-- ===== src/Bytes.antt =====
-- Byte buffers: `std::vector<char>` and `char[]` as lists of bytes, with the two accesses that the
-- kernel makes through a pointer into them. `none` is an access out of bounds.
use linux_tcp_servers.Common.{
  ℕ, ◌+◌, ◌-◌, ◌%◌, ◌^◌, ◌≤◌, ◌≡◌, ◌∙◌, List, ◌++◌, Option, none, some, arith, leb, if◌then◌else◌,
  length, take, drop, length-append, length-take, length-drop, take-append, take-append_le,
  take-take, append_assoc,
}

-- `size_t` sums and differences.
abbrev pub add_size : ℕ → ℕ → ℕ
add_size a b = (a + b) % 2 ^ 64

abbrev pub sub_size : ℕ → ℕ → ℕ
sub_size a b = (a + 2 ^ 64 - b) % 2 ^ 64

-- The bytes are stored from index `at` on.
unfoldable pub overwrite : List ℕ → ℕ → List ℕ → Option (List ℕ)
overwrite buf at bytes =
    if leb (at + length bytes) (length buf)
    then some (take at buf ++ (bytes ++ drop (at + length bytes) buf))
    else none

-- `count` bytes are loaded from index `at` on.
unfoldable pub slice : List ℕ → ℕ → ℕ → Option (List ℕ)
slice buf at count = if leb (at + count) (length buf) then some (take count (drop at buf)) else none

pub overwrite-fits :
    (buf bytes : List ℕ) (at : ℕ) {buf' : List ℕ}
    → overwrite buf at bytes ≡ some buf'
    → at + length bytes ≤ length buf
unfolding overwrite
overwrite-fits buf bytes at e = ground arith

overwrite-some :
    (buf bytes : List ℕ) (at : ℕ) {buf' : List ℕ}
    → overwrite buf at bytes ≡ some buf'
    → take at buf ++ (bytes ++ drop (at + length bytes) buf) ≡ buf'
unfolding overwrite
overwrite-some buf bytes at e = ground arith

-- The buffer keeps its size.
pub length-overwrite :
    (buf bytes : List ℕ) (at : ℕ) {buf' : List ℕ}
    → overwrite buf at bytes ≡ some buf'
    → length buf' ≡ length buf
length-overwrite buf bytes at e = rw (← overwrite-some buf bytes at e) (
    omega (
      arith,
      overwrite-fits buf bytes at e,
      length-append (take at buf) (bytes ++ drop (at + length bytes) buf),
      length-append bytes (drop (at + length bytes) buf),
      length-take at buf,
      length-drop (at + length bytes) buf,
    ))

-- The stored bytes stand behind what was there before them.
pub take-overwrite :
    (buf bytes : List ℕ) (at : ℕ) {buf' : List ℕ}
    → overwrite buf at bytes ≡ some buf'
    → take (at + length bytes) buf' ≡ take at buf ++ bytes
take-overwrite buf bytes at e =
    rw (← overwrite-some buf bytes at e, ← append_assoc)
      (take-append (at + length bytes) (take at buf ++ bytes) (drop (at + length bytes) buf) (
        omega (
          arith,
          overwrite-fits buf bytes at e,
          length-append (take at buf) bytes,
          length-take at buf,
        )))

-- What stands before them is as it was.
pub take-overwrite_before :
    (buf bytes : List ℕ) (n at : ℕ) {buf' : List ℕ}
    → overwrite buf at bytes ≡ some buf'
    → n ≤ at
    → take n buf' ≡ take n buf
take-overwrite_before buf bytes n at e h = rw (← overwrite-some buf bytes at e) (
    take-append_le n (take at buf) _
      (omega (arith, overwrite-fits buf bytes at e, length-take at buf))
    ∙ take-take n at buf h)

-- A load within bounds succeeds.
pub slice-eq-some :
    (buf : List ℕ) (at count : ℕ)
    → at + count ≤ length buf
    → slice buf at count ≡ some (take count (drop at buf))
unfolding slice
slice-eq-some buf at count h = ground arith
