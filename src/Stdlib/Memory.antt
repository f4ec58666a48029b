-- ===== src/Stdlib/Memory.antt =====
-- The copying loops of common/stdlib.cpp. Memory is a function from addresses to bytes. The ranges
-- do not wrap around the address space, so that pointers are plain numbers.
pub mod Copy
use Prim.Native.Nat.{bit_and}
use uberos.Prelude.{
  ℕ, zero, suc, ◌+◌, ◌-◌, ◌%◌, Bool, true, false, ◌&&◌, not, ◌==◌, leb, if◌then◌else◌,
}

abbrev pub Bytes : Type 0
Bytes = ℕ → ℕ

-- `*p = v`
abbrev pub write : Bytes → ℕ → ℕ → Bytes
write m p v a = if a == p then v else m a

-- `while(bytes--) *d++ = *s++;`
pub copy_up : Bytes → ℕ → ℕ → ℕ → Bytes
copy_up m d s zero = m
copy_up m d s (suc bytes) = copy_up (write m d (m s)) (d + 1) (s + 1) bytes

-- `while(bytes--) *--d = *--s;`
pub copy_down : Bytes → ℕ → ℕ → ℕ → Bytes
copy_down m d s zero = m
copy_down m d s (suc bytes) = copy_down (write m (d - 1) (m (s - 1))) (d - 1) (s - 1) bytes

unfoldable pub memmove : Bytes → ℕ → ℕ → ℕ → Bytes
unfolding copy_up copy_down
memmove m dest src bytes =
    if leb src dest
    then copy_down m (dest + bytes) (src + bytes) bytes
    else copy_up m dest src bytes

pub memcpy_backwards_aligned : Bytes → ℕ → ℕ → ℕ → Bytes
unfolding copy_down
memcpy_backwards_aligned m dest src bytes = copy_down m (dest + bytes) (src + bytes) bytes

-- `*(U64*)d = *(U64*)s`: the eight bytes are read before any is written.
abbrev pub write8 : Bytes → ℕ → ℕ → Bytes
write8 m d s a = if leb d a && leb (a + 1) (d + 8) then m (s + (a - d)) else m a

-- `while((UPtr)s&7)`, at most seven rounds; what is left to copy comes next.
pub align_source : ℕ → (Bytes → ℕ → ℕ → ℕ → Bytes) → Bytes → ℕ → ℕ → ℕ → Bytes
align_source zero go m d s bytes = go m d s bytes
align_source (suc k) go m d s bytes =
    let rest = align_source k go (write m d (m s)) (d + 1) (s + 1) (bytes - 1) in
    if s % 8 == 0 then go m d s bytes else rest

-- `while(bytes>=8)`, then the loop over what is left. `k` is the fuel.
pub copy_blocks : ℕ → Bytes → ℕ → ℕ → ℕ → Bytes
unfolding copy_up
copy_blocks zero m d s bytes = copy_up m d s bytes
copy_blocks (suc k) m d s bytes =
    let rest = copy_blocks k (write8 m d s) (d + 8) (s + 8) (bytes - 8) in
    if leb 8 bytes then rest else copy_up m d s bytes

-- `(UPtr)s&7==(UPtr)d&7`, which the compiler reads as `s & (7==d) & 7`.
abbrev pub same_alignment : ℕ → ℕ → Bool
same_alignment s d = not (bit_and (bit_and s (if d == 7 then 1 else 0)) 7 == 0)

pub memcpy_forwards_aligned : Bytes → ℕ → ℕ → ℕ → Bytes
unfolding align_source copy_blocks copy_up
memcpy_forwards_aligned m dest src bytes =
    if leb 8 bytes && same_alignment src dest
    then align_source 7 (copy_blocks bytes) m dest src bytes
    else copy_up m dest src bytes

pub memcpy_aligned : Bytes → ℕ → ℕ → ℕ → Bytes
unfolding memcpy_forwards_aligned
memcpy_aligned m dest src bytes =
    if dest == src then m else memcpy_forwards_aligned m dest src bytes

-- `bzero`: `while(bytes--) *d++ = 0;`
pub bzero : Bytes → ℕ → ℕ → Bytes
bzero m d zero = m
bzero m d (suc bytes) = bzero (write m d 0) (d + 1) bytes
