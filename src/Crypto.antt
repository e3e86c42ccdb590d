-- ===== src/Crypto.antt =====
-- The functions of lib/lunatik/bindings/crypto.c, and `lunatik_buf_new` of lib/lunatik/bindings/buffer.c
-- as they call it. The arguments are as `luaL_checkudata` and `luaL_checknumber` give them, which raise
-- errors of their own.
pub mod Outcomes
mod Examples
use lunatik_ng.Base.{
  ℕ, zero, suc, ◌+◌, ◌-◌, ◌%◌, ◌^◌, Bool, true, false, Option, none, some, List, [], ◌∷◌, ℤ, pos,
  negsuc, length, take, ltb, leb, if◌then◌else◌,
}

pub data CryptoError : Type 0 where
  no_hash : CryptoError
  not_positive : CryptoError
  not_enough_memory : CryptoError

-- `overrun` is a write behind the end of a buffer, `too_few_bytes` a hash that is asked for more bytes than
-- its scatter list has, of which the kernel's hash promises nothing.
pub data Outcome : Type 0 where
  lua_error : CryptoError → Outcome
  overrun : Outcome
  too_few_bytes : Outcome
  done : List ℕ → Outcome

abbrev pub filled : ℕ → (ℕ → ℕ) → List ℕ
filled zero bytes = []
filled (suc n) bytes = bytes n ∷ filled n bytes

-- Bytes that are written to the start of a buffer.
unfoldable pub write : (buf bytes : List ℕ) → Option (List ℕ)
write buf [] = some buf
write [] (b ∷ bs) = none
write (x ∷ xs) (b ∷ bs) = elim (write xs bs) [ none ↦ none | some ys ↦ some (b ∷ ys) ]

-- The conversion of a `long` to an `int`: the low 32 bits.
unfoldable pub low_int : (low : ℕ) → ℤ
low_int low = if ltb low (2 ^ 31) then pos low else negsuc (2 ^ 32 - low - 1)

unfoldable pub to_int : ℤ → ℤ
unfolding low_int
to_int (pos n) = low_int (n % 2 ^ 32)
to_int (negsuc n) = low_int (2 ^ 32 - 1 - n % 2 ^ 32)

-- `memory` says whether `lua_newuserdata` gets the memory; if not, it raises an error. A size that is
-- negative as an integer is too big as a `size_t`. `junk` is what the memory has in it.
module _ (memory : Bool) (junk : ℕ → ℕ) where
  unfoldable pub lunatik_buf_new : (size : ℤ) → Option (List ℕ)
  lunatik_buf_new (pos size) = if memory then some (filled size junk) else none
  lunatik_buf_new (negsuc size) = none

  written : Option (List ℕ) → Outcome
  written none = overrun
  written (some buf) = done buf

  -- `get_random_bytes(buf, n)`, where the kernel's bytes are `random`.
  fill_random : (n : ℕ) → (random : ℕ → ℕ) → Option (List ℕ) → Outcome
  unfolding write written
  fill_random n random none = lua_error not_enough_memory
  fill_random n random (some buf) = written (write buf (filled n random))

  random_buffer : (n : ℤ) → (random : ℕ → ℕ) → Outcome
  unfolding lunatik_buf_new fill_random
  random_buffer (negsuc n) random = lua_error not_positive
  random_buffer (pos n) random = fill_random n random (lunatik_buf_new (pos n))

  unfoldable pub lunatik_get_random_bytes : ℤ → (random : ℕ → ℕ) → Outcome
  unfolding to_int random_buffer
  lunatik_get_random_bytes number random = random_buffer (to_int number) random

  -- `crypto_hash_update` over the `nbytes` first bytes of a buffer; none if it has fewer.
  hashed : (nbytes : ℕ) → List ℕ → Option (List ℕ)
  hashed nbytes buf = if ltb (length buf) nbytes then none else some (take nbytes buf)

  -- The kernel's hash: the size of a digest and the digest of some bytes. `transforms` counts the ones
  -- that are allocated. An error of `lunatik_buf_new` does not come back here.
  module _ (digestsize : ℕ) (digest : List ℕ → List ℕ) where
    into : (result : List ℕ) → Option (List ℕ) → Outcome
    unfolding write written
    into result none = too_few_bytes
    into result (some bytes) = written (write result (digest bytes))

    -- The number of bytes that are hashed is `ARRAY_SIZE(sg)`, the length of the scatter list, 1, so that a
    -- buffer longer than a page makes no difference.
    finish : List ℕ → (transforms : ℕ) → Option (List ℕ) → Outcome × ℕ
    unfolding hashed into
    finish buf transforms none = (lua_error not_enough_memory, transforms)
    finish buf transforms (some result) = (into result (hashed 1 buf), transforms - 1)

    -- `got` says whether `crypto_alloc_hash` succeeds.
    unfoldable pub lunatik_sha1 : (got : Bool) → List ℕ → (transforms : ℕ) → Outcome × ℕ
    unfolding lunatik_buf_new finish
    lunatik_sha1 false buf transforms = (lua_error no_hash, transforms)
    lunatik_sha1 true buf transforms =
        finish buf (transforms + 1) (lunatik_buf_new (pos digestsize))
