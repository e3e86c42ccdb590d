-- ===== src/Syscall/Memory.antt =====
-- The memory of a process, as `copy_to_user`, `put_user` and `get_user` reach it. A byte that is not
-- mapped is `none`.
use lunatik_ng.Base.{
  ℕ, zero, suc, ◌+◌, ◌*◌, ◌≤◌, ◌<◌, ◌≡◌, ◌⊎◌, refl, Bool, true, false, Option, none, some, List, [],
  ◌∷◌, ℤ, pos, negsuc, ◌==◌, length, if◌then◌else◌, arith, Option-cases, inl, inr,
}
use lunatik_ng.Kernel.{update}

abbrev pub User : Type 0
User = ℕ → Option ℕ

-- `-EFAULT`
abbrev pub efault : ℤ
efault = negsuc 13

-- `copy_to_user`: how many bytes were not copied, and the memory.
unfoldable pub copy_to_user : (dst : ℕ) → List ℕ → User → ℕ × User
copy_to_user dst [] m = (0, m)
copy_to_user dst (b ∷ bs) m = elim (m dst) [
  | none ↦ (suc (length bs), m)
  | some _ ↦ copy_to_user (dst + 1) bs (update m dst (some b))
]

-- `put_user` stores all of its bytes or none.
unfoldable pub put_user : (dst : ℕ) → List ℕ → User → ℤ × User
unfolding copy_to_user
put_user dst bs m =
    let (n, m') = copy_to_user dst bs m in if n == 0 then (pos 0, m') else (efault, m)

-- The little-endian number in `w` bytes, if all are mapped.
unfoldable pub get_user : (w src : ℕ) → User → Option ℕ
get_user zero src m = some 0
get_user (suc w) src m = elim (m src) [
  | none ↦ none
  | some b ↦ elim (get_user w (src + 1) m) [ none ↦ none | some n ↦ some (b + 256 * n) ]
]

-- `copy_from_user`, where it copies all of the `n` bytes.
unfoldable pub copy_from_user : (n src : ℕ) → User → Option (List ℕ)
copy_from_user zero src m = some []
copy_from_user (suc n) src m = elim (m src) [
  | none ↦ none
  | some b ↦ elim (copy_from_user n (src + 1) m) [ none ↦ none | some bs ↦ some (b ∷ bs) ]
]

-- `p` is none of the `n` addresses from `dst` on.
abbrev pub Outside : ℕ → ℕ → ℕ → Type 0
Outside p dst n = (p < dst) ⊎ (dst + n ≤ p)

pub copy_to_user-Outside :
    (dst : ℕ) (bs : List ℕ) (m : User) (p : ℕ)
    → Outside p dst (length bs)
    → (copy_to_user dst bs m).1 p ≡ m p
unfolding copy_to_user
copy_to_user-Outside dst [] m p out = refl
copy_to_user-Outside dst (b ∷ bs) m p out =
    ground (arith, copy_to_user-Outside (dst + 1) bs (update m dst (some b)) p)

pub copy_to_user-le : (dst : ℕ) (bs : List ℕ) (m : User) → (copy_to_user dst bs m).0 ≤ length bs
unfolding copy_to_user
copy_to_user-le dst [] m = omega arith
copy_to_user-le dst (b ∷ bs) m =
    ground (arith, copy_to_user-le (dst + 1) bs (update m dst (some b)))

pub put_user-Outside :
    (dst : ℕ) (bs : List ℕ) (m : User) (p : ℕ)
    → Outside p dst (length bs)
    → (put_user dst bs m).1 p ≡ m p
unfolding put_user
put_user-Outside dst bs m p out = ground (arith, copy_to_user-Outside dst bs m p)

abbrev pub mapped : Option ℕ → Bool
mapped none = false
mapped (some _) = true

pub copy_to_user-mapped :
    (dst : ℕ) (bs : List ℕ) (m : User) (p : ℕ) → mapped ((copy_to_user dst bs m).1 p) ≡ mapped (m p)
unfolding copy_to_user
copy_to_user-mapped dst [] m p = refl
copy_to_user-mapped dst (b ∷ bs) m p =
    ground (arith, copy_to_user-mapped (dst + 1) bs (update m dst (some b)) p)

pub put_user-mapped :
    (dst : ℕ) (bs : List ℕ) (m : User) (p : ℕ) → mapped ((put_user dst bs m).1 p) ≡ mapped (m p)
unfolding put_user
put_user-mapped dst bs m p = ground (arith, copy_to_user-mapped dst bs m p)

-- Where the first byte is mapped, something is copied.
pub copy_to_user-lt :
    (dst : ℕ) (bs : List ℕ) (m : User)
    → mapped (m dst) ≡ true
    → 0 < length bs
    → (copy_to_user dst bs m).0 < length bs
unfolding copy_to_user
copy_to_user-lt dst [] m first h = absurd (omega arith)
copy_to_user-lt dst (b ∷ bs) m first h =
    ground (arith, copy_to_user-le (dst + 1) bs (update m dst (some b)))

pub length-copy_from_user :
    (n src : ℕ) (m : User) (bs : List ℕ) → copy_from_user n src m ≡ some bs → length bs ≡ n
unfolding copy_from_user
length-copy_from_user zero src m bs e = ground arith
length-copy_from_user (suc n) src m bs e = elim (Option-cases (copy_from_user n (src + 1) m)) [
  | inl short ↦ ground arith
  | inr (bs', e') ↦ ground (arith, length-copy_from_user n (src + 1) m bs' e')
]
