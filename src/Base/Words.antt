-- ===== src/Base/Words.antt =====
-- Bytes, C strings and 32-bit words in memory, lowest byte first. A byte is a number below 256.
use Prim.Native.Nat.{ℕ, zero, suc, ◌+◌, ◌-◌, ◌*◌, ◌/◌, ◌%◌, ◌^◌, ◌<◌, ◌≤◌}
use Prim.Native.Char.{code}
use Prim.Native.String.{String}
use mathlib.Core.Path.{◌≡◌, refl, ap}
use mathlib.Core.Logic.{◌↔◌, inl, inr}
use mathlib.Core.Bool.{Bool, true, false, ◌&&◌, ◌||◌, not}
use mathlib.Core.Option
use mathlib.Core.Option.{Option, none, some}
use mathlib.Core.List.{List, [], ◌∷◌, ◌++◌, append-nil}
use native.Mathlib.Omega.{arith}
use poco_echo.Base.Tests.{ltb, ◌==◌, if◌then◌else◌, Option-cases}
use poco_echo.Base.Lists.{
  length, take, drop, replicate, All, drop-all, length-append, take-append, length-drop,
}

abbrev pub Bytes : Type 0
Bytes = List ℕ

-- The bytes of an ASCII text.
abbrev pub codes : String → Bytes
codes String.[] = []
codes (String.◌∷◌ c s) = code c ∷ codes s

abbrev pub bytes_eq : Bytes → Bytes → Bool
bytes_eq [] [] = true
bytes_eq [] (y ∷ ys) = false
bytes_eq (x ∷ xs) [] = false
bytes_eq (x ∷ xs) (y ∷ ys) = (x == y) && bytes_eq xs ys

pub bytes_eq_iff : (xs ys : Bytes) → (bytes_eq xs ys ≡ true) ↔ (xs ≡ ys)
bytes_eq_iff [] [] = (λ _. refl, λ _. refl)
bytes_eq_iff [] (y ∷ ys) = (λ h. cc, λ h. cc)
bytes_eq_iff (x ∷ xs) [] = (λ h. cc, λ h. cc)
bytes_eq_iff (x ∷ xs) (y ∷ ys) = ground (arith, bytes_eq_iff xs ys)

-- The object representation of a 32-bit word, and the word that the bytes stand for.
abbrev pub bytes32 : ℕ → Bytes
bytes32 n = n % 256 ∷ n / 256 % 256 ∷ n / 65536 % 256 ∷ n / 16777216 % 256 ∷ []

abbrev pub word32 : Bytes → ℕ
word32 [] = 0
word32 (b ∷ bs) = b + 256 * word32 bs

pub word32-bytes32 : (n : ℕ) → n < 2 ^ 32 → word32 (bytes32 n) ≡ n
word32-bytes32 n h = omega arith

-- An `int` is its bit pattern; this is the number that it stands for. `negsuc n` is -(n + 1).
pub data ℤ : Type 0 where
  pos : ℕ → ℤ
  negsuc : ℕ → ℤ

abbrev pub signed32 : ℕ → ℤ
signed32 w = if ltb w (2 ^ 31) then pos w else negsuc (2 ^ 32 - w - 1)

-- The bytes in front of the first NUL, if there is one: what a C string at this place is.
abbrev pub c_string : Bytes → Option Bytes
c_string [] = none
c_string (zero ∷ bs) = some []
c_string (suc b ∷ bs) = Option.map (λ s. suc b ∷ s) (c_string bs)

-- The C string that a buffer holds in which these bytes are followed by a NUL. `strlen` of it is its
-- length.
abbrev pub until_nul : Bytes → Bytes
until_nul [] = []
until_nul (zero ∷ bs) = []
until_nul (suc b ∷ bs) = suc b ∷ until_nul bs

pub length-until_nul-le : (bs : Bytes) → length (until_nul bs) ≤ length bs
length-until_nul-le [] = omega arith
length-until_nul-le (zero ∷ bs) = omega arith
length-until_nul-le (suc b ∷ bs) = omega (arith, length-until_nul-le bs)

-- A text that a C string can hold.
abbrev pub IsText : Bytes → Type 0
IsText = All (λ b. (0 < b) × (b < 256))

pub until_nul_all : (s : Bytes) → IsText s → until_nul s ≡ s
until_nul_all [] h = refl
until_nul_all (zero ∷ s) h = absurd (omega arith)
until_nul_all (suc b ∷ s) h = ap (λ t. suc b ∷ t) (until_nul_all s h.1)

pub c_string-append : (s rest : Bytes) → IsText s → c_string (s ++ (0 ∷ rest)) ≡ some s
c_string-append [] rest h = refl
c_string-append (zero ∷ s) rest h = absurd (omega arith)
c_string-append (suc b ∷ s) rest h = ground (arith, c_string-append s rest)

-- A C string ends at a NUL, wherever it was read from.
pub c_string-split : (m s : Bytes) → c_string m ≡ some s → (rest : Bytes) × (m ≡ s ++ (0 ∷ rest))
c_string-split [] s e = cc
c_string-split (zero ∷ bs) s e = (bs, ground arith)
c_string-split (suc b ∷ bs) s e = elim (Option-cases (c_string bs)) [
  | inl absent ↦ absurd (ground arith)
  | inr (t, found) ↦ let (rest, joined) = c_string-split bs t found in (rest, ground arith)
]

-- A C string ends before the memory that it was read from.
pub c_string-lt : (bs text : Bytes) → c_string bs ≡ some text → length text < length bs
c_string-lt bs text e =
    let (rest, joined) = c_string-split bs text e in
    omega (arith, ap length joined, length-append text (0 ∷ rest))

-- `memcpy` of `bs` to the start of a block.
abbrev pub overlay : Bytes → Bytes → Bytes
overlay block bs = bs ++ drop (length bs) block

-- A block that is filled whole.
pub overlay-full : (block bs : Bytes) → length bs ≡ length block → overlay block bs ≡ bs
overlay-full block bs h = rw (drop-all (length bs) block (omega arith)) (append-nil bs)

-- `strncpy(dst, s, n)`: at most `n` bytes of the text, padded with NUL to `n`.
abbrev pub strncpy : Bytes → Bytes → ℕ → Bytes
strncpy dst s n = overlay dst (take n (s ++ replicate n 0))

-- An `int`, given by its bit pattern, where a `size_t` is wanted: sign extension to 64 bits.
abbrev pub size_of_int : ℕ → ℕ
size_of_int w = if ltb w (2 ^ 31) then w else w + 2 ^ 64 - 2 ^ 32

-- What was read as a C string is one again, with a NUL behind it.
pub c_string-again : (m s rest : Bytes) → c_string m ≡ some s → c_string (s ++ (0 ∷ rest)) ≡ some s
c_string-again [] s rest e = cc
c_string-again (zero ∷ bs) [] rest e = refl
c_string-again (zero ∷ bs) (c ∷ s) rest e = absurd (ground arith)
c_string-again (suc b ∷ bs) s rest e = elim (Option-cases (c_string bs)) [
  | inl absent ↦ absurd (ground arith)
  | inr (t, found) ↦ ground (arith, c_string-again bs t rest found)
]

-- A cut behind the NUL of a text.
pub take-text : (s rest : Bytes) → take (suc (length s)) (s ++ (0 ∷ rest)) ≡ s ++ (0 ∷ [])
take-text [] rest = refl
take-text (b ∷ s) rest = ap (λ t. b ∷ t) (take-text s rest)

-- A text copied with its NUL fills a block of just that size.
pub strncpy-exact :
    (block s : Bytes)
    → length block ≡ suc (length s)
    → strncpy block s (suc (length s)) ≡ s ++ (0 ∷ [])
strncpy-exact block s h =
    rw
      (
        take-text s (replicate (length s) 0),
        drop-all (length (s ++ (0 ∷ []))) block (omega (arith, length-append s (0 ∷ []))),
      )
      (append-nil (s ++ (0 ∷ [])))

-- Whether a text stands in a list.
abbrev pub bytes_elem : Bytes → List Bytes → Bool
bytes_elem a [] = false
bytes_elem a (x ∷ xs) = bytes_eq a x || bytes_elem a xs

-- A list without a text.
abbrev pub bytes_erase : Bytes → List Bytes → List Bytes
bytes_erase a [] = []
bytes_erase a (x ∷ xs) = let rest = bytes_erase a xs in if bytes_eq a x then rest else x ∷ rest

pub bytes_elem-append :
    (a : Bytes) (xs ys : List Bytes)
    → bytes_elem a (xs ++ ys) ≡ (bytes_elem a xs || bytes_elem a ys)
bytes_elem-append a [] ys = refl
bytes_elem-append a (x ∷ xs) ys = ground (arith, bytes_elem-append a xs ys)

pub bytes_elem-erase :
    (a b : Bytes) (xs : List Bytes)
    → bytes_elem a (bytes_erase b xs) ≡ (not (bytes_eq a b) && bytes_elem a xs)
bytes_elem-erase a b [] = ground arith
bytes_elem-erase a b (x ∷ xs) =
    ground (arith, bytes_eq_iff a b, bytes_eq_iff a x, bytes_eq_iff b x, bytes_elem-erase a b xs)

-- A write at an index of a block.
abbrev pub put_at : Bytes → ℕ → ℕ → Bytes
put_at block i c = take i block ++ (c ∷ drop (suc i) block)

-- The copy of a text without its NUL, and the NUL put behind it.
pub put_at-strncpy :
    (block s : Bytes)
    → length block ≡ suc (length s)
    → put_at (strncpy block s (length s)) (length s) 0 ≡ s ++ (0 ∷ [])
put_at-strncpy block s h = rw (
  take-append (length s) s (replicate (length s) 0) refl,
  take-append (length s) s (drop (length s) block) refl,
  drop-all (suc (length s)) (s ++ drop (length s) block)
      (omega (arith, length-append s (drop (length s) block), length-drop (length s) block)),
)
