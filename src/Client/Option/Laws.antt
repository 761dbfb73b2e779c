-- ===== src/Client/Option/Laws.antt =====
-- Which command lines the client takes, and what it keeps of them.
use native.Mathlib.Nat.{pow-suc}
use poco_echo.Base.{
  false, ℕ, zero, suc, ◌+◌, ◌-◌, ◌*◌, ◌/◌, ◌%◌, ◌^◌, ◌<◌, ◌≡◌, refl, ◌∙◌, ltb, leb, if◌then◌else◌,
  Bool, true, ◌&&◌, Bool-cases, inl, inr, none, some, Option, Option-cases, Outcome, or_fault,
  bad_alloc, ◌>>=◌, List, [], ◌∷◌, ◌++◌, length, Bytes, done, Ensures, Ensures-step, Ensures-done,
  arith, ℤ, pos, put_at-strncpy,
}
use poco_echo.Poco.{Memory, IsMemory, new_array}
use poco_echo.Client.Option.{Options, all_digits, decimal, valid_port, copy_address, parse_options}

module _ (m : Memory) (overflow : Bytes → ℤ) where
  copy_address-port :
      (address : Bytes) (o : Options)
      → Ensures (λ r. r.0.server_port ≡ o.server_port) (copy_address m overflow address o)
  unfolding copy_address
  copy_address-port address o =
      Ensures-step (λ r. r.0.server_port ≡ o.server_port) (new_array m (pos (suc (length address))))
        _ λ block. refl

  parse_options-port_kept :
      (argv : List Bytes) (o : Options)
      → Ensures (λ r. r.0.server_port ≡ o.server_port) (parse_options m overflow argv o)
  unfolding parse_options
  parse_options-port_kept [] o = refl
  parse_options-port_kept (program ∷ []) o = refl
  parse_options-port_kept (program ∷ address ∷ []) o = copy_address-port address o
  parse_options-port_kept (program ∷ address ∷ port ∷ more) o =
      elim (Bool-cases (valid_port overflow port)) [
        | inl valid ↦ rw valid (copy_address-port address o)
        | inr wrong ↦ rw wrong refl
      ]

  -- ParseOptions, where it returns, leaves the server port as it was, whatever the command line.
  pub parse_options-port :
      (argv : List Bytes) (o o' : Options) (ok : Bool)
      → parse_options m overflow argv o ≡ done (o', ok)
      → o'.server_port ≡ o.server_port
  parse_options-port argv o o' ok e =
      Ensures-done (λ r. r.0.server_port ≡ o.server_port) (parse_options m overflow argv o) (o', ok)
        (parse_options-port_kept argv o) e

  -- Given a program name and an address whose block can be had, and a valid port or no port at
  -- all, ParseOptions returns true and keeps the address with a NUL behind it.
  pub parse_options-address :
      IsMemory m
      → (program address port block : Bytes) (more : List Bytes) (o : Options)
      → m.fresh (suc (length address)) ≡ some block
      → valid_port overflow port ≡ true
      → (parse_options m overflow (program ∷ address ∷ port ∷ more) o
          ≡ done (record o { server_address = some (address ++ (0 ∷ [])) }, true))
        × (parse_options m overflow (program ∷ address ∷ []) o
            ≡ done (record o { server_address = some (address ++ (0 ∷ [])) }, true))
  unfolding parse_options copy_address
  parse_options-address M program address port block more o got valid =
      let copied = put_at-strncpy block address (M.length-fresh (suc (length address)) block got) in
      (rw (valid, got, copied), rw (got, copied))

-- Whether a command line is taken: there is an address, and no port but a valid one.
abbrev pub takes : (Bytes → ℤ) → List Bytes → Option Bytes
takes overflow [] = none
takes overflow (program ∷ []) = none
takes overflow (program ∷ address ∷ []) = some address
takes overflow (program ∷ address ∷ port ∷ more) =
    if valid_port overflow port then some address else none

-- What is kept of a command line, by the address to keep.
abbrev pub kept : Memory → Options → Option Bytes → Outcome (Options × Bool)
kept m o none = done (o, false)
kept m o (some address) = do
  block ← or_fault bad_alloc (m.fresh (suc (length address)))
  done (record o { server_address = some (address ++ (0 ∷ [])) }, true)

copy_address-kept :
    (m : Memory) (overflow : Bytes → ℤ) (address : Bytes) (o : Options)
    → IsMemory m
    → copy_address m overflow address o ≡ kept m o (some address)
unfolding copy_address
copy_address-kept m overflow address o M = elim (Option-cases (m.fresh (suc (length address)))) [
  | inl full ↦ rw full refl
  | inr (block, got) ↦
      rw (got, put_at-strncpy block address (M.length-fresh (suc (length address)) block got)) refl
]

-- On every command line ParseOptions returns false and changes nothing where there is no address,
-- or a third argument that is not a valid port; otherwise it throws where no block can be had for
-- the address, and else returns true and keeps the address with a NUL behind it, and of the port
-- nothing.
pub parse_options-kept :
    (m : Memory) (overflow : Bytes → ℤ) (argv : List Bytes) (o : Options)
    → IsMemory m
    → parse_options m overflow argv o ≡ kept m o (takes overflow argv)
unfolding parse_options
parse_options-kept m overflow [] o M = refl
parse_options-kept m overflow (program ∷ []) o M = refl
parse_options-kept m overflow (program ∷ address ∷ []) o M =
    copy_address-kept m overflow address o M
parse_options-kept m overflow (program ∷ address ∷ port ∷ more) o M =
    elim (Bool-cases (valid_port overflow port)) [
      | inl valid ↦ rw valid (copy_address-kept m overflow address o M)
      | inr wrong ↦ rw wrong refl
    ]

-- The decimal digits of a number below 10 ^ (k + 1).
abbrev pub show_decimal : ℕ → ℕ → Bytes
show_decimal zero n = (n + 48) ∷ []
show_decimal (suc k) n =
    let front = show_decimal k (n / 10) ++ ((n % 10 + 48) ∷ []) in
    if ltb n 10 then (n + 48) ∷ [] else front

all_digits-snoc : (s : Bytes) (d : ℕ) → d < 10 → all_digits (s ++ ((d + 48) ∷ [])) ≡ all_digits s
all_digits-snoc [] d h = ground arith
all_digits-snoc (c ∷ s) d h = ground (arith, all_digits-snoc s d h)

decimal-snoc :
    (acc : ℕ) (s : Bytes) (d : ℕ) → decimal acc (s ++ ((d + 48) ∷ [])) ≡ 10 * decimal acc s + d
decimal-snoc acc [] d = omega arith
decimal-snoc acc (c ∷ s) d = decimal-snoc (10 * acc + (c - 48)) s d

-- A decimal number is read back.
pub decimal-show_decimal :
    (k n : ℕ)
    → n < 10 ^ suc k
    → (all_digits (show_decimal k n) ≡ true) × (decimal 0 (show_decimal k n) ≡ n)
decimal-show_decimal zero n h = (ground arith, omega arith)
decimal-show_decimal (suc k) n h = elim (Bool-cases (ltb n 10)) [
  | inl small ↦ rw small (ground arith, omega arith)
  | inr large ↦
      let (digits, value) = decimal-show_decimal k (n / 10) (omega (arith, pow-suc 10 (suc k))) in
      rw large (
        all_digits-snoc (show_decimal k (n / 10)) (n % 10) (omega arith) ∙ digits,
        decimal-snoc 0 (show_decimal k (n / 10)) (n % 10) ∙ omega arith,
      )
]

-- Of the numbers of up to nine digits, written in decimal, the test of the port takes just those
-- from 1 to 65535.
pub valid_port-show_decimal :
    (overflow : Bytes → ℤ) (n : ℕ)
    → n < 10 ^ 9
    → valid_port overflow (show_decimal 8 n) ≡ (ltb 0 n && leb n 65535)
valid_port-show_decimal overflow n h =
    let (digits, value) = decimal-show_decimal 8 n h in rw (digits, value) (ground arith)
