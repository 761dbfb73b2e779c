-- ===== src/Network/Handlers.antt =====
-- The list of packet handlers of `CNetwork`. A handler is a function pointer, known by its address.
use poco_echo.Base.{
  ℕ, zero, suc, ◌+◌, ◌-◌, ◌%◌, ◌^◌, ◌≤◌, ◌<◌, ◌≡◌, refl, ◌==◌, if◌then◌else◌, true, false, ◌||◌,
  List, [], ◌∷◌, ◌++◌, length, elem, elem-append, Distinct, Distinct-snoc, arith, remove_first,
  remove_first-missing, Bool-cases, inl, inr, ap, sym,
}

abbrev pub Handler : Type 0
Handler = ℕ

-- `-1` as a `size_t`, and as the bits of an `int`.
abbrev pub size_minus_one : ℕ
size_minus_one = 2 ^ 64 - 1

abbrev int_minus_one : ℕ
int_minus_one = 2 ^ 32 - 1

-- The loop of `GetListIndexOfPacketHandler` from index i on.
index_from : ℕ → List Handler → Handler → ℕ
index_from i [] f = size_minus_one
index_from i (h ∷ hs) f = let rest = index_from (i + 1) hs f in if h == f then i else rest

unfoldable pub get_list_index_of_packet_handler : List Handler → Handler → ℕ
unfolding index_from
get_list_index_of_packet_handler hs f = index_from 0 hs f

unfoldable pub add_packet_handler : List Handler → Handler → List Handler
add_packet_handler hs f =
    if get_list_index_of_packet_handler hs f == size_minus_one then hs ++ (f ∷ []) else hs

-- `vector::erase` at an index.
erase_at : List Handler → ℕ → List Handler
erase_at [] i = []
erase_at (h ∷ hs) zero = hs
erase_at (h ∷ hs) (suc i) = h ∷ erase_at hs i

-- The index goes through an `int`.
unfoldable pub remove_packet_handler : List Handler → Handler → List Handler
unfolding erase_at
remove_packet_handler hs f =
    let i_index = get_list_index_of_packet_handler hs f % 2 ^ 32 in
    if i_index == int_minus_one then hs else erase_at hs i_index

index_from-missing :
    (i : ℕ) (hs : List Handler) (f : Handler)
    → elem f hs ≡ false
    → index_from i hs f ≡ size_minus_one
unfolding index_from
index_from-missing i [] f h = refl
index_from-missing i (x ∷ hs) f h = ground (arith, index_from-missing (i + 1) hs f)

index_from-found :
    (i : ℕ) (hs : List Handler) (f : Handler)
    → elem f hs ≡ true
    → (i ≤ index_from i hs f) × (index_from i hs f < i + length hs)
unfolding index_from
index_from-found i [] f h = cc
index_from-found i (x ∷ hs) f h = ground (arith, index_from-found (i + 1) hs f)

erase_at-index_from :
    (i : ℕ) (hs : List Handler) (f : Handler)
    → elem f hs ≡ true
    → erase_at hs (index_from i hs f - i) ≡ remove_first f hs
unfolding index_from erase_at
erase_at-index_from i [] f h = cc
erase_at-index_from i (x ∷ hs) f h = elim (Bool-cases (x == f)) [
  | inl hit ↦
      let same : (f == x) ≡ true = ground arith in
      let here : i - i ≡ 0 = omega arith in rw (hit, same, here)
  | inr miss ↦
      let other : (f == x) ≡ false = ground arith in
      let behind : elem f hs ≡ true = ground arith in
      let bounds = index_from-found (i + 1) hs f behind in
      let next : index_from (i + 1) hs f - i ≡ suc (index_from (i + 1) hs f - (i + 1)) =
        omega arith in
      rw (miss, other, next) (ap (λ t. x ∷ t) (erase_at-index_from (i + 1) hs f behind))
]

-- On a list of fewer than 2^32 - 1 handlers, a handler is listed after AddPacketHandler just if it
-- was listed before or is the one given.
pub elem-add_packet_handler :
    (hs : List Handler) (f g : Handler)
    → length hs < 2 ^ 32 - 1
    → elem g (add_packet_handler hs f) ≡ ((g == f) || elem g hs)
unfolding add_packet_handler get_list_index_of_packet_handler
elem-add_packet_handler hs f g h =
    ground (arith, index_from-missing 0 hs f, index_from-found 0 hs f, elem-append g hs (f ∷ []))

-- AddPacketHandler on a list of fewer than 2^32 - 1 handlers, none of them listed twice, lists
-- none twice.
pub add_packet_handler-Distinct :
    (hs : List Handler) (f : Handler)
    → length hs < 2 ^ 32 - 1
    → Distinct hs
    → Distinct (add_packet_handler hs f)
unfolding add_packet_handler get_list_index_of_packet_handler
add_packet_handler-Distinct hs f h d = elim (Bool-cases (elem f hs)) [
  | inl old ↦ ground (arith, index_from-found 0 hs f)
  | inr new ↦ ground (arith, index_from-missing 0 hs f, Distinct-snoc f hs)
]

-- On a list of fewer than 2^32 - 1 handlers RemovePacketHandler takes out the first entry of the
-- given handler and leaves a list without it as it is.
pub remove_packet_handler-remove_first :
    (hs : List Handler) (f : Handler)
    → length hs < 2 ^ 32 - 1
    → remove_packet_handler hs f ≡ remove_first f hs
unfolding remove_packet_handler get_list_index_of_packet_handler
remove_packet_handler-remove_first hs f h = elim (Bool-cases (elem f hs)) [
  | inl listed ↦
      let index : ℕ = get_list_index_of_packet_handler hs f in
      let bounds = index_from-found 0 hs f listed in
      let kept : index % 2 ^ 32 ≡ index - 0 = omega arith in
      let valid : (index - 0 == int_minus_one) ≡ false = ground arith in
      rw (kept, valid) (erase_at-index_from 0 hs f listed)
  | inr missing ↦ rw (index_from-missing 0 hs f missing) (sym (remove_first-missing f hs missing))
]
