-- ===== src/Echo/World/Pending.antt =====
-- What users have still to read, and how many packets must be taken before they have read it.
use mathlib.Core.List.{append-nil}
use poco_echo.Base.{
  ==-same, ℕ, suc, ◌+◌, ◌*◌, ◌-◌, ◌<◌, ◌≤◌, ◌==◌, ◌≡◌, ◌⊎◌, refl, sym, ◌∙◌, ap, true, false, List,
  [], ◌∷◌, ◌++◌, map, All, All-map, elem, length, length-append, Bytes, arith, Bool-cases, inl, inr,
  ==_iff,
}
use poco_echo.Poco.{Socket}
use poco_echo.Effect.{printed, message_shown}
use poco_echo.Server.Echo.{reply}
use poco_echo.Client.Packet.{request}
use poco_echo.Client.Console.Prompts.{spoken}
use poco_echo.Echo.World.{Party, Site, put}
use poco_echo.Echo.World.Histories.{put-all}
use poco_echo.Echo.World.Talks.{Talk}

length-map {ℓ κ} :
    {A : Type ℓ} {B : Type κ} (f : A → B) (xs : List A) → length (map f xs) ≡ length xs
length-map f [] = refl
length-map f (x ∷ xs) = ap suc (length-map f xs)

-- How many packets the server and the client have still to take before the user has read all.
abbrev pub left : Site → ℕ
left v = 2 * length (spoken v.asked) - (length v.heard + length v.read)

-- The user has read all.
abbrev pub HasRead : Site → Type 0
HasRead v = v.shown ≡ map (λ t. printed (message_shown t)) (spoken v.asked)

module _ {p : Party} {came : List Bytes} {v : Site} (t : Talk p came v) where
  pub left_lem :
      2 * length (spoken v.asked)
      ≡ length v.heard + length v.read + (2 * length t.up + length t.down)
  left_lem = omega (
    arith,
    ap length t.said,
    ap length t.arrived,
    ap length t.taken,
    ap length t.returned,
    length-map (request p.memory) came,
    length-map reply t.read,
    length-append t.read (t.down ++ t.up),
    length-append t.down t.up,
    length-append t.read t.down,
  )

  pub read_all : t.up ≡ [] → t.down ≡ [] → HasRead v
  read_all e e' =
      t.seen
      ∙ ap (map (λ t. printed (message_shown t))) (sym (t.said ∙ rw (e, e') (append-nil t.read)))

pub List-cases {ℓ} :
    {A : Type ℓ} (xs : List A) → (xs ≡ []) ⊎ ((x : A) × (ys : List A) × (xs ≡ x ∷ ys))
List-cases [] = inl refl
List-cases (x ∷ xs) = inr (x, xs, refl)

pub All-self : (cs : List Socket) → All (λ c. elem c cs ≡ true) cs
All-self [] = tt
All-self (c ∷ cs) = (
  rw (==-same c) refl,
  All-map (λ k. elem k cs ≡ true) (λ k. elem k (c ∷ cs) ≡ true) cs (λ k e. ground arith)
      (All-self cs),
)

pub put-other :
    (c k : Socket) (v : Site) (f : Socket → Site) → elem k (c ∷ []) ≡ false → put c v f k ≡ f k
put-other c k v f e = let other : (c == k) ≡ false = ground arith in rw other refl

pub put-asked :
    (c k : Socket) (v : Site) (f : Socket → Site)
    → v.asked ≡ (f c).asked
    → (put c v f k).asked ≡ (f k).asked
put-asked c k v f e = put-all (λ k v. v.asked ≡ (f k).asked) c v f e (λ k other. refl) k

-- The packets still to take at some sockets.
abbrev pub pending : (Socket → Site) → List Socket → ℕ
pending f [] = 0
pending f (k ∷ ks) = left (f k) + pending f ks

module _ (c : Socket) (s : Site) (f : Socket → Site) (less : left s < left (f c)) where
  left-put : (k : Socket) → left (put c s f k) ≤ left (f k)
  left-put = put-all (λ k v. left v ≤ left (f k)) c s f (omega arith) (λ k other. omega arith)

  pending-put : (ks : List Socket) → pending (put c s f) ks ≤ pending f ks
  pending-put [] = omega arith
  pending-put (k ∷ ks) = omega (arith, left-put k, pending-put ks)

  pub pending-put_lt : (ks : List Socket) → elem c ks ≡ true → pending (put c s f) ks < pending f ks
  pending-put_lt [] e = absurd (ground arith)
  pending-put_lt (k ∷ ks) e = elim (Bool-cases (c == k)) [
    | inl same ↦ rw (same, ← (==_iff c k).0 same) (omega (arith, less, pending-put ks))
    | inr other ↦ rw other (omega (arith, pending-put_lt ks (ground arith)))
  ]
