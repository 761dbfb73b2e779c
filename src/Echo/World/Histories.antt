-- ===== src/Echo/World/Histories.antt =====
-- What a server has heard from its clients, and the packets that this and its answers are.
use mathlib.Core.List.{append-nil, map-append}
use poco_echo.Base.{
  ==-same, append-cancel, ◌==◌, ==_iff, ◌≡◌, refl, sym, ◌∙◌, ap, if◌then◌else◌, Bool-cases, inl,
  inr, false, List, [], ◌∷◌, ◌++◌, map, Bytes, arith,
}
use poco_echo.Poco.{Socket}
use poco_echo.Effect.{Effect, printed, sent, message_from}
use poco_echo.Server.Echo.{reply}
use poco_echo.Client.Action.{new_action_manager}
use poco_echo.Client.Packet.{request}
use poco_echo.Client.Console.{Desk}
use poco_echo.Echo.World.{Party, sends, put}

-- The next value, where some of the mapped ones are gone.
pub next_mapped :
    {A B : Type 0} (f : A → B) (xs ys : List A) (b : B) (rest : List B)
    → map f (xs ++ ys) ≡ map f xs ++ (b ∷ rest)
    → (y : A) × (zs : List A) × (ys ≡ y ∷ zs) × (b ≡ f y)
next_mapped f xs [] b rest e =
    absurd (nil_ne (append-cancel (map f xs) (sym (map-append f xs []) ∙ e)))
  where
    nil_ne : ([] ≡ b ∷ rest) → ⊥
    nil_ne h = cc
next_mapped f xs (y ∷ ys) b rest e =
    let h : f y ∷ map f ys ≡ b ∷ rest =
      append-cancel (map f xs) (sym (map-append f xs (y ∷ ys)) ∙ e) in
    (y, ys, refl, cc)

-- A property of a value at each socket, once one of them is replaced.
pub put-all {ℓ κ} :
    {A : Type ℓ} (P : Socket → A → Type κ) (c : Socket) (a : A) (f : Socket → A)
    → P c a
    → ((k : Socket) → (c == k) ≡ false → P k (f k))
    → (k : Socket) → P k (put c a f k)
put-all P c a f new old k = elim (Bool-cases (c == k)) [
  | inl same ↦ rw (same, ← (==_iff c k).0 same) new
  | inr other ↦ rw other (old k other)
]

-- All packets of a client go to the server.
pub sends-requests :
    (p : Party) (said : List Bytes)
    → sends p.to (map (λ t. sent p.to (request p.memory t)) said) ≡ map (request p.memory) said
sends-requests p [] = refl
sends-requests p (t ∷ ts) =
    rw (==-same p.to) (ap (λ r. request p.memory t ∷ r) (sends-requests p ts))

-- The desk of a user who has said some messages.
abbrev pub desk_after : Party → List Bytes → Desk
desk_after p said = record {
  manager = new_action_manager;
  client = p.user;
  log = map (λ t. sent p.to (request p.memory t)) said;
}

-- What the server has heard, the first first, each with the socket that it came over.
abbrev pub History : Type 0
History = List (Socket × Bytes)

-- The texts of one client, and what the server shows and sends for all.
abbrev pub texts_of : Socket → History → List Bytes
texts_of c [] = []
texts_of c ((k, t) ∷ h) = if c == k then t ∷ texts_of c h else texts_of c h

abbrev pub answers_to : (Socket → Party) → History → List Effect
answers_to parties [] = []
answers_to parties ((c, t) ∷ h) =
    printed (message_from (parties c).host t) ∷ sent c (reply t) ∷ answers_to parties h

pub answers_to-append :
    (parties : Socket → Party) (h g : History)
    → answers_to parties (h ++ g) ≡ answers_to parties h ++ answers_to parties g
answers_to-append parties [] g = refl
answers_to-append parties ((c, t) ∷ h) g =
    ap (λ r. printed (message_from (parties c).host t) ∷ sent c (reply t) ∷ r)
      (answers_to-append parties h g)

texts_of-append : (c : Socket) (h g : History) → texts_of c (h ++ g) ≡ texts_of c h ++ texts_of c g
texts_of-append c [] g = refl
texts_of-append c ((k, t) ∷ h) g = elim (Bool-cases (c == k)) [
  | inl same ↦ rw same (ap (λ r. t ∷ r) (texts_of-append c h g))
  | inr other ↦ rw other (texts_of-append c h g)
]

pub texts_of-same :
    (c : Socket) (h : History) (t : Bytes)
    → texts_of c (h ++ ((c, t) ∷ [])) ≡ texts_of c h ++ (t ∷ [])
texts_of-same c h t = rw (texts_of-append c h ((c, t) ∷ []), ==-same c) refl

pub texts_of-other :
    (c k : Socket) (h : History) (t : Bytes)
    → (c == k) ≡ false
    → texts_of k (h ++ ((c, t) ∷ [])) ≡ texts_of k h
texts_of-other c k h t other =
    let swapped : (k == c) ≡ false = ground arith in
    rw (texts_of-append k h ((c, t) ∷ []), swapped, append-nil (texts_of k h)) refl

-- A client gets the answers to its own texts, and nothing else.
pub sends-answers_to :
    (c : Socket) (parties : Socket → Party) (h : History)
    → sends c (answers_to parties h) ≡ map reply (texts_of c h)
sends-answers_to c parties [] = refl
sends-answers_to c parties ((k, t) ∷ h) = elim (Bool-cases (c == k)) [
  | inl same ↦ rw same (ap (λ r. reply t ∷ r) (sends-answers_to c parties h))
  | inr other ↦ rw other (sends-answers_to c parties h)
]
