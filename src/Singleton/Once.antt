-- ===== src/Singleton/Once.antt =====
-- An object of a class is made once, and stays the instance of its class.
use poco_echo.Base.{
  ℕ, suc, ◌==◌, ◌≡◌, refl, inl, inr, true, none, some, Option-cases, List, [], ◌∷◌, done, fault,
  assertion, arith,
}
use poco_echo.Singleton.{
  Class, code, instance_of, Objects, get_instance, create, ServerObject,
  construct_packet_translator, construct_packet_handler, construct_server_actions, construct_server,
}

-- Constructions, of objects of any classes. Destructors leave the instances alone.
pub data Later (o : Objects) : Objects → Type 0 where
  same : Later o o
  creates : {p q : Objects} (c : Class) (a : ℕ) → Later o p → create c p ≡ done (a, q) → Later o q

instance_of_same :
    (c k : Class) (xs : List (Class × ℕ))
    → (code c == code k) ≡ true
    → instance_of c xs ≡ instance_of k xs
instance_of_same c k [] e = refl
instance_of_same c k ((j, a) ∷ xs) e = ground (arith, instance_of_same c k xs)

create-get_instance :
    (c k : Class) (o o' : Objects) (a b : ℕ)
    → get_instance c o ≡ some a
    → create k o ≡ done (b, o')
    → get_instance c o' ≡ some a
unfolding create
create-get_instance c k o o' a b is e = elim (Option-cases (get_instance k o)) [
  | inl free ↦ ground (arith, instance_of_same c k o.instances)
  | inr (x, taken) ↦ absurd (ground arith)
]

create-own :
    (c : Class) (o o' : Objects) (a : ℕ) → create c o ≡ done (a, o') → get_instance c o' ≡ some a
unfolding create
create-own c o o' a e = elim (Option-cases (get_instance c o)) [
  | inl free ↦ ground arith
  | inr (x, taken) ↦ absurd (ground arith)
]

Later-get_instance :
    (c : Class) (o o' : Objects) (a : ℕ)
    → get_instance c o ≡ some a
    → Later o o'
    → get_instance c o' ≡ some a
Later-get_instance c o o' a is same = is
Later-get_instance c o o' a is (creates {p} k b r e) =
    create-get_instance c k p o' a b (Later-get_instance c o p a is r) e

-- Once an object of a class was made, it stays the instance of its class through all later
-- constructions, and another object of the class fails the assertion. Destructors do not come in,
-- since they leave the instances alone.
pub create-once :
    (c : Class) (o o' o'' : Objects) (a : ℕ)
    → create c o ≡ done (a, o')
    → Later o' o''
    → (get_instance c o'' ≡ some a) × (create c o'' ≡ fault assertion)
unfolding create
create-once c o o' o'' a e r =
    let is = Later-get_instance c o' o'' a (create-own c o o' a e) r in (is, rw (is) refl)

-- The objects of the server refer to one another as its constructors say.
pub record IsWired (list : ℕ) (s : ServerObject) (o : Objects) : Type 0 where
  pub lists : s.white_list ≡ list
  pub actions : s.action_manager.white_list ≡ list
  pub owner : s.packet_handler.server ≡ s.this
  pub handler : s.packet_handler.packet_translator.packet_handler ≡ s.packet_handler.this
  pub server_instance : get_instance Class.server o ≡ some s.this
  pub handler_instance : get_instance Class.packet_handler o ≡ some s.packet_handler.this
  pub translator_instance :
      get_instance Class.packet_translator o ≡ some s.packet_handler.packet_translator.this
  pub actions_instance : get_instance Class.server_actions o ≡ some s.action_manager.this
  pub list_instance : get_instance Class.white_list o ≡ some list

-- The server on a white list, where its objects get the addresses from n on.
abbrev pub wired : ℕ → ℕ → ServerObject
wired n list = record {
  this = n;
  white_list = list;
  packet_handler = record {
    this = suc n;
    server = n;
    packet_translator = record { this = suc (suc n); packet_handler = suc n };
  };
  action_manager = record { this = suc (suc (suc n)); white_list = list };
}

-- The registry behind it.
abbrev pub wiring : Objects → Objects
wiring o = record {
  next = suc (suc (suc (suc o.next)));
  instances =
      (Class.server_actions, suc (suc (suc o.next)))
      ∷ (Class.packet_translator, suc (suc o.next))
      ∷ (Class.packet_handler, suc o.next)
      ∷ (Class.server, o.next)
      ∷ o.instances;
}

pub wired-IsWired :
    (o : Objects) (list : ℕ)
    → get_instance Class.white_list o ≡ some list
    → IsWired list (wired o.next list) (wiring o)
wired-IsWired o list listed = record {
  lists = refl;
  actions = refl;
  owner = refl;
  handler = refl;
  server_instance = refl;
  handler_instance = refl;
  translator_instance = refl;
  actions_instance = refl;
  list_instance = listed;
}

pub construct_server-wired :
    (o : Objects) (list : ℕ)
    → get_instance Class.server o ≡ none
    → get_instance Class.packet_handler o ≡ none
    → get_instance Class.packet_translator o ≡ none
    → get_instance Class.server_actions o ≡ none
    → construct_server (some list) o ≡ done (wired o.next list, wiring o)
unfolding construct_server construct_packet_handler construct_packet_translator
    construct_server_actions create
construct_server-wired o list no_server no_handler no_translator no_actions =
    rw (no_server, no_handler, no_translator, no_actions) refl
