-- ===== src/Singleton.antt =====
-- `CSingleton` (shared/include/CSingleton.h) and the constructors of the classes that derive from it.
pub mod Once
use poco_echo.Base.{
  ℕ, suc, ◌==◌, if◌then◌else◌, Bool, true, false, not, Option, none, some, List, [], ◌∷◌, ◌++◌,
  Outcome, done, fault, assertion, or_fault, ◌>>=◌, ◌>>◌, assert,
}

-- The classes with an `m_pInstance`: those of the server, and those of the client.
pub data Class : Type 0 where
  white_list server server_actions packet_handler packet_translator : Class
  option client client_actions : Class

abbrev pub code : Class → ℕ
code white_list = 0
code server = 1
code server_actions = 2
code packet_handler = 3
code packet_translator = 4
code option = 5
code client = 6
code client_actions = 7

-- The address that the next object gets, and the instances that are not null, by class.
pub record Objects : Type 0 where
  pub next : ℕ
  pub instances : List (Class × ℕ)

-- Addresses of objects, with no value for null.
abbrev pub Pointer : Type 0
Pointer = Option ℕ

-- The definitions of `m_pInstance`, a file for each class.
abbrev pub white_list_instance : Pointer
white_list_instance = none

abbrev pub server_instance : Pointer
server_instance = none

abbrev pub server_actions_instance : Pointer
server_actions_instance = none

abbrev pub packet_handler_instance : Pointer
packet_handler_instance = none

abbrev pub packet_translator_instance : Pointer
packet_translator_instance = none

abbrev pub option_instance : Pointer
option_instance = none

abbrev pub client_instance : Pointer
client_instance = none

abbrev pub client_actions_instance : Pointer
client_actions_instance = none

-- What an `m_pInstance` adds to the instances that are not null.
abbrev entry : Class → Pointer → List (Class × ℕ)
entry c none = []
entry c (some a) = (c, a) ∷ []

-- The start of a program.
abbrev pub no_objects : Objects
no_objects = record {
  next = 1;
  instances =
      entry white_list white_list_instance
      ++ entry server server_instance
      ++ entry server_actions server_actions_instance
      ++ entry packet_handler packet_handler_instance
      ++ entry packet_translator packet_translator_instance
      ++ entry option option_instance
      ++ entry client client_instance
      ++ entry client_actions client_actions_instance;
}

-- `m_pInstance` of a class.
abbrev pub instance_of : Class → List (Class × ℕ) → Option ℕ
instance_of c [] = none
instance_of c ((k, a) ∷ rest) = if code c == code k then some a else instance_of c rest

abbrev pub get_instance : Class → Objects → Option ℕ
get_instance c o = instance_of c o.instances

-- The constructor of `CSingleton`, on a new object.
abbrev registered : Class → Objects → Option ℕ → Outcome (ℕ × Objects)
registered c o none =
    done (o.next, record { next = suc o.next; instances = (c, o.next) ∷ o.instances })
registered c o (some a) = fault assertion

unfoldable pub create : Class → Objects → Outcome (ℕ × Objects)
create c o = registered c o (get_instance c o)

-- The objects of `CPacketTranslator`, `CPacketHandler` and the server's `CActionManager`.
pub record PacketTranslator : Type 0 where
  pub this : ℕ
  pub packet_handler : ℕ

pub record PacketHandler : Type 0 where
  pub this : ℕ
  pub server : ℕ
  pub packet_translator : PacketTranslator

pub record ServerActions : Type 0 where
  pub this : ℕ
  pub white_list : ℕ

-- `CServer`, less its network.
pub record ServerObject : Type 0 where
  pub this : ℕ
  pub white_list : ℕ
  pub packet_handler : PacketHandler
  pub action_manager : ServerActions

-- The client's `CActionManager`, less its result, and `CClient`, less its network.
pub record ClientActions : Type 0 where
  pub this : ℕ
  pub client : ℕ

pub record ClientObject : Type 0 where
  pub this : ℕ
  pub action_manager : ClientActions

unfoldable pub construct_packet_translator :
    Pointer → Objects → Outcome (PacketTranslator × Objects)
construct_packet_translator handler o = do
  (this, o') ← create packet_translator o
  p ← or_fault assertion handler
  done (record { this = this; packet_handler = p }, o')

unfoldable pub construct_packet_handler : Pointer → Objects → Outcome (PacketHandler × Objects)
construct_packet_handler owner o = do
  (this, o') ← create packet_handler o
  p ← or_fault assertion owner
  (translator, o'') ← construct_packet_translator (some this) o'
  done (record { this = this; server = p; packet_translator = translator }, o'')

unfoldable pub construct_server_actions : Pointer → Objects → Outcome (ServerActions × Objects)
construct_server_actions list o = do
  (this, o') ← create server_actions o
  p ← or_fault assertion list
  done (record { this = this; white_list = p }, o')

unfoldable pub construct_server : Pointer → Objects → Outcome (ServerObject × Objects)
construct_server list o = do
  (this, o₁) ← create server o
  p ← or_fault assertion list
  (handler, o₂) ← construct_packet_handler (some this) o₁
  (actions, o₃) ← construct_server_actions list o₂
  done (
    record { this = this; white_list = p; packet_handler = handler; action_manager = actions },
    o₃,
  )

unfoldable pub construct_client_actions : Pointer → Objects → Outcome (ClientActions × Objects)
construct_client_actions owner o = do
  (this, o') ← create client_actions o
  p ← or_fault assertion owner
  done (record { this = this; client = p }, o')

unfoldable pub construct_client : Objects → Outcome (ClientObject × Objects)
construct_client o = do
  (this, o') ← create client o
  (actions, o'') ← construct_client_actions (some this) o'
  done (record { this = this; action_manager = actions }, o'')
