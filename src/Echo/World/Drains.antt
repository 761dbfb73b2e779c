-- ===== src/Echo/World/Drains.antt =====
-- Whatever users, server and clients have done, all that was said can still reach the users.
use poco_echo.Base.{
  ==-same, ℕ, zero, suc, ◌<◌, ◌==◌, ◌≡◌, ◌⊎◌, refl, sym, ◌∙◌, ap, true, false, List, [], ◌∷◌, ◌++◌,
  All, All-map, elem, length, length-append, arith, Bool-cases, inl, inr, ==_iff,
}
use poco_echo.Poco.{Fifo, IsFifo, Memory, IsMemory, HasRoom, Socket, Peers}
use poco_echo.Packets.{max_buffer_length, word_size}
use poco_echo.Network.Update.{Loop, ConnectHandler}
use poco_echo.Server.Echo.{reply}
use poco_echo.Client.Packet.{request}
use poco_echo.Client.Console.{Prompt}
use poco_echo.Echo.World.{
  Party, IsJoined, Site, World, Step, enters, hears, reads, put, sends, Steps, opened, here,
  further,
}
use poco_echo.Echo.World.Histories.{sends-answers_to}
use poco_echo.Echo.World.Told.{IsTold, IsTold-hears, IsTold-reads, next_up, next_down}
use poco_echo.Echo.World.Delivery.{Steps-IsTold}
use poco_echo.Echo.World.Pending.{
  left, HasRead, left_lem, read_all, List-cases, put-other, put-asked, All-self, pending,
  pending-put_lt,
}
use poco_echo.Echo.World.Next.{hears_next, reads_next}

module _ {F : Fifo} (L : IsFifo F) {m : Memory} (M : IsMemory m) (peers : Peers)
    (ch : ConnectHandler) (server : Socket) (parties : Socket → Party) (clients : List Socket)
    (joined : (c : Socket) → elem c clients ≡ true → IsJoined peers server c (parties c))
    (room : HasRoom m max_buffer_length) where
  Steps-after :
      {w v u : World}
      → Steps F m peers ch server parties clients w v
      → Steps F m peers ch server parties clients v u
      → Steps F m peers ch server parties clients w u
  Steps-after r here = r
  Steps-after r (further q step) = further (Steps-after r q) step

  -- From `w` on, without a prompt, until the users at `cs` have read all.
  record Drained (w : World) (cs : List Socket) (v : World) : Type 0 where
    steps : Steps F m peers ch server parties clients w v
    told : IsTold parties clients v
    asked : (k : Socket) → (v.site k).asked ≡ (w.site k).asked
    others : (k : Socket) → elem k cs ≡ false → v.site k ≡ w.site k
    read : All (λ k. HasRead (v.site k)) cs

  -- One step first, of the client at `c`.
  Drained-step :
      {w v : World} (c : Socket) (l : Loop) (s : Site)
      → s.asked ≡ (w.site c).asked
      → Step F m peers ch server parties clients w (record w { loop = l; site = put c s w.site })
      → Drained (record w { loop = l; site = put c s w.site }) (c ∷ []) v
      → Drained w (c ∷ []) v
  Drained-step {w} c l s e step d = record {
    steps = Steps-after (further here step) d.steps;
    told = d.told;
    asked = λ k. d.asked k ∙ put-asked c k s w.site e;
    others = λ k e. d.others k e ∙ put-other c k s w.site e;
    read = d.read;
  }

  drain_one :
      (n : ℕ) {w : World} (t : IsTold parties clients w) (c : Socket)
      (there : elem c clients ≡ true)
      → left (w.site c) < n
      → (v : World) × Drained w (c ∷ []) v
  drain_one zero t c there h = absurd (omega arith)
  drain_one (suc n) {w} t c there h = elim (List-cases (t.talks c there).up) [
    | inr (text, up, e) ↦
        let (v, d) = drain_one n (IsTold-hears t c there text up e) c there (
          rw (==-same c) (
            omega (
              arith,
              left_lem (t.talks c there),
              ap length e,
              length-append (w.site c).heard (request (parties c).memory text ∷ []),
            ))) in
        (
          v,
          Drained-step c _ _ refl
              (hears_next L M peers ch server parties clients joined room t c there text up e) d,
        )
    | inl e ↦ elim (List-cases (t.talks c there).down) [
      | inr (text, down, e') ↦
          let (v, d) = drain_one n (IsTold-reads t c there text down e') c there (
            rw (==-same c) (
              omega (
                arith,
                left_lem (t.talks c there),
                ap length e',
                length-append (w.site c).read (reply text ∷ []),
              ))) in
          (
            v,
            Drained-step c _ _ refl
                (reads_next L M peers ch server parties clients joined room t c there text down e')
                d,
          )
      | inl e' ↦ (
        w,
        record {
          steps = here;
          told = t;
          asked = λ k. refl;
          others = λ k other. refl;
          read = (read_all (t.talks c there) e e', tt);
        },
      )
    ]
  ]

  drain_all :
      {w : World} (t : IsTold parties clients w) (cs : List Socket)
      → All (λ c. elem c clients ≡ true) cs
      → (v : World) × Drained w cs v
  drain_all {w} t [] there =
      (w, record { steps = here; told = t; asked = λ k. refl; others = λ k other. refl; read = tt })
  drain_all {w} t (c ∷ cs) there =
      let (v, d) = drain_all t cs there.1 in
      let (u, last) = drain_one (suc (left (v.site c))) d.told c there.0 (omega arith) in
      (
        u,
        record {
          steps = Steps-after d.steps last.steps;
          told = last.told;
          asked = λ k. last.asked k ∙ d.asked k;
          others = λ k other. last.others k (ground arith) ∙ d.others k (ground arith);
          read = (
            last.read.0,
            All-map (λ k. HasRead (v.site k)) (λ k. HasRead (u.site k)) cs (still v u c last)
                d.read,
          );
        },
      )
    where
      still :
          (v u : World) (c : Socket)
          → Drained v (c ∷ []) u
          → (k : Socket) → HasRead (v.site k)
          → HasRead (u.site k)
      still v u c last k had = elim (Bool-cases (k == c)) [
        | inl same ↦ rw ((==_iff k c).0 same) last.read.0
        | inr other ↦ rw (last.others k (rw other refl)) had
      ]

  -- A step is a prompt of a user, or takes one of the packets that are still to be taken.
  Step-pending :
      {w u : World}
      → IsTold parties clients w
      → Step F m peers ch server parties clients w u
      → ((c : Socket) × (q : Prompt) × ((u.site c).asked ≡ (w.site c).asked ++ (q ∷ [])))
        ⊎ (pending u.site clients < pending w.site clients)
  Step-pending {w} t (enters c q d answer there good stays e) = inl (c, q, rw (==-same c) refl)
  Step-pending {w} t (hears c turn bs rest l there e got ran) =
      let (text, up, next, same) = next_up (t.talks c there) bs rest e in
      inr (
        pending-put_lt c _ w.site
          (omega (
            arith,
            left_lem (t.talks c there),
            ap length next,
            length-append (w.site c).heard (bs ∷ []),
          ))
          clients there)
  Step-pending {w} t (reads c bs packet_type rest effects there e ran) =
      let (text, down, next, same) =
        next_down (t.talks c there) bs rest
          (sym (sends-answers_to c parties t.history) ∙ ap (sends c) (sym t.logged) ∙ e) in
      inr (
        pending-put_lt c _ w.site
          (omega (
            arith,
            left_lem (t.talks c there),
            ap length next,
            length-append (w.site c).read (bs ∷ []),
          ))
          clients there)

  -- A server and its connected clients, in whatever state prompts of the users, visits of the
  -- server's thread and passes of the clients' loops have brought them, each connection giving
  -- whole packets once and in order: further visits and passes, without a prompt, lead to a state
  -- in which each client has shown all messages that the prompts of its user ask for; and any one
  -- step from the first state is a prompt, or takes one of the packets that server and clients
  -- have still to take, so that their count falls. The words of prompts have fewer than 256 bytes
  -- and no NUL, and no prompt asks for the end; two bytes lie behind the blocks of each client,
  -- blocks up to 1024 bytes can be had on all sides, the hosts of the clients are known, their
  -- sockets are not the server's own, and the locals for packet types have four bytes.
  pub Steps-drains :
      (l : Loop) (w : World)
      → length l.packet_type ≡ word_size
      → Steps F m peers ch server parties clients (opened F m peers ch server parties clients l) w
      → ((v : World) × Steps F m peers ch server parties clients w v
          × ((c : Socket) → (v.site c).asked ≡ (w.site c).asked)
          × All (λ c. HasRead (v.site c)) clients)
        × ((u : World)
            → Step F m peers ch server parties clients w u
            → ((c : Socket) × (q : Prompt) × ((u.site c).asked ≡ (w.site c).asked ++ (q ∷ [])))
              ⊎ (pending u.site clients < pending w.site clients))
  Steps-drains l w four r =
      let t : IsTold parties clients w =
        Steps-IsTold L M peers ch server parties clients joined room l w four r in
      let (v, d) = drain_all t clients (All-self clients) in
      ((v, d.steps, d.asked, d.read), λ u step. Step-pending t step)
