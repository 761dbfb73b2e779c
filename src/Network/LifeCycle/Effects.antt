-- ===== src/Network/LifeCycle/Effects.antt =====
-- What the owner's calls on a network show to the outside: they close sockets and send nothing.
use poco_echo.Base.{
  none, ◌≡◌, refl, Bool-cases, inl, inr, All, Ensures, Ensures-step, Ensures-bind, or_fault,
  assertion,
}
use poco_echo.Effect.{IsSilent}
use poco_echo.Network.LifeCycle.{
  Network, Pointer, null, live, freed, is_initialized, delete_thread, exit, close_thread, close,
}

pub exit-IsSilent : (n : Network) → Ensures (λ r. All IsSilent r.1) (exit n)
unfolding exit
exit-IsSilent n =
    Ensures-step (λ r. All IsSilent r.1) (or_fault assertion n.socket) _
      λ s. Ensures-step (λ r. All IsSilent r.1) (delete_thread n.thread) _ λ thread. (tt, tt)

close_thread-IsSilent :
    (n : Network) (p : Pointer) → Ensures (λ r. All IsSilent r.2) (close_thread n p)
unfolding close_thread
close_thread-IsSilent n null =
    Ensures-bind (λ r. All IsSilent r.1) (λ r. All IsSilent r.2) (exit n) _ (exit-IsSilent n)
      λ r h. h
close_thread-IsSilent n live = tt
close_thread-IsSilent n freed = tt

pub close-IsSilent : (n : Network) → Ensures (λ r. All IsSilent r.2) (close n)
unfolding close
close-IsSilent n = elim (Bool-cases (is_initialized n)) [
  | inl there ↦ rw there (close_thread-IsSilent n n.thread)
  | inr gone ↦ rw gone tt
]

-- `Exit` leaves no socket.
pub exit-closed : (n : Network) → Ensures (λ r. r.0.socket ≡ none) (exit n)
unfolding exit
exit-closed n =
    Ensures-step (λ r. r.0.socket ≡ none) (or_fault assertion n.socket) _
      λ s. Ensures-step (λ r. r.0.socket ≡ none) (delete_thread n.thread) _ λ thread. refl
