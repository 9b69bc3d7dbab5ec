-- ===== src/Board/Starts.antt =====
-- What the start of the server of HW1 leaves when it comes up.
use mathlib.Core.Path.{subst}
use ntu_systems_programming.Prelude.{
  ℕ, ◌%◌, ◌^◌, ◌≡◌, refl, Bool, true, false, Option, some, ◌==◌, arith, inl, inr, Option-cases,
}
use ntu_systems_programming.Board.Server.{Server}
use ntu_systems_programming.Board.Connections.{Main}
use ntu_systems_programming.Board.Setup.{
  Fault, Setup, stops, sets_up, require, ServerCalls, Listener, init_server, server_main,
}

-- Each connected client has the entry with the number of its descriptor, and the server its own.
abbrev pub TableOk : ℕ → (ℕ → Option ℕ) → Type 0
TableOk listen_fd requests =
    ((i fd : ℕ) → requests i ≡ some fd → fd ≡ i) × (requests listen_fd ≡ some listen_fd)

-- What holds of a result, if there is one.
ComesUp : {A : Type 0} → (A → Type 0) → Setup A → Type 0
ComesUp P (stops f) = true ≡ true
ComesUp P (sets_up a) = P a

require-ComesUp :
    {A : Type 0} (P : A → Type 0) (b : Bool) (fault : Fault) (rest : Setup A)
    → ComesUp P rest
    → ComesUp P (require b fault rest)
unfolding ComesUp
require-ComesUp P true fault rest h = h
require-ComesUp P false fault rest h = refl

abbrev IsListener : ℕ → Listener → Type 0
IsListener port l = (l.port ≡ port) × TableOk l.listen_fd l.requests

abbrev IsStarted : ℕ → Listener × Main → Type 0
IsStarted port (l, m) = (l.port ≡ port) × TableOk l.listen_fd m.requests

init_server-ComesUp : (port : ℕ) (c : ServerCalls) → ComesUp (IsListener port) (init_server port c)
unfolding init_server ComesUp
init_server-ComesUp port c = elim (Option-cases c.socket) [
  | inl e ↦ rw (init_server, e) refl
  | inr (fd, e) ↦
      rw (init_server, e)
        (require-ComesUp _ c.sets_option _ _ (
          require-ComesUp _ c.binds _ _ (
            require-ComesUp _ c.listens _ _ (
              require-ComesUp _ c.allocates _ _
                (refl, ((λ i f g. ground (arith, g)), ground arith))))))
]

from_listener :
    (port : ℕ) (s : Server) (r : Setup Listener)
    → ComesUp (IsListener port) r
    → ComesUp (IsStarted port) (elim r [
      | stops f ↦ stops f
      | sets_up l ↦ sets_up (l, record { server = s; requests = l.requests })
    ])
unfolding ComesUp
from_listener port s (stops f) h = h
from_listener port s (sets_up l) h = h

pub server_main_starts :
    (argc value : ℕ) (c : ServerCalls) (s : Server) {l : Listener} {m : Main}
    → server_main argc value c s ≡ sets_up (l, m)
    → IsStarted (value % 2 ^ 16) (l, m)
unfolding server_main ComesUp
server_main_starts argc value c s h = subst (ComesUp (IsStarted (value % 2 ^ 16))) h (
    require-ComesUp _ (argc == 2) _ _
      (from_listener _ s _ (init_server-ComesUp (value % 2 ^ 16) c)))
