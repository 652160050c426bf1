-- ===== src/Tcp/Network.antt =====
-- Two sessions, each over a pool of its own, and the network between them. The network may lose,
-- repeat, reorder and delay the packets that a session has given to `transmit_`, and may bring bytes
-- that the checksum does not accept.
pub mod Joined
pub mod Stream
mod Examples
use fast_break.Base.{ℕ, ◌<◌, ◌≤◌, List, [], ◌++◌, length, get_or}
use fast_break.Tcp.Crc.Detect.{AllBytes}
use fast_break.Tcp.Endpoint.{deliver}
use fast_break.Tcp.Endpoint.Peer.{Garbled}
use fast_break.Tcp.Session.{Clock, Session, send, tick}

-- `TCP_LITE_MTU`
abbrev pub tcp_lite_mtu : ℕ
tcp_lite_mtu = 1040

-- The sessions, and what the program has given each to send.
pub record Network : Type 0 where
  pub left : Session
  pub right : Session
  pub left_given : List ℕ
  pub right_given : List ℕ

-- Nothing has been sent.
abbrev pub joined : Session → Session → Network
joined left right = record { left = left; right = right; left_given = []; right_given = [] }

-- What happens at a session, with the other one's packets in `wire`.
pub data Act (clock : Clock) (wire : List (List ℕ)) (s : Session) (given : List ℕ)
    : Session → List ℕ → Type 0 where
  sends :
      (bytes : List ℕ)
      → AllBytes bytes
      → Act clock wire s given (send clock bytes s) (given ++ bytes)
  ticks : Act clock wire s given (tick clock s) given
  -- Any packet ever sent, and not used up.
  arrives :
      (i : ℕ) → i < length wire → Act clock wire s given (deliver clock (get_or wire i []) s) given
  garbles :
      (bytes : List ℕ)
      → Garbled bytes
      → length bytes ≤ tcp_lite_mtu
      → Act clock wire s given (deliver clock bytes s) given

pub data Move (left_clock right_clock : Clock) (n : Network) : Network → Type 0 where
  lefts :
      {s : Session} {given : List ℕ}
      → Act left_clock n.right.wire n.left n.left_given s given
      → Move left_clock right_clock n (record n { left = s; left_given = given })
  rights :
      {s : Session} {given : List ℕ}
      → Act right_clock n.left.wire n.right n.right_given s given
      → Move left_clock right_clock n (record n { right = s; right_given = given })

pub data Moves (left_clock right_clock : Clock) (n : Network) : Network → Type 0 where
  started : Moves left_clock right_clock n n
  moved :
      {m o : Network}
      → Moves left_clock right_clock n m
      → Move left_clock right_clock m o
      → Moves left_clock right_clock n o
