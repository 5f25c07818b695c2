-- ===== src/Os/Base.antt =====
-- The parameter `Os`, and the monad of the methods over it.
pub use firelink_net.Os.Calls.{Call, Span, SockaddrStorage, ProtocolInfo, Event}
use firelink_net.Prelude.{ℕ, Bool, Option, List, ◌∷◌}
use firelink_net.Types.{ErrorCode}
use firelink_net.Endpoint.{Pun}

-- What a call returns, and what it writes through its out-pointers (`none`: nothing was written).
pub record Reply : Type 0 where
  pub ret : ℕ
  pub address : Option SockaddrStorage
  pub peer : Option SockaddrStorage
  pub info : ProtocolInfo
  pub out : ℕ

pub record Os : Type 1 where
  pub World : Type 0
  pub answer : Call → World → Reply × World
  pub htons : ℕ → ℕ
  pub ntohs : ℕ → ℕ
  pub pun : Pun

-- `core_alive`: whether `io_core_.lock()` finds the `IOCore`. The trace is newest first.
pub record Machine (W : Type 0) : Type 0 where
  pub world : W
  pub core_alive : Bool
  pub trace : List Event

abbrev pub M : Type 0 → Type 0 → Type 0
M W A = Machine W → A × Machine W

-- `pure` and the binds serve any state, also that of Socket/Async.
abbrev pub pure : {S A : Type 0} → A → S → A × S
pure a m = (a, m)

infixl 5 ◌>>=◌ ◌>>◌
abbrev pub ◌>>=◌ : {S A B : Type 0} → (S → A × S) → (A → S → B × S) → S → B × S
(x >>= f) m = let (a, m') = x m in f a m'

abbrev pub ◌>>◌ : {S A B : Type 0} → (S → A × S) → (S → B × S) → S → B × S
(x >> y) m = let (a, m') = x m in y m'

-- One system call.
unfoldable pub sys : (os : Os) → Call → M os.World Reply
sys os c m =
    let (r, w) = os.answer c m.world in (r, record m { world = w; trace = (c, r.ret) ∷ m.trace })

-- `static_cast<ErrorCode>(WSAGetLastError())`
unfoldable pub last_error_code : (os : Os) → M os.World ErrorCode
unfolding sys
last_error_code os = do r ← sys os Call.last_error; pure r.ret

-- `io_core_.lock()`
unfoldable pub lock_core : {W : Type 0} → M W Bool
lock_core m = (m.core_alive, m)
