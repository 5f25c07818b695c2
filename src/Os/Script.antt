-- ===== src/Os/Script.antt =====
-- A system for tests: it answers from a list of replies, and with zeros when the list is used up.
-- `failing` is one whose last error is always 5.
use firelink_net.Prelude.{ℕ, ◌+◌, ◌*◌, ◌/◌, ◌%◌, true, none, List, [], ◌∷◌, arith}
use firelink_net.Endpoint.{any4, any6}
use firelink_net.Os.Base.{Call, Reply, Os, Machine}
use firelink_net.Os.Laws.{SetsLastError, ByteOrder}

abbrev pub returns : ℕ → Reply
returns r = record {
  ret = r;
  address = none;
  peer = none;
  info = record { address_family = 0; socket_type = 0; protocol = 0 };
  out = 0;
}

abbrev next : List Reply → Reply × List Reply
next [] = (returns 0, [])
next (r ∷ rs) = (r, rs)

-- The last error is 5; anything else comes from the script.
abbrev pub scripted_answer : Call → List Reply → Reply × List Reply
scripted_answer Call.last_error w = (returns 5, w)
scripted_answer _ w = next w

abbrev pub swap_bytes : ℕ → ℕ
swap_bytes p = p % 256 * 256 + p / 256 % 256

abbrev pub scripted : Os
scripted = record {
  World = List Reply;
  answer = scripted_answer;
  htons = swap_bytes;
  ntohs = swap_bytes;
  pun = record { as_ipv4 = λ e. any4 0; as_ipv6 = λ e. any6 0 };
}

abbrev pub start : List Reply → Machine (List Reply)
start rs = record { world = rs; core_alive = true; trace = [] }

pub scripted-SetsLastError : SetsLastError scripted
scripted-SetsLastError c w h = ground arith

pub scripted-ByteOrder : ByteOrder scripted
scripted-ByteOrder = record {
  to_host = λ p h. omega arith;
  to_net = λ p h. omega arith;
  host_small = λ p h. omega arith;
}
