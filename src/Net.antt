-- ===== src/Net.antt =====
-- What the adapter uses of Go's package net. Its functions are a parameter: an instance of `Net`.
use upfadapter.Prelude.{ℕ, Bool, List, Option, ◌*◌}

-- A Go string or byte slice; where nil matters it is `none`.
abbrev pub Text : Type 0
Text = List ℕ

-- `net.IP`
abbrev pub Ip : Type 0
Ip = Option Text

-- `net.UDPAddr`
pub record UdpAddr : Type 0 where
  pub ip : Ip
  pub port : ℕ

pub record Net : Type 0 where
  pub parse_ip : Text → Ip
  pub ip_string : Ip → Text
  pub ip_equal : Ip → Ip → Bool
  pub is_unspecified : Ip → Bool
  pub to4 : Ip → Ip
  pub to16 : Ip → Ip
  pub udp_string : UdpAddr → Text
  pub split_host : Text → Option Text

-- Times and durations are nanoseconds since the zero `time.Time`. A difference that Go would make
-- negative is 0 here, which every comparison in the code treats alike.
abbrev pub second : ℕ
second = 1000000000

abbrev pub minute : ℕ
minute = 60 * second
