-- ===== src/Sample.antt =====
-- A concrete network and concrete messages for the tests: an address prints as its octets, and a host and a port are
-- separated by a colon.
use upfadapter.Prelude.{
  ℕ, Bool, true, false, Option, none, some, [], ◌∷◌, ◌++◌, ◌≡◌, refl, if◌then◌else◌, ◌==◌, ite,
  Text-discrete,
}
use upfadapter.Net.{Net, Text, Ip, UdpAddr}
use upfadapter.Pfcp.{
  MsgType, heartbeat_request, heartbeat_response, association_setup_request,
  association_setup_response, session_establishment_request, session_establishment_response,
  session_report_request, session_report_response, other_type, Pfcp,
}
use upfadapter.Elements.{Elements}
use upfadapter.Peers.{is_blank}

abbrev pub octets : Ip → Text
octets none = 60 ∷ []
octets (some []) = 60 ∷ []
octets (some (x ∷ b)) = x ∷ b

abbrev pub all_zero : Text → Bool
all_zero [] = true
all_zero (x ∷ b) = if x == 0 then all_zero b else false

abbrev pub before_colon : Text → Option Text
before_colon [] = none
before_colon (c ∷ rest) =
    let more = before_colon rest in
    if c == b':' then some [] else elim more [ none ↦ none | some h ↦ some (c ∷ h) ]

instance abbrev pub test_net : Net
test_net = record {
  parse_ip = λ s. elim s [ [] ↦ none | x ∷ b ↦ some (x ∷ b) ];
  ip_string = octets;
  ip_equal = λ a b. ite (Text-discrete (octets a) (octets b)) true false;
  is_unspecified = λ a. elim a [ none ↦ false | some b ↦ all_zero b ];
  to4 = λ a. a;
  to16 = λ a. a;
  udp_string = λ a. octets a.ip ++ (b':' ∷ a.port ∷ []);
  split_host = before_colon;
}

-- No address prints as the empty text.
pub printed : (ip : Ip) → is_blank (test_net.ip_string ip) ≡ false
printed none = refl
printed (some []) = refl
printed (some (x ∷ b)) = refl

abbrev pub peer : UdpAddr
peer = record { ip = some (10 ∷ 0 ∷ 0 ∷ 9 ∷ []); port = 8805 }

-- Messages that are a type and a sequence number.
pub record Message : Type 0 where
  pub kind : MsgType
  pub number : ℕ

abbrev code : MsgType → ℕ
code heartbeat_request = 1
code heartbeat_response = 2
code session_report_request = 56
code session_report_response = 57
code _ = 0

abbrev kind_of : ℕ → MsgType
kind_of k =
    if k == 1
    then heartbeat_request
    else if k == 2
    then heartbeat_response
    else if k == 56
    then session_report_request
    else if k == 57
    then session_report_response
    else other_type k

abbrev parse_message : Text → Option Message
parse_message (k ∷ n ∷ []) = some (record { kind = kind_of k; number = n })
parse_message _ = none

instance abbrev pub test_pfcp : Pfcp Message
test_pfcp = record {
  message_type = λ m. m.kind;
  sequence = λ m. m.number;
  set_sequence = λ n m. record m { number = n };
  seid = λ m. 7;
  marshal = λ m. some (code m.kind ∷ m.number ∷ []);
  parse = parse_message;
  has_type = λ t m. code t == code m.kind;
  report_rejection = λ seid n. record { kind = session_report_response; number = n };
}

-- Messages that are the number of a type and a sequence number, on the wire too, with fixed elements.
pub record Wire : Type 0 where
  pub kind : ℕ
  pub number : ℕ

abbrev wire_type : ℕ → MsgType
wire_type k =
    if k == 1
    then heartbeat_request
    else if k == 2
    then heartbeat_response
    else if k == 5
    then association_setup_request
    else if k == 6
    then association_setup_response
    else if k == 50
    then session_establishment_request
    else if k == 51
    then session_establishment_response
    else other_type k

abbrev wire_code : MsgType → ℕ
wire_code heartbeat_request = 1
wire_code heartbeat_response = 2
wire_code association_setup_request = 5
wire_code association_setup_response = 6
wire_code session_establishment_request = 50
wire_code session_establishment_response = 51
wire_code (other_type k) = k
wire_code _ = 0

abbrev read_wire : Text → Option Wire
read_wire (k ∷ n ∷ []) = some (record { kind = k; number = n })
read_wire _ = none

instance abbrev pub wire_pfcp : Pfcp Wire
wire_pfcp = record {
  message_type = λ m. wire_type m.kind;
  sequence = λ m. m.number;
  set_sequence = λ n m. record m { number = n };
  seid = λ m. 7;
  marshal = λ m. some (m.kind ∷ m.number ∷ []);
  parse = read_wire;
  has_type = λ t m. wire_code t == m.kind;
  report_rejection = λ seid n. record { kind = 57; number = n };
}

instance abbrev pub wire_elements : Elements Wire
wire_elements = record {
  recovery_time_stamp = λ m. some 0;
  set_recovery_time_stamp = λ t m. m;
  cause = λ m. some 1;
  cause_request_accepted = 1;
  node_id = λ m. some (10 ∷ 0 ∷ 0 ∷ 9 ∷ []);
  set_node_id = λ name m. m;
  cp_fseid = λ m. some 7;
  set_cp_fseid = λ seid ip m. m;
  asks_retention = λ m. m.number == 0;
  asrsp_flags = λ m. some (some 5);
  set_asrsp_flags = λ flags m. m;
}
