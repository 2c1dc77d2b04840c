-- ===== src/Peers/Tests.antt =====
-- Runs of the tables of user planes, and the theorems about them at concrete inputs.
use upfadapter.Prelude.{
  ℕ, ◌+◌, ◌*◌, ◌≡◌, ◌↔◌, ◌≢◌, refl, true, false, Option, some, [], ◌∷◌, List, ite, nat_key,
  text_key, ℕ_discrete, Text-discrete, Map, Set, lookup, insert, delete, mem, is_empty, arith,
  lookup-nil,
}
use upfadapter.Net.{Text, second, minute}
use upfadapter.Sample.{test_net, printed}
use upfadapter.Relay.{empty_table}
use upfadapter.Relay.WellFormed.{empty_table-IsWellFormed}
use upfadapter.Peers.{
  UpfNodeRecord, Peers, any_recent, is_known_upf_addr, forget_upf_addr_locked, expire_node,
  expire_nodes, expire_upf_addrs_locked, leave_address, place_node, note_node, record_upf_addr,
}
use upfadapter.Peers.Forget.{IsPlaced, IsGuarded}
use upfadapter.Peers.Expire.{recent_only}
use upfadapter.Peers.Naming.{after_naming, lookup-record_upf_addr}
use upfadapter.Peers.Known.{
  IsNamedAt, is_known_upf_addr_iff, record_upf_addr-IsPlaced, record_upf_addr-IsGuarded,
  record_upf_addr_moved,
}

program : Unit {0}
unfolding any_recent is_known_upf_addr forget_upf_addr_locked expire_node expire_nodes
    expire_upf_addrs_locked leave_address place_node note_node record_upf_addr lookup insert delete
    is_empty mem ℕ_discrete Text-discrete
program = tt

-- The hook keeps the addresses that were released.
abbrev keep : Option (Text → List Text → List Text)
keep = some (λ addr held. addr ∷ held)

abbrev nobody : Peers (List Text)
nobody = record { addrs = []; nodes = []; relay_table = empty_table; hooked = [] }

abbrev here : Text
here = 10 ∷ 9 ∷ []

abbrev there : Text
there = 10 ∷ 8 ∷ []

abbrev upf : Text
upf = b'u' ∷ []

-- The node is named at `here`.
abbrev one_peer : Peers (List Text)
one_peer = record_upf_addr keep (100 * second) (100 * second) upf (some here) nobody

-- And later at `there`.
abbrev moved_peer : Peers (List Text)
moved_peer = record_upf_addr keep (200 * second) (200 * second) upf (some there) one_peer

known_here : is_known_upf_addr (some here) (101 * second) one_peer ≡ true
unfolding program
known_here = refl

released_here : moved_peer.hooked ≡ here ∷ []
unfolding program
released_here = refl

unknown_here : is_known_upf_addr (some here) (201 * second) moved_peer ≡ false
unfolding program
unknown_here = refl

gone_quiet : is_known_upf_addr (some here) (100 * second + 31 * minute) one_peer ≡ false
unfolding program
gone_quiet = refl

nobody-IsPlaced : IsPlaced nobody
nobody-IsPlaced = record {
  agree = λ a n. ground (
    arith,
    lookup-nil {V = Set Text} a,
    lookup-nil {V = UpfNodeRecord} n,
    lookup-nil {V = Unit {0}} n,
  );
}

nobody-IsGuarded : IsGuarded nobody
nobody-IsGuarded = record {
  indexed = empty_table-IsWellFormed.indexed;
  authorised = λ a s h. ground (
    arith,
    empty_table-IsWellFormed.indexed.agree a s,
    lookup-nil {V = Map ℕ (Unit {0})} a,
    lookup-nil {V = Unit {0}} s,
  );
}

one_peer-IsPlaced : IsPlaced one_peer
one_peer-IsPlaced =
    record_upf_addr-IsPlaced printed keep (100 * second) (100 * second) upf (some here) nobody
      nobody-IsPlaced

is_known_upf_addr_iff_example :
    (is_known_upf_addr (some here) (101 * second) one_peer ≡ true)
    ↔ IsNamedAt here (101 * second) one_peer
is_known_upf_addr_iff_example =
    is_known_upf_addr_iff printed here (101 * second) one_peer one_peer-IsPlaced

record_upf_addr-IsGuarded_example : IsGuarded one_peer
record_upf_addr-IsGuarded_example =
    record_upf_addr-IsGuarded printed keep (100 * second) (100 * second) upf (some here) nobody
      nobody-IsGuarded

lookup-record_upf_addr_example :
    lookup upf moved_peer.nodes
    ≡ ite
        (Text-discrete upf upf)
        (after_naming (200 * second) (some there) (lookup upf one_peer.nodes))
        (recent_only (200 * second) (lookup upf one_peer.nodes))
lookup-record_upf_addr_example =
    lookup-record_upf_addr keep (200 * second) (200 * second) upf upf (some there) one_peer

only_upf :
    (n : Text) (r : UpfNodeRecord) → n ≢ upf → lookup n one_peer.nodes ≡ some r → r.addr ≢ here
only_upf n r other stored = absurd (
    ground (
      arith,
      stored,
      lookup-record_upf_addr keep (100 * second) (100 * second) n upf (some here) nobody,
      lookup-nil {V = UpfNodeRecord} n,
    ))

record_upf_addr_moved_example : is_known_upf_addr (some here) (300 * second) moved_peer ≡ false
unfolding program
record_upf_addr_moved_example =
    record_upf_addr_moved printed keep (200 * second) (200 * second) upf there one_peer
      one_peer-IsPlaced (omega arith) refl here (300 * second) (λ e. cc) only_upf
