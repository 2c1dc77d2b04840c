-- ===== src/Udp/Stopping.antt =====
-- Run, serve and readLoop of pfcp/udp/udp.go: what they dispatch, and how they end.
use upfadapter.Prelude.{
  ℕ, ◌≡◌, ◌≢◌, refl, sym, ap, subst, ◌∙◌, true, Option, none, some, List, [], ◌∷◌, ◌++◌, ◌⊎◌, inl,
  inr, arith,
}
use mathlib.Core.List.{append-nil}
use upfadapter.Net.{Net, Text, UdpAddr}
use upfadapter.Pfcp.{Pfcp}
use upfadapter.Udp.{Packet, socket_closed, read_pfcp_message, read_packet}
use upfadapter.Udp.Tables.{Server}
use upfadapter.Udp.Reading.{read_packet-open}
use upfadapter.Udp.Service.{
  Loop, reading, stopped, dispatching, Stage, serving, context_ended, closing, returned, Service,
  ServiceEvent, reads, dispatches, cancels, closes, returns, new_server, run, read_step,
  dispatch_step, serve_step, serve, cancelled, shut_socket, waited, delivered,
}

-- The message that was read and not yet dispatched, if there is one.
abbrev pub in_hand : {M : Type 0} → Loop M → List (M × UdpAddr)
in_hand (dispatching msg addr) = (msg, addr) ∷ []
in_hand _ = []

Loop-cases :
    {M : Type 0} (l : Loop M)
    → (l ≡ reading) ⊎ (l ≡ stopped) ⊎ ((msg : M) × (addr : UdpAddr) × (l ≡ dispatching msg addr))
Loop-cases reading = inl refl
Loop-cases stopped = inr (inl refl)
Loop-cases (dispatching msg addr) = inr (inr (msg, addr, refl))

-- Where Run has returned, the read loop is through.
abbrev pub Waited : {M : Type 0} → Stage → Loop M → Type 0
Waited returned l = l ≡ stopped
Waited stage l = Unit

stopped-Waited :
    {M : Type 0} (stage : Stage) (l : Loop M) → (stage ≡ returned → l ≡ stopped) → Waited stage l
stopped-Waited returned l h = h refl
stopped-Waited serving l h = tt
stopped-Waited context_ended l h = tt
stopped-Waited closing l h = tt

cancelled-returned : (stage : Stage) → cancelled stage ≡ returned → stage ≡ returned
cancelled-returned serving h = absurd (ground (arith, h))
cancelled-returned context_ended h = absurd (ground (arith, h))
cancelled-returned closing h = absurd (ground (arith, h))
cancelled-returned returned h = h

shut_socket-returned : (stage : Stage) → shut_socket stage ≡ returned → stage ≡ returned
shut_socket-returned serving h = absurd (ground (arith, h))
shut_socket-returned context_ended h = absurd (ground (arith, h))
shut_socket-returned closing h = absurd (ground (arith, h))
shut_socket-returned returned h = h

-- The context's end was seen, and the socket is closed.
abbrev pub IsTold : Stage → Type 0
IsTold stage = stage ≢ serving

abbrev pub IsShut : Stage → Type 0
IsShut stage = (stage ≢ serving) × (stage ≢ context_ended)

pub cancelled-IsTold : (stage : Stage) → IsTold (cancelled stage)
cancelled-IsTold serving h = ground (arith, h)
cancelled-IsTold context_ended h = ground (arith, h)
cancelled-IsTold closing h = ground (arith, h)
cancelled-IsTold returned h = ground (arith, h)

IsTold-shut_socket : (stage : Stage) → IsTold stage → IsTold (shut_socket stage)
IsTold-shut_socket serving h e = h e
IsTold-shut_socket context_ended h e = ground (arith, e)
IsTold-shut_socket closing h e = ground (arith, e)
IsTold-shut_socket returned h e = ground (arith, e)

pub shut_socket-IsShut : (stage : Stage) → IsTold stage → IsShut (shut_socket stage)
shut_socket-IsShut serving h = absurd (h refl)
shut_socket-IsShut context_ended h = (λ e. ground (arith, e), λ e. ground (arith, e))
shut_socket-IsShut closing h = (λ e. ground (arith, e), λ e. ground (arith, e))
shut_socket-IsShut returned h = (λ e. ground (arith, e), λ e. ground (arith, e))

cancelled-same : (stage : Stage) → IsShut stage → cancelled stage ≡ stage
cancelled-same serving (h, g) = absurd (h refl)
cancelled-same context_ended (h, g) = absurd (g refl)
cancelled-same closing h = refl
cancelled-same returned h = refl

waited-stopped :
    {M : Type 0} (l : Loop M) (stage : Stage)
    → (stage ≡ returned → l ≡ stopped)
    → waited l stage ≡ returned
    → l ≡ stopped
waited-stopped stopped stage h e = refl
waited-stopped reading stage h e = h e
waited-stopped (dispatching msg addr) stage h e = h e

waited-kept :
    {M : Type 0} (l : Loop M) (stage other : Stage)
    → other ≢ returned
    → stage ≢ other
    → waited l stage ≢ other
waited-kept stopped serving other new h e = h e
waited-kept stopped context_ended other new h e = h e
waited-kept stopped closing other new h e = new (sym e)
waited-kept stopped returned other new h e = h e
waited-kept reading stage other new h e = h e
waited-kept (dispatching msg addr) stage other new h e = h e

waited-IsTold : {M : Type 0} (l : Loop M) (stage : Stage) → IsTold stage → IsTold (waited l stage)
waited-IsTold l stage h = waited-kept l stage serving (λ e. ground (arith, e)) h

waited-IsShut : {M : Type 0} (l : Loop M) (stage : Stage) → IsShut stage → IsShut (waited l stage)
waited-IsShut l stage (h, g) =
    (waited-IsTold l stage h, waited-kept l stage context_ended (λ e. ground (arith, e)) g)

delivered_closed : (stage : Stage) (p : Packet) → IsShut stage → delivered stage p ≡ socket_closed
delivered_closed serving p (h, g) = absurd (h refl)
delivered_closed context_ended p (h, g) = absurd (g refl)
delivered_closed closing p h = refl
delivered_closed returned p h = refl

module _ {M E : Type 0} ⦃net : Net⦄ ⦃pfcp : Pfcp M⦄ where
  -- There is a socket, and Run has returned only with the loop through.
  pub record IsRunning (s : Service M E) : Type 0 where
    pub socket : Server E
    pub there : s.server ≡ some socket
    pub listens : socket.listening ≡ true
    pub waits : s.stage ≡ returned → s.loop ≡ stopped

  -- The socket is closed, and these are the messages read before.
  abbrev IsClosed : List (M × UdpAddr) → Service M E → Type 0
  IsClosed final s = IsShut s.stage × (s.dispatched ++ in_hand s.loop ≡ final)

  read_step-IsRunning :
      (l : Loop M) (p : Packet) (s : Service M E)
      → s.loop ≡ l
      → IsRunning s
      → IsRunning (read_step l p s)
  unfolding read_step
  read_step-IsRunning reading p s e v =
      let (socket, read, listens) = read_packet-open M (delivered s.stage p) v.socket v.listens in
      record {
        socket = socket;
        there = ap (λ x. (read_pfcp_message {M = M} (delivered s.stage p) x).0) v.there ∙ read;
        listens = listens;
        waits = λ h. absurd (ground (arith, v.waits h, e));
      }
  read_step-IsRunning stopped p s e v = v
  read_step-IsRunning (dispatching msg addr) p s e v = v

  dispatch_step-IsRunning :
      (l : Loop M) (s : Service M E) → s.loop ≡ l → IsRunning s → IsRunning (dispatch_step l s)
  unfolding dispatch_step
  dispatch_step-IsRunning (dispatching msg addr) s e v = record {
    socket = v.socket;
    there = v.there;
    listens = v.listens;
    waits = λ h. absurd (ground (arith, v.waits h, e));
  }
  dispatch_step-IsRunning reading s e v = v
  dispatch_step-IsRunning stopped s e v = v

  pub serve_step-IsRunning :
      (s : Service M E) (e : ServiceEvent) → IsRunning s → IsRunning (serve_step s e)
  unfolding serve_step
  serve_step-IsRunning s (reads p) v = read_step-IsRunning s.loop p s refl v
  serve_step-IsRunning s dispatches v = dispatch_step-IsRunning s.loop s refl v
  serve_step-IsRunning s cancels v = record {
    socket = v.socket;
    there = v.there;
    listens = v.listens;
    waits = λ h. v.waits (cancelled-returned s.stage h);
  }
  serve_step-IsRunning s closes v = record {
    socket = v.socket;
    there = v.there;
    listens = v.listens;
    waits = λ h. v.waits (shut_socket-returned s.stage h);
  }
  serve_step-IsRunning s returns v = record {
    socket = v.socket;
    there = v.there;
    listens = v.listens;
    waits = waited-stopped s.loop s.stage v.waits;
  }

  read_step-IsClosed :
      (final : List (M × UdpAddr)) (l : Loop M) (p : Packet) (s : Service M E)
      → s.loop ≡ l
      → IsRunning s
      → IsClosed final s
      → IsClosed final (read_step l p s)
  unfolding read_step read_pfcp_message read_packet
  read_step-IsClosed final reading p s e v (shut, same) =
      let gone = delivered_closed s.stage p shut in
      let socket = v.socket in (shut, ground (arith, gone, v.there, v.listens, e, same))
  read_step-IsClosed final stopped p s e v c = c
  read_step-IsClosed final (dispatching msg addr) p s e v c = c

  dispatch_step-IsClosed :
      (final : List (M × UdpAddr)) (l : Loop M) (s : Service M E)
      → s.loop ≡ l
      → IsClosed final s
      → IsClosed final (dispatch_step l s)
  unfolding dispatch_step
  dispatch_step-IsClosed final (dispatching msg addr) s e (shut, same) =
      (shut, append-nil _ ∙ ap (λ l. s.dispatched ++ in_hand l) (sym e) ∙ same)
  dispatch_step-IsClosed final reading s e c = c
  dispatch_step-IsClosed final stopped s e c = c

  serve_step-IsClosed :
      (final : List (M × UdpAddr)) (s : Service M E) (e : ServiceEvent)
      → IsRunning s
      → IsClosed final s
      → IsClosed final (serve_step s e)
  unfolding serve_step
  serve_step-IsClosed final s (reads p) v c = read_step-IsClosed final s.loop p s refl v c
  serve_step-IsClosed final s dispatches v c = dispatch_step-IsClosed final s.loop s refl c
  serve_step-IsClosed final s cancels v (shut, same) =
      (subst IsShut (sym (cancelled-same s.stage shut)) shut, same)
  serve_step-IsClosed final s closes v (shut, same) = (shut_socket-IsShut s.stage shut.0, same)
  serve_step-IsClosed final s returns v (shut, same) = (waited-IsShut s.loop s.stage shut, same)

  serve-IsRunning :
      (es : List ServiceEvent) (s : Service M E) → IsRunning s → IsRunning (serve s es)
  unfolding serve
  serve-IsRunning [] s v = v
  serve-IsRunning (e ∷ es) s v = serve-IsRunning es (serve_step s e) (serve_step-IsRunning s e v)

  serve-IsClosed :
      (final : List (M × UdpAddr)) (es : List ServiceEvent) (s : Service M E)
      → IsRunning s
      → IsClosed final s
      → IsClosed final (serve s es)
  unfolding serve
  serve-IsClosed final [] s v c = c
  serve-IsClosed final (e ∷ es) s v c =
      serve-IsClosed final es (serve_step s e) (serve_step-IsRunning s e v)
        (serve_step-IsClosed final s e v c)

  -- A started dispatch, a read and the end of the wait are all that is left to do.
  pub closed_returns :
      (p : Packet) (s : Service M E)
      → IsRunning s
      → IsShut s.stage
      → (serve s (dispatches ∷ reads p ∷ returns ∷ [])).stage ≡ returned
  unfolding serve serve_step dispatch_step read_step read_pfcp_message read_packet
  closed_returns p s v shut =
      let gone = delivered_closed s.stage p shut in
      elim (Loop-cases s.loop) [
        | inl e ↦ ground (arith, e, gone, v.there, v.listens, shut)
        | inr (inl e) ↦ ground (arith, e, gone, v.there, v.listens, shut)
        | inr (inr (msg, addr, e)) ↦ ground (arith, e, gone, v.there, v.listens, shut)
      ]

  step-IsTold :
      (s : Service M E) (e : ServiceEvent) → IsTold s.stage → IsTold (serve_step s e).stage
  unfolding serve_step read_step dispatch_step
  step-IsTold s (reads p) h = elim (Loop-cases s.loop) [
    | inl e ↦ rw e h
    | inr (inl e) ↦ rw e h
    | inr (inr (msg, addr, e)) ↦ rw e h
  ]
  step-IsTold s dispatches h = elim (Loop-cases s.loop) [
    | inl e ↦ rw e h
    | inr (inl e) ↦ rw e h
    | inr (inr (msg, addr, e)) ↦ rw e h
  ]
  step-IsTold s cancels h = cancelled-IsTold s.stage
  step-IsTold s closes h = IsTold-shut_socket s.stage h
  step-IsTold s returns h = waited-IsTold s.loop s.stage h

  serve-IsTold :
      (es : List ServiceEvent) (s : Service M E) → IsTold s.stage → IsTold (serve s es).stage
  unfolding serve
  serve-IsTold [] s h = h
  serve-IsTold (e ∷ es) s h = serve-IsTold es (serve_step s e) (step-IsTold s e h)

  -- Where the socket is opened: once serve has seen the end of the context, and after whatever the read
  -- loop does until then, has closed the socket, no message is dispatched any more but the one that
  -- may have been read before the close, whatever the socket still holds; Run has returned only if the
  -- read loop is through; and whatever has happened, the dispatch of that message, one read and the
  -- end of the wait are enough for Run to return. Where it cannot be opened, Run returns at once and
  -- leaves the server as it was.
  pub serve_stops :
      (addr : UdpAddr) (local_addr : Text) (now start_time : ℕ) (old : Option (Server E))
      (before between after : List ServiceEvent) (p : Packet)
      → let s : Service M E = serve (run addr (some local_addr) now old start_time) before in
        let seen = serve (serve_step s cancels) between in
        let f = serve (serve_step seen closes) after in
        (f.dispatched ++ in_hand f.loop ≡ seen.dispatched ++ in_hand seen.loop)
        × Waited f.stage f.loop
        × ((serve f (dispatches ∷ reads p ∷ returns ∷ [])).stage ≡ returned)
        × ((run {M = M} addr none now old start_time).stage ≡ returned)
        × ((run {M = M} addr none now old start_time).server ≡ old)
  unfolding run serve_step
  serve_stops addr local_addr now start_time old before between after p =
      let start : Service M E = run addr (some local_addr) now old start_time in
      let s = serve start before in
      let v = serve-IsRunning before start (record {
        socket = new_server addr local_addr;
        there = refl;
        listens = refl;
        waits = λ h. absurd (ground (arith, h));
      }) in
      let cancelling = serve_step s cancels in
      let seen = serve cancelling between in
      let v1 = serve-IsRunning between cancelling (serve_step-IsRunning s cancels v) in
      let knows = serve-IsTold between cancelling (cancelled-IsTold s.stage) in
      let v2 = serve_step-IsRunning seen closes v1 in
      let f = serve (serve_step seen closes) after in
      let running = serve-IsRunning after (serve_step seen closes) v2 in
      let c =
        serve-IsClosed (seen.dispatched ++ in_hand seen.loop) after (serve_step seen closes) v2
          (shut_socket-IsShut seen.stage knows, refl) in
      (c.1, stopped-Waited f.stage f.loop running.waits, closed_returns p f running c.0, refl, refl)
