-- ===== src/Program/Ending.antt =====
-- How main of upfadapter.go ends.
use upfadapter.Prelude.{
  ℕ, ◌≡◌, refl, sym, ap, subst, ◌∙◌, true, false, Option, none, some, List, [], ◌∷◌, ◌++◌, map, ◌⊎◌,
  inl, inr, Bool-cases, arith,
}
use upfadapter.Net.{Net, Text, UdpAddr}
use upfadapter.Pfcp.{Pfcp}
use upfadapter.Udp.{Packet}
use upfadapter.Report.{EventData}
use upfadapter.Udp.Service.{
  stopped, returned, Service, ServiceEvent, reads, dispatches, cancels, closes, returns, cancelled,
  run, serve_step, serve, new_server, read_step, dispatch_step,
}
use upfadapter.Udp.Stopping.{
  IsRunning, serve_step-IsRunning, closed_returns, cancelled-IsTold, shut_socket-IsShut,
}
use upfadapter.Program.Place.{
  Told, Told-signals, Told-breaks, Told-take_error, Told-take_done, Told-live, has_returned_sound,
  is_ready_signalled,
}
use upfadapter.Program.{
  Program, MainEvent, signals, http_fails, takes_error, takes_done, shuts, joins, pfcp_runs,
  MainStage, selecting, shutting_down, joining, failed, terminated, main, shut, join, live_step,
  main_step, execute, is_over, has_returned, is_ready,
}

-- What is left to do once the signal has come.
abbrev pub finale : Packet → List MainEvent
finale q =
    takes_done ∷ shuts ∷ map pfcp_runs (cancels ∷ closes ∷ dispatches ∷ reads q ∷ returns ∷ [])
    ++ (joins ∷ [])

module _ {M : Type 0} ⦃net : Net⦄ ⦃pfcp : Pfcp M⦄ where
  -- Run works, or it has returned with no loop left.
  abbrev IsSound : Service M EventData → Type 0
  IsSound s = IsRunning s ⊎ ((s.stage ≡ returned) × (s.loop ≡ stopped))

  IsSound-serve_step :
      (s : Service M EventData) (e : ServiceEvent) → IsSound s → IsSound (serve_step s e)
  unfolding serve_step read_step dispatch_step
  IsSound-serve_step s e (inl v) = inl (serve_step-IsRunning s e v)
  IsSound-serve_step s (reads p) (inr (over, e)) = inr (ground (arith, e, over), ground (arith, e))
  IsSound-serve_step s dispatches (inr (over, e)) = inr (ground (arith, e, over), ground (arith, e))
  IsSound-serve_step s cancels (inr (over, e)) = inr (ground (arith, over), e)
  IsSound-serve_step s closes (inr (over, e)) = inr (ground (arith, over), e)
  IsSound-serve_step s returns (inr (over, e)) = inr (ground (arith, e, over), e)

  abbrev IsMain : Program M → Type 0
  IsMain p = IsSound p.service × Told p.stage p.http p.signalled p.service.stage

  shut-IsMain : (m : MainStage) (p : Program M) → p.stage ≡ m → IsMain p → IsMain (shut m p)
  unfolding shut
  shut-IsMain shutting_down p e (sound, told) =
      (sound, (subst (λ m. Told m p.http p.signalled p.service.stage) e told, refl))
  shut-IsMain selecting p e v = v
  shut-IsMain joining p e v = v
  shut-IsMain terminated p e v = v
  shut-IsMain failed p e v = v

  join-IsMain : (m : MainStage) (p : Program M) → p.stage ≡ m → IsMain p → IsMain (join m p)
  unfolding join
  join-IsMain joining p e (sound, told) = elim (Bool-cases (has_returned p.service.stage)) [
    | inl over ↦
        let (signalled, shut) = subst (λ m. Told m p.http p.signalled p.service.stage) e told in
        simp over (sound, (signalled, shut, has_returned_sound p.service.stage over))
    | inr still ↦ simp still (sound, told)
  ]
  join-IsMain selecting p e v = v
  join-IsMain shutting_down p e v = v
  join-IsMain terminated p e v = v
  join-IsMain failed p e v = v

  live_step-IsMain :
      (p : Program M) (e : MainEvent) → is_over p.stage ≡ false → IsMain p → IsMain (live_step p e)
  unfolding live_step
  live_step-IsMain p signals live (sound, told) = (sound, Told-signals p.stage _ _ _ told)
  live_step-IsMain p http_fails live (sound, told) = (sound, Told-breaks p.stage _ _ _ told)
  live_step-IsMain p takes_error live (sound, told) = (sound, Told-take_error p.stage _ _ _ told)
  live_step-IsMain p takes_done live (sound, told) = (sound, Told-take_done p.stage _ _ _ told)
  live_step-IsMain p shuts live v = shut-IsMain p.stage p refl v
  live_step-IsMain p joins live v = join-IsMain p.stage p refl v
  live_step-IsMain p (pfcp_runs e) live (sound, told) = elim (Bool-cases (is_ready p.signalled e)) [
    | inl ready ↦ simp ready (
      IsSound-serve_step p.service e sound,
      Told-live p.stage p.http p.signalled p.service.stage (serve_step p.service e).stage live told,
    )
    | inr waits ↦ simp waits (sound, told)
  ]

  main_step-IsMain : (p : Program M) (e : MainEvent) → IsMain p → IsMain (main_step p e)
  unfolding main_step
  main_step-IsMain p e v = elim (Bool-cases (is_over p.stage)) [
    | inl over ↦ simp over v
    | inr live ↦ simp live (live_step-IsMain p e live v)
  ]

  execute-IsMain : (es : List MainEvent) (p : Program M) → IsMain p → IsMain (execute p es)
  unfolding execute
  execute-IsMain [] p v = v
  execute-IsMain (e ∷ es) p v = execute-IsMain es (main_step p e) (main_step-IsMain p e v)

  over_returns :
      (q : Packet) (s : Service M EventData)
      → s.stage ≡ returned
      → s.loop ≡ stopped
      → (serve s (cancels ∷ closes ∷ dispatches ∷ reads q ∷ returns ∷ [])).stage ≡ returned
  unfolding serve serve_step read_step dispatch_step
  over_returns q s over e = ground (arith, over, e)

  sound_returns :
      (q : Packet) (s : Service M EventData)
      → IsSound s
      → (serve s (cancels ∷ closes ∷ dispatches ∷ reads q ∷ returns ∷ [])).stage ≡ returned
  sound_returns q s (inr (over, e)) = over_returns q s over e
  sound_returns q s (inl v) =
      unfold serve serve_step in
      let v1 = serve_step-IsRunning s cancels v in
      closed_returns q (serve_step (serve_step s cancels) closes)
        (serve_step-IsRunning (serve_step s cancels) closes v1)
        (shut_socket-IsShut (cancelled s.stage) (cancelled-IsTold s.stage))

  -- While main waits for it, the PFCP socket runs.
  execute-pfcp_runs :
      (es : List ServiceEvent) (rest : List MainEvent) (p : Program M)
      → p.stage ≡ joining
      → p.signalled ≡ true
      → execute p (map pfcp_runs es ++ rest)
        ≡ execute (record p { service = serve p.service es }) rest
  unfolding execute serve main_step live_step
  execute-pfcp_runs [] rest p e signalled = refl
  execute-pfcp_runs (event ∷ es) rest p e signalled =
      let step : main_step p (pfcp_runs event) ≡ record p { service = serve_step p.service event } =
        ground (arith, e, signalled, is_ready_signalled event) in
      ap (λ x. execute x (map pfcp_runs es ++ rest)) step
      ∙ execute-pfcp_runs es rest (record p { service = serve_step p.service event }) e signalled

  joins_at_end :
      (q : Packet) (p : Program M)
      → IsSound p.service
      → p.signalled ≡ true
      → p.stage ≡ joining
      → (execute p (
          map pfcp_runs (cancels ∷ closes ∷ dispatches ∷ reads q ∷ returns ∷ [])
          ++ (joins ∷ []))).stage
        ≡ terminated
  unfolding execute main_step live_step join
  joins_at_end q p sound signalled e =
      let events = cancels ∷ closes ∷ dispatches ∷ reads q ∷ returns ∷ [] in
      let after = execute-pfcp_runs events (joins ∷ []) p e signalled in
      let over = sound_returns q p.service sound in
      ap (λ x. x.stage) after ∙ ground (arith, e, over)

  -- The select and Shutdown, from wherever main stands.
  settled :
      (m : MainStage) (p : Program M)
      → p.stage ≡ m
      → p.signalled ≡ true
      → is_over m ≡ false
      → let r = main_step (main_step p takes_done) shuts in
        (r.stage ≡ joining) × (r.signalled ≡ true) × (r.service ≡ p.service)
  unfolding main_step live_step shut
  settled selecting p e signalled live =
      (ground (arith, e, signalled), ground (arith, e, signalled), ground (arith, e, signalled))
  settled shutting_down p e signalled live =
      (ground (arith, e, signalled), ground (arith, e, signalled), ground (arith, e, signalled))
  settled joining p e signalled live =
      (ground (arith, e, signalled), ground (arith, e, signalled), ground (arith, e, signalled))
  settled terminated p e signalled live = absurd (ground (arith, live))
  settled failed p e signalled live = absurd (ground (arith, live))

  finale_ends :
      (q : Packet) (p : Program M)
      → IsSound p.service
      → p.signalled ≡ true
      → is_over p.stage ≡ false
      → (execute p (finale q)).stage ≡ terminated
  unfolding execute
  finale_ends q p sound signalled live =
      let (at, still, same) = settled p.stage p refl signalled live in
      joins_at_end q (main_step (main_step p takes_done) shuts) (subst IsSound (sym same) sound)
        still at

  start-IsMain :
      (addr : UdpAddr) (listened : Option Text) (now : ℕ) → IsMain (main addr listened now)
  unfolding main run
  start-IsMain addr none now = (inr (refl, refl), tt)
  start-IsMain addr (some local_addr) now = (
    inl (record {
      socket = new_server addr local_addr;
      there = refl;
      listens = refl;
      waits = λ h. absurd (ground (arith, h));
    }),
    tt,
  )

module _ (M : Type 0) ⦃net : Net⦄ ⦃pfcp : Pfcp M⦄ (addr : UdpAddr) (listened : Option Text)
    (now : ℕ) (es : List MainEvent) where
  -- However the signal, the HTTP server and the PFCP socket take their turns, and whether or not
  -- the socket could be opened: main is in Shutdown only after the signal, and waits for Run only
  -- with the HTTP server shut down too; it is at its end only after the signal, with the HTTP
  -- server shut down and with Run back; and it is out early only where the HTTP server had failed.
  pub main_ends_in_order :
      let p = execute (main {M = M} addr listened now) es in
      Told p.stage p.http p.signalled p.service.stage
  main_ends_in_order =
      (execute-IsMain es (main addr listened now) (start-IsMain addr listened now)).1

  -- Once the signal has come, and main is not out yet, it comes to its end: the select, Shutdown,
  -- the close of the PFCP socket, the dispatch of a message that was read before, one read and the
  -- two waits are enough, whatever has happened before and whatever the socket holds.
  pub main_terminates :
      (q : Packet)
      → (execute (main {M = M} addr listened now) es).signalled ≡ true
      → is_over (execute (main {M = M} addr listened now) es).stage ≡ false
      → (execute (execute (main {M = M} addr listened now) es) (finale q)).stage ≡ terminated
  main_terminates q =
      finale_ends q (execute (main addr listened now) es)
        (execute-IsMain es (main addr listened now) (start-IsMain addr listened now)).0
