-- ===== src/Program/Place.antt =====
-- What the place of main in upfadapter.go says of the signal, the HTTP server and udp.Run.
use upfadapter.Prelude.{◌≡◌, refl, Bool, true, false, arith}
use upfadapter.Udp.Service.{
  Stage, serving, context_ended, closing, returned, ServiceEvent, reads, dispatches, cancels,
  closes, returns,
}
use upfadapter.Program.{
  MainStage, selecting, shutting_down, joining, failed, terminated, HttpStage, listening, broken,
  shut_down, is_over, has_returned, is_ready, breaks, take_error, take_done,
}

-- What main's place says of the rest.
abbrev pub Told : MainStage → HttpStage → Bool → Stage → Type 0
Told selecting http signalled stage = Unit
Told shutting_down http signalled stage = signalled ≡ true
Told joining http signalled stage = (signalled ≡ true) × (http ≡ shut_down)
Told terminated http signalled stage = (signalled ≡ true) × (http ≡ shut_down) × (stage ≡ returned)
Told failed http signalled stage = http ≡ broken

pub Told-signals :
    (m : MainStage) (http : HttpStage) (signalled : Bool) (stage : Stage)
    → Told m http signalled stage
    → Told m http true stage
Told-signals selecting http signalled stage t = tt
Told-signals shutting_down http signalled stage t = refl
Told-signals joining http signalled stage t = (refl, t.1)
Told-signals terminated http signalled stage t = (refl, t.1, t.2)
Told-signals failed http signalled stage t = t

pub Told-breaks :
    (m : MainStage) (http : HttpStage) (signalled : Bool) (stage : Stage)
    → Told m http signalled stage
    → Told m (breaks http) signalled stage
Told-breaks selecting http signalled stage t = tt
Told-breaks shutting_down http signalled stage t = t
Told-breaks joining http signalled stage t = (t.0, ground (arith, t.1))
Told-breaks terminated http signalled stage t = (t.0, ground (arith, t.1), t.2)
Told-breaks failed http signalled stage t = ground (arith, t)

pub Told-take_error :
    (m : MainStage) (http : HttpStage) (signalled : Bool) (stage : Stage)
    → Told m http signalled stage
    → Told (take_error http m) http signalled stage
Told-take_error selecting broken signalled stage t = refl
Told-take_error selecting listening signalled stage t = t
Told-take_error selecting shut_down signalled stage t = t
Told-take_error shutting_down broken signalled stage t = t
Told-take_error shutting_down listening signalled stage t = t
Told-take_error shutting_down shut_down signalled stage t = t
Told-take_error joining broken signalled stage t = t
Told-take_error joining listening signalled stage t = t
Told-take_error joining shut_down signalled stage t = t
Told-take_error terminated broken signalled stage t = t
Told-take_error terminated listening signalled stage t = t
Told-take_error terminated shut_down signalled stage t = t
Told-take_error failed broken signalled stage t = t
Told-take_error failed listening signalled stage t = t
Told-take_error failed shut_down signalled stage t = t

pub Told-take_done :
    (m : MainStage) (http : HttpStage) (signalled : Bool) (stage : Stage)
    → Told m http signalled stage
    → Told (take_done signalled m) http signalled stage
Told-take_done selecting http true stage t = refl
Told-take_done selecting http false stage t = t
Told-take_done shutting_down http true stage t = t
Told-take_done shutting_down http false stage t = t
Told-take_done joining http true stage t = t
Told-take_done joining http false stage t = t
Told-take_done terminated http true stage t = t
Told-take_done terminated http false stage t = t
Told-take_done failed http true stage t = t
Told-take_done failed http false stage t = t

-- Only the end of main asks something of Run.
pub Told-live :
    (m : MainStage) (http : HttpStage) (signalled : Bool) (stage stage' : Stage)
    → is_over m ≡ false
    → Told m http signalled stage
    → Told m http signalled stage'
Told-live selecting http signalled stage stage' live t = tt
Told-live shutting_down http signalled stage stage' live t = t
Told-live joining http signalled stage stage' live t = t
Told-live terminated http signalled stage stage' live t = absurd (ground (arith, live))
Told-live failed http signalled stage stage' live t = t

pub is_ready_signalled : (e : ServiceEvent) → is_ready true e ≡ true
is_ready_signalled (reads p) = refl
is_ready_signalled dispatches = refl
is_ready_signalled cancels = refl
is_ready_signalled closes = refl
is_ready_signalled returns = refl

pub has_returned_sound : (stage : Stage) → has_returned stage ≡ true → stage ≡ returned
has_returned_sound returned h = refl
has_returned_sound serving h = absurd (ground (arith, h))
has_returned_sound context_ended h = absurd (ground (arith, h))
has_returned_sound closing h = absurd (ground (arith, h))
