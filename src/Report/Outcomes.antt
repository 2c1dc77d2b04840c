-- ===== src/Report/Outcomes.antt =====
-- How one attempt to relay or to refuse a session report ends, in pfcp/handler/handler.go.
use upfadapter.Prelude.{
  ◌⊎◌, inl, inr, ℕ, ◌≡◌, refl, sym, ap, subst, ◌∙◌, true, Option, none, some, List, ◌∷◌, ite,
  ℕ_discrete, nat_key, lookup, contains,
}
use upfadapter.Net.{Net, Text, UdpAddr}
use upfadapter.Pfcp.{Pfcp, response_type}
use upfadapter.Relay.{ReportRelay, RelayTable, forget_report_relay}
use upfadapter.Relay.Index.{lookup-forget_report_relay}
use upfadapter.Udp.{send_pfcp, new_transaction}
use upfadapter.Udp.Tables.{Transaction, Server, SendError, table_of}
use upfadapter.Udp.Register.{IsSeparate}
use upfadapter.Udp.Sent.{
  Started, Attempted, new_transaction-carries, new_transaction-answers, send_pfcp-Attempted,
}
use upfadapter.Report.{
  EventData, answer_returned, World, relays_of, with_relays, send, reject_session_report,
  refuse_and_release,
}

-- An open socket that started these transactions.
pub record IsOpen {H : Type 0} (old : List (Transaction EventData)) (w : World H) : Type 0 where
  pub socket : Server EventData
  pub there : w.server ≡ some socket
  pub listens : socket.listening ≡ true
  pub separate : IsSeparate socket
  pub began : socket.started ≡ old

-- What the code relies on of go-pfcp: messages can be encoded, a rejection of a report is a response
-- that carries the number it is given, and giving a message a number changes the number alone.
pub record Encodes (M : Type 0) ⦃pfcp : Pfcp M⦄ : Type 0 where
  pub encoded : (m : M) → (bytes : Text) × (pfcp.marshal m ≡ some bytes)
  pub rejection_number : (seid seq : ℕ) → pfcp.sequence (pfcp.report_rejection seid seq) ≡ seq
  pub rejection_answers :
      (seid seq : ℕ) → response_type (pfcp.message_type (pfcp.report_rejection seid seq)) ≡ true
  pub set_sequence_number : (seq : ℕ) (m : M) → pfcp.sequence (pfcp.set_sequence seq m) ≡ seq
  pub set_sequence_type :
      (seq : ℕ) (m : M) → pfcp.message_type (pfcp.set_sequence seq m) ≡ pfcp.message_type m

module _ {M : Type 0} ⦃net : Net⦄ ⦃pfcp : Pfcp M⦄ where
  -- The user plane's number is answered at its address: by one transaction that was started, which
  -- carries this message there, or the number was answered there before and none was started.
  abbrev pub Answered : M → ℕ → UdpAddr → Server EventData → Server EventData → Type 0
  Answered msg upf_seq addr s s' =
      (contains upf_seq (table_of (net.udp_string addr) s') ≡ true)
      × (Started msg addr answer_returned (some s) (some s')
          ⊎ ((contains upf_seq (table_of (net.udp_string addr) s) ≡ true)
              × (s'.started ≡ s.started)))

module _ {M H : Type 0} ⦃net : Net⦄ ⦃pfcp : Pfcp M⦄ (report : M) (smf addr : UdpAddr)
    (old : List (Transaction EventData)) where
  -- Exactly one transaction was started, which carries the report to the SMF under a number that the
  -- report's relay now has; no other relay changed.
  pub record IsRelayed (relay_seq : ℕ) (t : RelayTable) (w' : World H) : Type 0 where
    pub seq : ℕ
    pub relay : ReportRelay
    pub tx : Transaction EventData
    pub held : lookup relay_seq t.relays ≡ some relay
    pub looks :
        (k : ℕ)
        → lookup k (relays_of w').relays
          ≡ ite
              (ℕ_discrete seq k)
              (some relay)
              (ite (ℕ_discrete relay_seq k) none (lookup k t.relays))
    pub carries : pfcp.marshal (pfcp.set_sequence seq report) ≡ some tx.send_msg
    pub goes : tx.dest_addr ≡ smf
    pub opened : IsOpen (tx ∷ old) w'

  -- The user plane's number is answered at its address, and the report's relay is gone; no other
  -- relay changed.
  pub record IsRefused (relay_seq : ℕ) (t : RelayTable) (w' : World H) : Type 0 where
    pub socket : Server EventData
    pub there : w'.server ≡ some socket
    pub separate : IsSeparate socket
    pub absorbs : contains (pfcp.sequence report) (table_of (net.udp_string addr) socket) ≡ true
    pub looks :
        (k : ℕ)
        → lookup k (relays_of w').relays ≡ ite (ℕ_discrete relay_seq k) none (lookup k t.relays)

  module _ (laws : Encodes M) where
    pub send-Attempted :
        (msg : M) (dest : UdpAddr) (event_data : EventData) (w : World H)
        → (o : IsOpen old w)
        → (bytes : Text) × (s' : Server EventData) × (err : Option SendError) × (pfcp.marshal msg
            ≡ some bytes)
          × (send M msg dest event_data w ≡ (record w { server = some s' }, err))
          × Attempted (new_transaction msg bytes dest event_data o.socket).1 o.socket s' err
    send-Attempted msg dest event_data w o =
        let (bytes, e) = laws.encoded msg in
        let (s', err, sent, done) =
          send_pfcp-Attempted msg bytes dest event_data o.socket o.listens e o.separate in
        (
          bytes,
          s',
          err,
          e,
          ap (λ r. (record w { server = r.0 }, r.1))
              (ap (send_pfcp msg dest event_data) o.there ∙ sent),
          done,
        )

    -- A response to the user plane that has its number leaves the relays alone; it is sent to the user
    -- plane, or its number was answered there before.
    pub send-Answered :
        (msg : M) (upf_seq : ℕ) (w : World H) (o : IsOpen old w)
        → pfcp.sequence msg ≡ upf_seq
        → response_type (pfcp.message_type msg) ≡ true
        → (s' : Server EventData) × ((send M msg addr answer_returned w).0
            ≡ record w { server = some s' })
          × IsSeparate s'
          × Answered msg upf_seq addr o.socket s'
    unfolding new_transaction
    send-Answered msg upf_seq w o numbered answers =
        let (bytes, s', err, e, sent, (v, listens, waits, how)) =
          send-Attempted msg addr answer_returned w o in
        let tx = (new_transaction msg bytes addr answer_returned o.socket).1 in
        let (carried, goes, number) =
          new_transaction-carries msg bytes addr answer_returned o.socket in
        let home = new_transaction-answers msg bytes addr answer_returned o.socket answers in
        let Waits : Server EventData → Text → ℕ → Type 0 =
          λ s c q. contains q (table_of c s) ≡ true in
        (
          s',
          ap (λ r. r.0) sent,
          v,
          (
            subst (λ c. Waits s' c upf_seq) home
                (subst (Waits s' tx.consumer_addr) (number ∙ numbered) waits),
            elim how [
              | inl (went, began) ↦
                  inl (o.socket, s', tx, refl, refl, began, e ∙ ap some (sym carried), goes, refl)
              | inr (went, began, taken) ↦ inr (
                subst (λ c. Waits o.socket c upf_seq) home
                    (subst (Waits o.socket tx.consumer_addr) (number ∙ numbered) taken),
                began,
              )
            ],
          ),
        )

    -- A rejection leaves the relays alone, and the user plane's number answered at its address.
    pub reject_session_report-absorbs :
        (seid upf_seq : ℕ) (w : World H) (o : IsOpen old w)
        → (s' : Server EventData) × ((reject_session_report M seid upf_seq addr w).0
            ≡ record w { server = some s' })
          × IsSeparate s'
          × Answered (pfcp.report_rejection seid upf_seq) upf_seq addr o.socket s'
    unfolding reject_session_report
    reject_session_report-absorbs seid upf_seq w o =
        send-Answered (pfcp.report_rejection seid upf_seq) upf_seq w o
          (laws.rejection_number seid upf_seq) (laws.rejection_answers seid upf_seq)

    pub IsRefused-refuse_and_release :
        (relay_seq : ℕ) (w : World H)
        → IsOpen old w
        → IsRefused relay_seq
            (relays_of w)
            (refuse_and_release M (pfcp.seid report) (pfcp.sequence report) addr relay_seq w)
    unfolding refuse_and_release
    IsRefused-refuse_and_release relay_seq w o =
        let (s', sent, v, absorbs) =
          reject_session_report-absorbs (pfcp.seid report) (pfcp.sequence report) w o in
        subst
          (λ u.
            IsRefused relay_seq (relays_of w)
              (with_relays (forget_report_relay relay_seq (relays_of u)) u))
          (sym sent)
          (record {
            socket = s';
            there = refl;
            separate = v;
            absorbs = absorbs.0;
            looks = λ k. lookup-forget_report_relay k relay_seq (relays_of w);
          })
