-- ===== src/Tests/Server.antt =====
-- The trackers of server/tracker.go at concrete inputs.
use imap_go.Wire.Decimal.{format_uint}
use imap_go.Prelude.{◌+◌, Bytes, [], ◌∷◌, ◌++◌, some, false, true, ◌≡◌, refl, codes, arith}
use imap_go.Server.Tracker.Counts.{replay, Elsewhere}
use imap_go.Server.Tracker.Registered.{IsConsistent, Step, Step-IsConsistent}
use imap_go.Server.Tracker.Heard.{Hears}
use imap_go.Server.Tracker.Watched.{Watch, client_in_step, lost_expunge}
use imap_go.Server.Tracker.{
  Heap, exists_update, expunge_update, new_mailbox_tracker, new_session_tracker, select,
  queue_expunge, queue_new_message, flush,
}
use imap_go.Wire.Encoder.{Encoder}

-- Every mailbox has two messages, and nobody is selected.
abbrev start : Heap
start = record {
  mailboxes = λ t. new_mailbox_tracker (codes "INBOX") 2 1 3;
  clients = λ st. new_session_tracker;
}

start-IsConsistent : IsConsistent start
unfolding new_mailbox_tracker new_session_tracker
start-IsConsistent q t = refl

abbrev selected_heap : Heap
selected_heap = select 7 (some 1) start

Step-IsConsistent_example : IsConsistent selected_heap
Step-IsConsistent_example =
    Step-IsConsistent start selected_heap (Step.selected 7 (some 1)) start-IsConsistent

-- Session 7 selects mailbox 1, session 8 too; a message comes, the first is expunged.
abbrev busy : Heap
busy = queue_expunge 1 1 (queue_new_message 1 (select 8 (some 1) selected_heap))

abbrev busy-Watch : Watch 7 1 start 2 busy
unfolding new_mailbox_tracker
busy-Watch = Watch.then_expunged 1 1 (
    Watch.then_grown 1
      (Watch.then_elsewhere Watch.selects_it (Elsewhere.selects_other 8 (some 1) refl)))

client_in_step_example :
    (replay 2 (busy.clients 7).updates ≡ (busy.mailboxes 1).num_messages)
    × ((t : Bytes) × ((flush 7 true [] busy).0 ≡ [] ++ t)
        × Hears 2 t (busy.mailboxes 1).num_messages)
client_in_step_example = client_in_step 7 1 start start-IsConsistent 2 busy busy-Watch []

busy-IsConsistent : IsConsistent busy
busy-IsConsistent = Step-IsConsistent grown busy (Step.expunged 1 1) (
    Step-IsConsistent two_selected grown (Step.grown 1) (
      Step-IsConsistent selected_heap two_selected (Step.selected 8 (some 1))
        Step-IsConsistent_example))
  where
    two_selected : Heap
    two_selected = select 8 (some 1) selected_heap

    grown : Heap
    grown = queue_new_message 1 two_selected

busy_updates : (busy.clients 7).updates ≡ exists_update 3 ∷ expunge_update 1 ∷ []
unfolding select queue_expunge queue_new_message new_mailbox_tracker new_session_tracker
busy_updates = refl

abbrev sent : Encoder
sent = (flush 7 true [] busy).0

flush_busy : sent ≡ codes "* 3 EXISTS\r\n* 1 EXPUNGE\r\n"
unfolding flush select queue_expunge queue_new_message new_mailbox_tracker new_session_tracker
    format_uint
flush_busy = refl

lost_expunge_example :
    let expunged = queue_expunge 1 2 busy in
    let after = flush 7 false [] expunged in
    ((expunged.clients 7).updates ≡ (busy.clients 7).updates ++ expunge_update 2 ∷ [])
    × (after.0 ≡ (flush 7 false [] busy).0)
    × ((after.1.clients 7).updates ≡ [])
    × ((after.1.mailboxes 1).num_messages + 1 ≡ (busy.mailboxes 1).num_messages)
unfolding select queue_expunge queue_new_message new_mailbox_tracker new_session_tracker
lost_expunge_example = lost_expunge 7 1 2 [] busy busy-IsConsistent refl (omega arith)
